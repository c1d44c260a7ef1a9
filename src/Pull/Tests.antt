-- ===== src/Pull/Tests.antt =====
-- image.go: pulls of an image of two layers, which are numbers.
use curimata.Common.{
  ℕ, ◌≤◌, ◌/◌, ◌≡◌, ◌↔◌, refl, true, false, not, ◌&&◌, [], ◌∷◌, ◌++◌, none, some, codes, ok, err,
  bytes_eq, arith,
}
use curimata.Text.Trim.{trim_space}
use curimata.Pull.{
  absent, part, layers, Cache, World, is_directory, not_removed, pull_rootfs, has_digest, exponent,
  human_unit,
}
use curimata.Pull.Swap.{last_state, IsComplete, pull_rootfs-IsComplete}
use curimata.Pull.Sizes.{human_unit_iff}

abbrev fine : World ℕ
fine = record {
  manifest = some (codes "d2");
  layer_list = some (1 ∷ 2 ∷ []);
  cleared = true;
  created = true;
  extracts = λ l. true;
  removed_temporary = true;
  removed_old = true;
  renamed = true;
  stamped = true;
  partial_stamp = none;
}

-- An older image is there.
abbrev older : Cache ℕ
older = record { rootfs = layers (7 ∷ []); temporary = absent; stamp = some (codes "d1\n") }

pulled : last_state older (pull_rootfs fine older false).states ≡ record {
  rootfs = layers (1 ∷ 2 ∷ []);
  temporary = absent;
  stamp = some (codes "d2" ++ (10 ∷ []));
}
unfolding pull_rootfs bytes_eq trim_space
pulled = refl

kept : (pull_rootfs (record fine { manifest = some (codes "d1") }) older false).states ≡ []
unfolding pull_rootfs bytes_eq trim_space
kept = refl

-- The removal of the old tree fails half way: the rest of it keeps its digest.
abbrev half_removed : Cache ℕ
half_removed = record {
  rootfs = part;
  temporary = layers (1 ∷ 2 ∷ []);
  stamp = some (codes "d1\n");
}

removal_fails :
    (last_state older (pull_rootfs (record fine { removed_old = false }) older false).states
      ≡ half_removed)
    × ((pull_rootfs (record fine { removed_old = false }) older false).result ≡ err not_removed)
unfolding pull_rootfs bytes_eq trim_space
removal_fails = (refl, refl)

-- Without the registry, or with the digest of before, the rest of the old tree is taken for the image.
rest_is_used :
    ((pull_rootfs (record fine { manifest = none }) half_removed false).result ≡ ok tt)
    × ((pull_rootfs (record fine { manifest = some (codes "d1") }) half_removed false).result
        ≡ ok tt)
unfolding pull_rootfs bytes_eq trim_space
rest_is_used = (refl, refl)

not_cached :
    (not false && (has_digest older.stamp (codes "d2") && is_directory older.rootfs)) ≡ false
unfolding has_digest bytes_eq trim_space
not_cached = refl

pull_rootfs-IsComplete_example :
    IsComplete older (1 ∷ 2 ∷ []) (codes "d2") (pull_rootfs fine older false)
pull_rootfs-IsComplete_example =
    pull_rootfs-IsComplete fine older false (codes "d2") (1 ∷ 2 ∷ []) refl refl not_cached

human_unit_iff_example :
    (exponent 9 (3000 / 1024) 0 ≡ exponent 7 (3000 / 1024) 0)
    × ((human_unit 3000 ≡ none) ↔ (1125899906842624 ≤ 3000))
human_unit_iff_example = human_unit_iff 3000 9 (omega arith) (omega arith)

-- The greatest size that is printed in TiB, and the first that has no unit.
sizes : (human_unit 1125899906842623 ≡ some b'T') × (human_unit 1125899906842624 ≡ none)
unfolding human_unit
sizes = (refl, refl)
