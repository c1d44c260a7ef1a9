-- ===== src/Untar/Tests.antt =====
-- image.go: `untar` on small archives, with a SecureJoin that walks the components.
use curimata.Common.{
  ℕ, zero, suc, ◌≡◌, refl, sym, inl, inr, true, false, List, [], ◌∷◌, ◌++◌, Option, none, some,
  if◌then◌else◌, Bool-cases, All, Bytes, codes,
}
use curimata.Text.Fields.{split}
use curimata.Text.Search.{cut_prefix}
use curimata.Files.{
  masked, exact, FilePath, path_eq, below, Node, directory, file, symlink, fifo, Files, node,
  is_symlink,
}
use curimata.Files.Resolve.{no_entry}
use curimata.Files.Paths.{is_name, is_dot, is_dot_dot, is_rooted, parent, reverse_onto}
use curimata.Files.Lookup.{below_refl, inside→below, below-cases, path_eq_refl, inside-cons}
use curimata.Files.Frame.{IsPlain, IsReal}
use curimata.Untar.{
  SecureJoin, TypeFlag, type_dir, type_reg, type_symlink, type_link, Entry, not_hard_linked,
  apply_entries, untar,
}
use curimata.Untar.Targets.{IsSecure, is_ordinary}
use curimata.Untar.Modes.{Outside, untar-Outside}

-- A link is followed from the root of the join, or from where it stands.
abbrev link_start : FilePath → FilePath → Bytes → FilePath
link_start root at text = if is_rooted text then root else at

abbrev link_text : Option Node → Bytes
link_text none = []
link_text (some (symlink t)) = t
link_text (some (directory m)) = []
link_text (some (file m s)) = []
link_text (some (fifo m)) = []

abbrev above : FilePath → FilePath → FilePath
above root at = if path_eq root at then at else parent at

unfoldable walk : ℕ → Files → FilePath → FilePath → List Bytes → Option FilePath
unfolding is_dot is_dot_dot node path_eq split
walk zero fs root at cs = none
walk (suc n) fs root at [] = some at
walk (suc n) fs root at (c ∷ cs) =
    let text = link_text (node fs (c ∷ at)) in
    if is_dot c
    then walk n fs root at cs
    else if is_dot_dot c
    then walk n fs root (above root at) cs
    else if is_symlink (node fs (c ∷ at))
    then walk n fs root (link_start root at text) (split text b'/' ++ cs)
    else walk n fs root (c ∷ at) cs

unfoldable walk_join : SecureJoin
unfolding walk reverse_onto
walk_join fs root p = walk 64 fs root root (reverse_onto p [])

-- A place that the walk may reach.
abbrev IsReached : Files → FilePath → FilePath → Type 0
IsReached fs root at = (below root at ≡ true) × IsPlain fs at

above-IsReached :
    (fs : Files) (root at : FilePath) → IsReached fs root at → IsReached fs root (above root at)
unfolding IsPlain
above-IsReached fs root [] (b, h) = elim (Bool-cases (path_eq root [])) [
  | inl e ↦ rw e (b, h)
  | inr e ↦ rw e (b, h)
]
above-IsReached fs root (c ∷ at) (b, (named, s, h)) = elim (Bool-cases (path_eq root (c ∷ at))) [
  | inl e ↦ rw e (b, (named, s, h))
  | inr e ↦ elim (below-cases root c at b) [
    | inl q ↦ let f = rw (q, path_eq_refl (c ∷ at)) at e in cc
    | inr on ↦ rw e (on, h)
  ]
]

link_start-IsReached :
    (fs : Files) (root at : FilePath) (text : Bytes)
    → IsPlain fs root
    → IsReached fs root at
    → IsReached fs root (link_start root at text)
link_start-IsReached fs root at text plain h = elim (Bool-cases (is_rooted text)) [
  | inl e ↦ rw e (below_refl root, plain)
  | inr e ↦ rw e h
]

name-of : (c : Bytes) → is_dot c ≡ false → is_dot_dot c ≡ false → is_name c ≡ true
unfolding is_name
name-of c d e = rw (d, e) refl

step-IsReached :
    (fs : Files) (root : FilePath) (c : Bytes) (at : FilePath)
    → is_name c ≡ true
    → is_symlink (node fs (c ∷ at)) ≡ false
    → IsReached fs root at
    → IsReached fs root (c ∷ at)
unfolding IsPlain
step-IsReached fs root c at named l (b, h) =
    (inside→below root (c ∷ at) (inside-cons root c at b), (named, l, h))

walk-IsReached :
    (n : ℕ) (fs : Files) (root at : FilePath) (cs : List Bytes) (r : FilePath)
    → IsPlain fs root
    → IsReached fs root at
    → walk n fs root at cs ≡ some r
    → IsReached fs root r
unfolding walk
walk-IsReached zero fs root at cs r plain h e = cc
walk-IsReached (suc n) fs root at [] r plain h e = let q : at ≡ r = cc in rw (sym q) h
walk-IsReached (suc n) fs root at (c ∷ cs) r plain h e = elim (Bool-cases (is_dot c)) [
  | inl d ↦ walk-IsReached n fs root at cs r plain h (rw d at e)
  | inr d ↦ elim (Bool-cases (is_dot_dot c)) [
    | inl dd ↦
        walk-IsReached n fs root (above root at) cs r plain (above-IsReached fs root at h)
          (rw (d, dd) at e)
    | inr dd ↦ elim (Bool-cases (is_symlink (node fs (c ∷ at)))) [
      | inl l ↦
          let text = link_text (node fs (c ∷ at)) in
          walk-IsReached n fs root (link_start root at text) (split text b'/' ++ cs) r plain
            (link_start-IsReached fs root at text plain h) (rw (d, dd, l) at e)
      | inr l ↦
          walk-IsReached n fs root (c ∷ at) cs r plain
            (step-IsReached fs root c at (name-of c d dd) l h) (rw (d, dd, l) at e)
    ]
  ]
]

walk_join-IsSecure : IsSecure walk_join
unfolding walk_join
walk_join-IsSecure fs root p r plain e =
    walk-IsReached 64 fs root root (reverse_onto p []) r plain (below_refl root, plain) e

abbrev entry : Bytes → TypeFlag → Entry
entry name flag = record {
  name = name;
  flag = flag;
  mode = 420;
  link_name = [];
  body = codes "x";
  body_cut = false;
}

-- The layer goes to /r/l, beside the file /r/s and the directory /o.
abbrev root : FilePath
root = codes "l" ∷ codes "r" ∷ []

abbrev outside : Files
outside =
    (codes "r" ∷ [], directory (exact 493))
    ∷ (codes "s" ∷ codes "r" ∷ [], file (exact 384) (codes "secret"))
    ∷ (codes "o" ∷ [], directory (exact 448))
    ∷ []

abbrev disk : Files
disk = (root, directory (exact 493)) ∷ outside

abbrev link_entry : Bytes → Bytes → Entry
link_entry name text = record (entry name type_symlink) { link_name = text }

abbrev archive : List Entry
archive =
    record (entry (codes "a/") type_dir) { mode = 320 }
    ∷ entry (codes "a/b") type_reg
    ∷ link_entry (codes "c") (codes "../s")
    ∷ entry (codes "c") type_reg
    ∷ entry (codes "a/.wh.b") type_reg
    ∷ []

whole_archive : untar walk_join 8 root archive false disk ≡ (
  (codes "a" ∷ root, directory (exact 320))
      ∷ (codes "c" ∷ root, file (masked 420) (codes "x"))
      ∷ disk,
  none,
)
unfolding untar walk_join
whole_archive = refl

-- A whiteout of ".." takes the directory above the layer away, with the file in it.
whiteout_above :
    untar walk_join 8 root (entry (codes ".wh...") type_reg ∷ []) false disk
    ≡ ((codes "o" ∷ [], directory (exact 448)) ∷ [], none)
unfolding untar walk_join
whiteout_above = refl

-- A link in place of the root leads the next file to where it points.
link_at_root :
    untar walk_join 8 root
      (link_entry (codes "./") (codes "/o") ∷ entry (codes "f") type_reg ∷ [])
      false
      disk
    ≡ (
      (codes "f" ∷ codes "o" ∷ [], file (masked 420) (codes "x"))
          ∷ (root, symlink (codes "/o"))
          ∷ outside,
      none,
    )
unfolding untar walk_join
link_at_root = refl

-- A directory that is recorded below another, which a link replaces later, gives its mode to a directory outside.
abbrev behind_link : List Entry
behind_link =
    record (entry (codes "d/o/") type_dir) { mode = 511 } ∷ link_entry (codes "d") (codes "/") ∷ []

mode_outside : untar walk_join 8 root behind_link false disk ≡ (
  (codes "o" ∷ [], directory (exact 511))
      ∷ (codes "d" ∷ root, symlink (codes "/"))
      ∷ (root, directory (exact 493))
      ∷ (codes "r" ∷ [], directory (exact 493))
      ∷ (codes "s" ∷ codes "r" ∷ [], file (exact 384) (codes "secret"))
      ∷ [],
  none,
)
unfolding untar walk_join
mode_outside = refl

disk-IsReal : IsReal disk root
unfolding IsReal is_name node
disk-IsReal = (refl, refl, (refl, refl, tt))

archive_ordinary : All (λ e. is_ordinary e ≡ true) archive
unfolding is_ordinary cut_prefix
archive_ordinary = (refl, (refl, (refl, (refl, (refl, tt)))))

archive-IsPlain :
    All
      (λ m. IsPlain (apply_entries walk_join 8 root archive false disk []).0.0 m.0)
      (apply_entries walk_join 8 root archive false disk []).1
unfolding apply_entries walk_join IsPlain is_name node
archive-IsPlain = ((refl, refl, (refl, refl, (refl, refl, tt))), tt)

untar-Outside_example : Outside root disk (untar walk_join 8 root archive false disk).0
untar-Outside_example =
    untar-Outside walk_join walk_join-IsSecure 7 root archive false disk disk-IsReal
      archive_ordinary archive-IsPlain

-- An opaque marker empties its directory, a hard link copies the node and a missing source ends the loop.
opaque_marker :
    untar walk_join 8 root
      (entry (codes "a/b") type_reg
        ∷ record (entry (codes "h") type_link) { link_name = codes "a/b" }
        ∷ entry (codes "a/.wh..wh..opq") type_reg
        ∷ record (entry (codes "k") type_link) { link_name = codes "a/b" }
        ∷ entry (codes "z") type_reg
        ∷ [])
      false
      disk
    ≡ (
      (codes "h" ∷ root, file (masked 420) (codes "x"))
          ∷ (codes "a" ∷ root, directory (masked 493))
          ∷ disk,
      some (not_hard_linked no_entry),
    )
unfolding untar walk_join
opaque_marker = refl
