-- ===== src/IdMaps/Tests.antt =====
-- container.go and netns.go at a file with two users.
use curimata.Common.{
  ℕ, ◌+◌, ◌-◌, ◌≡◌, ◌↔◌, refl, true, false, List, [], ◌∷◌, Option, none, some, leb, ◌==◌, Bytes,
  bytes_eq, codes, ok, err, if◌then◌else◌,
}
use curimata.Common.Int.{pos}
use curimata.Text.Trim.{trim_space}
use curimata.Text.Fields.{split}
use curimata.Text.Number.{itoa, itoa_ℤ, atoi}
use curimata.IdMaps.{
  IdMap, SubIdFile, no_entry, not_read, user_name, sub_id_range, id_mappings, id_map_args,
}
use curimata.IdMaps.Ranges.{FirstEntry, sub_id_range_iff}
use curimata.IdMaps.Mapping.{host_of, id_mappings-host_of}

abbrev file : SubIdFile
file = record {
  lines =
      codes "# users" ∷ codes "ann:100000:65536" ∷ codes "bob:x:1" ∷ codes " bob:165536:65536" ∷ [];
  complete = true;
}

abbrev bob : Option Bytes
bob = some (codes "bob")

found : sub_id_range bob (some file) 1001 ≡ ok (pos 165536, pos 65536)
unfolding sub_id_range bytes_eq split trim_space itoa atoi itoa_ℤ
found = refl

missing :
    (sub_id_range (some (codes "eve")) (some file) 7 ≡ err (no_entry (codes "eve")))
    × (sub_id_range (some (codes "eve")) (some (record file { complete = false })) 7 ≡ err not_read)
unfolding sub_id_range bytes_eq split trim_space itoa atoi itoa_ℤ
missing = (refl, refl)

arguments :
    id_map_args bob 1001 (some file)
    ≡ ok (codes "0" ∷ codes "1001" ∷ codes "1" ∷ codes "1" ∷ codes "165536" ∷ codes "65536" ∷ [])
unfolding id_map_args bytes_eq split trim_space itoa atoi itoa_ℤ
arguments = refl

sub_id_range_iff_example :
    (sub_id_range bob (some file) 1001 ≡ ok (pos 165536, pos 65536))
    ↔ FirstEntry (user_name bob 1001) 1001 file.lines (pos 165536, pos 65536)
sub_id_range_iff_example = sub_id_range_iff bob file 1001 (pos 165536, pos 65536)

id_mappings-host_of_example :
    (maps : List IdMap) × (id_mappings bob 1001 (some file) ≡ ok maps)
    × ((c : ℕ)
        → host_of maps c
          ≡ (if c == 0 then some 1001 else if leb c 65536 then some (165536 + (c - 1)) else none))
id_mappings-host_of_example = id_mappings-host_of bob 1001 (some file) 165536 65536 found

abbrev maps : List IdMap
maps =
    record { container_id = pos 0; host_id = pos 1001; size = pos 1 }
    ∷ record { container_id = pos 1; host_id = pos 165536; size = pos 65536 }
    ∷ []

mapped : id_mappings bob 1001 (some file) ≡ ok maps
unfolding id_mappings bytes_eq split trim_space itoa atoi itoa_ℤ
mapped = refl

translated : host_of maps 34 ≡ some 165569
unfolding host_of
translated = refl
