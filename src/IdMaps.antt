-- ===== src/IdMaps.antt =====
-- container.go: `subIDRange` and `idMappings`; netns.go: `idMapArgs`.
pub mod Ranges
pub mod Mapping
mod Tests
use curimata.Common.{
  ℕ, ◌+◌, ◌-◌, Bool, true, false, ◌||◌, ◌&&◌, List, [], ◌∷◌, ◌++◌, Option, none, some, ltb, leb,
  if◌then◌else◌, Bytes, bytes_eq, Result, ok, err, ◌>>=◌,
}
use curimata.Common.Int.{ℤ, pos, negsuc}
use curimata.Text.Trim.{trim_space}
use curimata.Text.Fields.{split}
use curimata.Text.Number.{itoa, itoa_ℤ, atoi}

pub data SubIdError : Type 0 where
  not_opened : SubIdError
  not_read : SubIdError
  no_entry : Bytes → SubIdError

-- What the scanner gives of an opened file: its lines, and whether they end without an error.
pub record SubIdFile : Type 0 where
  pub lines : List Bytes
  pub complete : Bool

-- `configs.IDMap`
pub record IdMap : Type 0 where
  pub container_id : ℤ
  pub host_id : ℤ
  pub size : ℤ

-- The name to look for; `current` is the answer of `user.Current`.
unfoldable pub user_name : Option Bytes → ℕ → Bytes
user_name none host_id = itoa host_id
user_name (some name) host_id = name

unfoldable pub both_numbers : Bytes → Bytes → Option (ℤ × ℤ)
both_numbers start count = elim (atoi start) [
  | none ↦ none
  | some s ↦ elim (atoi count) [ none ↦ none | some c ↦ some (s, c) ]
]

-- The range of a line's fields; `none` passes the line over.
unfoldable pub entry_fields : Bytes → ℕ → List Bytes → Option (ℤ × ℤ)
unfolding both_numbers
entry_fields name host_id (owner ∷ start ∷ count ∷ []) =
    if bytes_eq owner name || bytes_eq owner (itoa host_id) then both_numbers start count else none
entry_fields name host_id [] = none
entry_fields name host_id (_ ∷ []) = none
entry_fields name host_id (_ ∷ _ ∷ []) = none
entry_fields name host_id (_ ∷ _ ∷ _ ∷ _ ∷ _) = none

unfoldable pub entry_of : Bytes → ℕ → Bytes → Option (ℤ × ℤ)
unfolding entry_fields
entry_of name host_id line = entry_fields name host_id (split (trim_space line) b':')

unfoldable pub scan_lines : Bytes → ℕ → Bool → List Bytes → Result SubIdError (ℤ × ℤ)
unfolding entry_of
scan_lines name host_id complete [] = if complete then err (no_entry name) else err not_read
scan_lines name host_id complete (line ∷ lines) =
    let rest = scan_lines name host_id complete lines in
    elim (entry_of name host_id line) [ none ↦ rest | some r ↦ ok r ]

-- `none` is a file that cannot be opened.
unfoldable pub sub_id_range : Option Bytes → Option SubIdFile → ℕ → Result SubIdError (ℤ × ℤ)
unfolding scan_lines user_name
sub_id_range current none host_id = err not_opened
sub_id_range current (some file) host_id =
    scan_lines (user_name current host_id) host_id file.complete file.lines

unfoldable pub id_mappings : Option Bytes → ℕ → Option SubIdFile → Result SubIdError (List IdMap)
unfolding sub_id_range
id_mappings current host_id file = sub_id_range current file host_id >>= λ (start, count). ok (
    record { container_id = pos 0; host_id = pos host_id; size = pos 1 }
    ∷ record { container_id = pos 1; host_id = start; size = count }
    ∷ [])

unfoldable pub map_args : List IdMap → List Bytes
map_args [] = []
map_args (m ∷ maps) = itoa_ℤ m.container_id ∷ itoa_ℤ m.host_id ∷ itoa_ℤ m.size ∷ map_args maps

unfoldable pub id_map_args : Option Bytes → ℕ → Option SubIdFile → Result SubIdError (List Bytes)
unfolding id_mappings map_args
id_map_args current id file = id_mappings current id file >>= λ maps. ok (map_args maps)
