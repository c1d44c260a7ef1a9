-- ===== src/Copy.antt =====
-- box.go: `copyTree` and `copyFile`. The tree at the source is the list of the entries that `filepath.WalkDir` visits, a
-- directory before what is in it; the copy is a list of paths with what was made there. What a copy
-- that fails leaves is not described here.
pub mod Growth
pub mod Links
pub mod Steps
pub mod Whole
mod Tests
use curimata.Common.{
  ℕ, ◌%◌, Bool, true, false, not, ◌&&◌, ◌||◌, ltb, ◌==◌, List, [], ◌∷◌, ◌++◌, Option, none, some,
  if◌then◌else◌, Bytes, Result, ok, err,
}
use curimata.Files.{Mode, masked, FilePath, path_eq}

-- Sockets and device nodes are `other`.
pub data Kind : Type 0 where
  directory regular symlink fifo other : Kind

-- What the walk tells of an entry, at its path below the source. `links` is the number of names of the file,
-- `device` and `inode` identify it; `body` is the content or the text of a link; `mode` holds the permissions with
-- the setuid, setgid and sticky bits.
pub record Entry : Type 0 where
  pub path : FilePath
  pub kind : Kind
  pub mode : ℕ
  pub time : ℕ
  pub links : ℕ
  pub device : ℕ
  pub inode : ℕ
  pub body : Bytes

-- What stands in the copy. A file is known by the path at which it was made, so that hard links have the same.
pub data Made : Type 0 where
  made_directory : ℕ → ℕ → Made
  made_file : FilePath → ℕ → ℕ → Bytes → Made
  made_link : Bytes → Made
  made_fifo : Mode → Made

abbrev pub Target : Type 0
Target = List (FilePath × Made)

unfoldable pub made_at : Target → FilePath → Option Made
unfolding path_eq
made_at [] p = none
made_at ((q, m) ∷ made) p = let rest = made_at made p in if path_eq q p then some m else rest

-- `firstPathOfInode`
unfoldable pub first_path : List (ℕ × ℕ × FilePath) → ℕ → ℕ → Option FilePath
first_path [] device inode = none
first_path ((d, i, p) ∷ firsts) device inode =
    let rest = first_path firsts device inode in
    if (d == device) && (i == inode) then some p else rest

-- The copy so far, the directories whose attributes are still to be set, the last first, and the first paths.
pub record State : Type 0 where
  pub made : Target
  pub directories : List (FilePath × ℕ × ℕ)
  pub firsts : List (ℕ × ℕ × FilePath)

-- The answers of the system: whether a call about an entry fails, or the setting of attributes.
pub record World : Type 0 where
  pub walk_fails : Entry → Bool
  pub call_fails : Entry → Bool
  pub attributes_fail : FilePath → Bool

-- A new name in the copy; a name that is there already is an error.
unfoldable pub make : State → FilePath → Made → Option State
unfolding made_at
make s p m = elim (made_at s.made p) [
  | some old ↦ none
  | none ↦ some (record s { made = (p, m) ∷ s.made })
]

-- `copyFile`, `Chmod` and `Chtimes`
unfoldable pub copy_file : State → Entry → Option State
unfolding make
copy_file s e = make s e.path (made_file e.path e.mode e.time e.body)

-- `os.Link` of the path that the file got first.
unfoldable pub link_to : State → FilePath → FilePath → Option State
unfolding make made_at
link_to s first p = elim (made_at s.made first) [ none ↦ none | some m ↦ make s p m ]

abbrev pub remember : State → Entry → State
remember s e = record s { firsts = (e.device, e.inode, e.path) ∷ s.firsts }

unfoldable pub copy_regular : State → Entry → Option State
unfolding first_path link_to copy_file
copy_regular s e =
    let alone = copy_file s e in
    let first = copy_file (remember s e) e in
    if ltb 1 e.links
    then elim (first_path s.firsts e.device e.inode) [ some p ↦ link_to s p e.path | none ↦ first ]
    else alone

abbrev pub later : State → Entry → State
later s e = record s { directories = (e.path, e.mode, e.time) ∷ s.directories }

-- The directory itself is there already; any other is made for the owner alone, at the time 0 of the copy.
unfoldable pub copy_directory : State → Entry → FilePath → Option State
unfolding make
copy_directory s e [] = some (later s e)
copy_directory s e (c ∷ p) = make (later s e) (c ∷ p) (made_directory 448 0)

unfoldable pub copy_kind : Kind → State → Entry → Option State
unfolding copy_directory copy_regular make
copy_kind directory s e = copy_directory s e e.path
copy_kind regular s e = copy_regular s e
copy_kind symlink s e = make s e.path (made_link e.body)
copy_kind fifo s e = make s e.path (made_fifo (masked (e.mode % 512)))
copy_kind other s e = some s

-- The function that the walk calls.
unfoldable pub copy_entry : World → State → Entry → Option State
unfolding copy_kind
copy_entry w s e =
    if w.walk_fails e then none else if w.call_fails e then none else copy_kind e.kind s e

unfoldable pub copy_entries : World → State → List Entry → Option State
unfolding copy_entry
copy_entries w s [] = some s
copy_entries w s (e ∷ es) = elim (copy_entry w s e) [
  | none ↦ none
  | some next ↦ copy_entries w next es
]

-- `Chmod` and `Chtimes` of the directories, the last first.
unfoldable pub set_attributes : World → List (FilePath × ℕ × ℕ) → Target → Option Target
set_attributes w [] made = some made
set_attributes w ((p, mode, time) ∷ directories) made =
    let rest = set_attributes w directories ((p, made_directory mode time) ∷ made) in
    if w.attributes_fail p then none else rest

-- The copy into an empty directory with some attributes.
unfoldable pub copy_tree : World → List Entry → Option Target
unfolding copy_entries set_attributes
copy_tree w es =
    let empty : State = record {
      made = ([], made_directory 448 0) ∷ [];
      directories = [];
      firsts = [];
    } in
    elim (copy_entries w empty es) [ none ↦ none | some s ↦ set_attributes w s.directories s.made ]
