-- ===== src/Copy/Whole.antt =====
-- box.go: a whole copy is the tree of the source.
use curimata.Common.{ℕ, ◌≡◌, ltb, List, [], ◌∷◌, Option, some, if◌then◌else◌, ◌%◌}
use curimata.Files.{Mode, without, permissions, FilePath}
use curimata.Copy.{
  Kind, directory, regular, symlink, fifo, other, Entry, made_directory, made_file, made_link,
  made_fifo, Target, made_at, State,
}
use curimata.Copy.Links.{first_of, IsDone}

-- What stands in the copy for an entry. Names of one file with several names have the path of the first of them,
-- and every other file has its own.
unfoldable pub IsCopy : Kind → List Entry → Target → Entry → Type 0
unfolding made_at first_of
IsCopy directory es made e = made_at made e.path ≡ some (made_directory e.mode e.time)
IsCopy regular es made e =
    (p : FilePath) × (made_at made e.path ≡ some (made_file p e.mode e.time e.body))
    × ((if ltb 1 e.links then first_of es e.device e.inode else some e.path) ≡ some p)
IsCopy symlink es made e = made_at made e.path ≡ some (made_link e.body)
IsCopy fifo es made e =
    (m : Mode) × (made_at made e.path ≡ some (made_fifo m))
    × ((u : ℕ) → permissions u m ≡ without 9 (e.mode % 512) u)
IsCopy other es made e = Unit

-- All the entries, from some state on.
abbrev AreDone : (ℕ → ℕ → Option FilePath) → State → List Entry → Type 0
AreDone first t [] = Unit
AreDone first t (e ∷ es) = IsDone e.kind first t e × AreDone first t es

abbrev empty : State
empty = record { made = ([], made_directory 448 0) ∷ []; directories = []; firsts = [] }
