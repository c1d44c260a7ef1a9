-- ===== src/Files/Resolve.antt =====
-- How the kernel finds the file of a path.
use curimata.Common.{
  ℕ, zero, suc, [], ◌∷◌, ◌++◌, Option, none, some, if◌then◌else◌, Bytes, Result, ok, err,
}
use curimata.Files.{FilePath, Node, directory, file, symlink, fifo, Files, node, is_directory}
use curimata.Files.Paths.{parts, is_rooted, is_dot, is_dot_dot, parent}

pub data Errno : Type 0 where
  no_entry not_directory file_exists is_directory_error too_many_links : Errno

-- Where a symbolic link with this text leads that stands in the directory `at`.
unfoldable pub link_path : FilePath → Bytes → FilePath
unfolding parts
link_path at text = if is_rooted text then parts text else parts text ++ at

-- The component `c` in the directory `at`; `next` follows a link.
unfoldable pub enter_name :
    (FilePath → Result Errno FilePath) → FilePath → Bytes → Option Node → Result Errno FilePath
unfolding link_path
enter_name next at c (some (symlink text)) = next (link_path at text)
enter_name next at c (some (directory m)) = ok (c ∷ at)
enter_name next at c (some (file m s)) = ok (c ∷ at)
enter_name next at c (some (fifo m)) = ok (c ∷ at)
enter_name next at c none = ok (c ∷ at)

unfoldable pub enter :
    (FilePath → Result Errno FilePath) → Files → FilePath → Bytes → Result Errno FilePath
unfolding enter_name node is_dot is_dot_dot
enter next fs at c = elim (node fs at) [
  | none ↦ err no_entry
  | some n ↦
      if is_directory (some n)
      then (if is_dot c
          then ok at
          else if is_dot_dot c
          then ok (parent at)
          else enter_name next at c (node fs (c ∷ at)))
      else err not_directory
]

unfoldable pub resolve :
    (FilePath → Result Errno FilePath) → Files → FilePath → Result Errno FilePath
unfolding enter
resolve next fs [] = ok []
resolve next fs (c ∷ p) = elim (resolve next fs p) [ err e ↦ err e | ok at ↦ enter next fs at c ]

-- A path with at most `n` links one inside the other; the kernel has such a limit.
unfoldable pub follow : ℕ → Files → FilePath → Result Errno FilePath
unfolding resolve
follow zero fs p = err too_many_links
follow (suc n) fs p = resolve (follow n fs) fs p

-- The directory in which a path's last component stands, with that component, which is not followed.
unfoldable pub locate_in : Files → FilePath → Bytes → Result Errno FilePath
unfolding node
locate_in fs at c = elim (node fs at) [
  | none ↦ err no_entry
  | some n ↦ if is_directory (some n) then ok (c ∷ at) else err not_directory
]

unfoldable pub locate : ℕ → Files → FilePath → Result Errno FilePath
unfolding follow locate_in
locate n fs [] = ok []
locate n fs (c ∷ p) = elim (follow n fs p) [ err e ↦ err e | ok at ↦ locate_in fs at c ]
