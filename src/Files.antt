-- ===== src/Files.antt =====
-- The file system as the program's calls see it: what stands at each path, with the symbolic links of the
-- kernel. A path is the list of its components, the innermost first, so that `filepath.Dir` is the tail.
pub mod Paths
pub mod Resolve
pub mod Calls
pub mod Lookup
pub mod Frame
pub mod Reach
pub mod Changes
use curimata.Common.{
  ℕ, zero, suc, ◌+◌, ◌*◌, ◌/◌, ◌%◌, ◌==◌, Bool, true, false, not, ◌&&◌, ◌||◌, List, [], ◌∷◌, Option,
  none, some, if◌then◌else◌, Bytes, bytes_eq,
}

abbrev pub FilePath : Type 0
FilePath = List Bytes

unfoldable pub path_eq : FilePath → FilePath → Bool
path_eq [] [] = true
path_eq [] (d ∷ q) = false
path_eq (c ∷ p) [] = false
path_eq (c ∷ p) (d ∷ q) = bytes_eq c d && path_eq p q

-- `below p q`: the path `q` is `p` or inside it. `inside p q`: it is inside.
unfoldable pub below : FilePath → FilePath → Bool
unfolding path_eq
below p [] = path_eq p []
below p (c ∷ q) = path_eq p (c ∷ q) || below p q

unfoldable pub inside : FilePath → FilePath → Bool
inside p [] = false
inside p (c ∷ q) = below p q

-- The permissions of a node: those that were asked for when it was made, of which the umask of the process takes bits
-- away, or those that `os.Chmod` set.
pub data Mode : Type 0 where
  masked exact : ℕ → Mode

-- The low bits of a number that are not in the other.
unfoldable pub without : ℕ → ℕ → ℕ → ℕ
without zero m u = 0
without (suc bits) m u =
    let high = without bits (m / 2) (u / 2) in
    (if (m % 2 == 1) && (u % 2 == 0) then 1 else 0) + 2 * high

-- The permissions with a umask.
unfoldable pub permissions : ℕ → Mode → ℕ
unfolding without
permissions umask (masked m) = without 9 m umask
permissions umask (exact m) = m

-- A file is never changed in place, so that a hard link is a copy of it.
pub data Node : Type 0 where
  directory : Mode → Node
  file : Mode → Bytes → Node
  symlink : Bytes → Node
  fifo : Mode → Node

abbrev pub Files : Type 0
Files = List (FilePath × Node)

unfoldable pub stored : Files → FilePath → Option Node
unfolding path_eq
stored [] q = none
stored ((p, n) ∷ fs) q = let rest = stored fs q in if path_eq p q then some n else rest

-- What stands at a path; the root is always a directory.
unfoldable pub node : Files → FilePath → Option Node
unfolding stored
node fs [] = some (directory (exact 493))
node fs (c ∷ p) = stored fs (c ∷ p)

unfoldable pub keep : (FilePath → Bool) → Files → Files
keep test [] = []
keep test ((p, n) ∷ fs) = let rest = keep test fs in if test p then (p, n) ∷ rest else rest

-- Replaces what stands at one path.
unfoldable pub put : FilePath → Node → Files → Files
unfolding keep path_eq
put p n fs = (p, n) ∷ keep (λ q. not (path_eq p q)) fs

-- Takes away a path and all inside it.
unfoldable pub take_away : FilePath → Files → Files
unfolding keep below
take_away p fs = keep (λ q. not (below p q)) fs

abbrev pub is_directory : Option Node → Bool
is_directory (some (directory m)) = true
is_directory (some (file m s)) = false
is_directory (some (symlink t)) = false
is_directory (some (fifo m)) = false
is_directory none = false

abbrev pub is_symlink : Option Node → Bool
is_symlink (some (symlink t)) = true
is_symlink (some (directory m)) = false
is_symlink (some (file m s)) = false
is_symlink (some (fifo m)) = false
is_symlink none = false

-- The names in a directory, as `os.ReadDir` lists them.
unfoldable pub name_in : FilePath → FilePath → List Bytes → List Bytes
unfolding path_eq
name_in p [] rest = rest
name_in p (c ∷ q) rest = if path_eq p q then c ∷ rest else rest

unfoldable pub names_in : FilePath → Files → List Bytes
unfolding name_in
names_in p [] = []
names_in p ((q, n) ∷ fs) = name_in p q (names_in p fs)
