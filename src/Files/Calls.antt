-- ===== src/Files/Calls.antt =====
-- The calls of package os that the program makes. One that fails changes nothing, except `os.MkdirAll`, which
-- keeps the directories that it made. Refused permissions and full disks are not in this picture.
use curimata.Common.{ℕ, List, [], ◌∷◌, Option, none, some, if◌then◌else◌, Bytes, Result, ok, err}
use curimata.Files.{
  masked, exact, FilePath, Node, directory, file, symlink, fifo, Files, node, put, take_away,
  is_directory, names_in,
}
use curimata.Files.Resolve.{
  Errno, no_entry, not_directory, file_exists, is_directory_error, too_many_links, follow, locate,
}

-- `os.Lstat` and `os.Stat`
unfoldable pub found : Option Node → Result Errno Node
found none = err no_entry
found (some n) = ok n

unfoldable pub lstat : ℕ → Files → FilePath → Result Errno Node
unfolding locate found node
lstat n fs p = elim (locate n fs p) [ err e ↦ err e | ok q ↦ found (node fs q) ]

unfoldable pub stat : ℕ → Files → FilePath → Result Errno Node
unfolding follow found node
stat n fs p = elim (follow n fs p) [ err e ↦ err e | ok q ↦ found (node fs q) ]

-- `os.RemoveAll`: nothing to remove is no error.
unfoldable pub absent : Errno → Files → Result Errno Files
absent no_entry fs = ok fs
absent not_directory fs = err not_directory
absent file_exists fs = err file_exists
absent is_directory_error fs = err is_directory_error
absent too_many_links fs = err too_many_links

unfoldable pub remove_all : ℕ → Files → FilePath → Result Errno Files
unfolding locate absent take_away
remove_all n fs p = elim (locate n fs p) [ err e ↦ absent e fs | ok q ↦ ok (take_away q fs) ]

-- A new file, link, fifo or directory at a free path: `os.Mkdir`, `os.Symlink`, `unix.Mkfifo` and `os.OpenFile`
-- with O_CREATE and O_EXCL.
unfoldable pub put_new : Files → FilePath → Node → Option Node → Result Errno Files
unfolding put
put_new fs q new none = ok (put q new fs)
put_new fs q new (some n) = err file_exists

unfoldable pub create : ℕ → Files → FilePath → Node → Result Errno Files
unfolding locate put_new node
create n fs p new = elim (locate n fs p) [ err e ↦ err e | ok q ↦ put_new fs q new (node fs q) ]

-- `os.Link`, which follows no link in the last component and takes no directory.
unfoldable pub link_node : ℕ → Files → Node → FilePath → Result Errno Files
unfolding create
link_node n fs old target =
    if is_directory (some old) then err is_directory_error else create n fs target old

unfoldable pub link : ℕ → Files → FilePath → FilePath → Result Errno Files
unfolding lstat link_node
link n fs source target = elim (lstat n fs source) [
  | err e ↦ err e
  | ok old ↦ link_node n fs old target
]

-- `os.Chmod` of a directory, which follows every link.
unfoldable pub set_mode : Files → FilePath → ℕ → Option Node → Result Errno Files
unfolding put
set_mode fs q mode none = err no_entry
set_mode fs q mode (some (directory m)) = ok (put q (directory (exact mode)) fs)
set_mode fs q mode (some (file m s)) = ok (put q (file (exact mode) s) fs)
set_mode fs q mode (some (fifo m)) = ok (put q (fifo (exact mode)) fs)
set_mode fs q mode (some (symlink t)) = err too_many_links

unfoldable pub chmod : ℕ → Files → FilePath → ℕ → Result Errno Files
unfolding follow set_mode node
chmod n fs p mode = elim (follow n fs p) [ err e ↦ err e | ok q ↦ set_mode fs q mode (node fs q) ]

-- The files after a call, and the error if it failed.
abbrev pub Outcome : Type 0 → Type 0
Outcome E = Files × Option E

-- What a call gives, with an error of the caller's.
abbrev pub call : {E : Type 0} → (Errno → E) → Files → Result Errno Files → Outcome E
call wrap fs (err e) = (fs, some (wrap e))
call wrap fs (ok after) = (after, none)

-- Goes on with the files if there was no error.
abbrev pub and_then : {E : Type 0} → Outcome E → (Files → Outcome E) → Outcome E
and_then (fs, some e) next = (fs, some e)
and_then (fs, none) next = next fs

-- `os.MkdirAll`
unfoldable pub make_parent : ℕ → FilePath → Outcome Errno → Outcome Errno
unfolding create
make_parent n p before =
    and_then before (λ fs. call (λ e. e) fs (create n fs p (directory (masked 493))))

unfoldable pub mkdir_all : ℕ → Files → FilePath → Outcome Errno
unfolding make_parent stat
mkdir_all n fs [] = (fs, none)
mkdir_all n fs (c ∷ p) =
    let made = make_parent n (c ∷ p) (mkdir_all n fs p) in
    elim (stat n fs (c ∷ p)) [
      | err e ↦ made
      | ok found ↦ if is_directory (some found) then (fs, none) else (fs, some not_directory)
    ]

-- `os.ReadDir`
unfoldable pub names_at : Files → FilePath → Option Node → Result Errno (List Bytes)
unfolding names_in
names_at fs q none = err no_entry
names_at fs q (some n) = if is_directory (some n) then ok (names_in q fs) else err not_directory

unfoldable pub read_dir : ℕ → Files → FilePath → Result Errno (List Bytes)
unfolding follow names_at node
read_dir n fs p = elim (follow n fs p) [ err e ↦ err e | ok q ↦ names_at fs q (node fs q) ]
