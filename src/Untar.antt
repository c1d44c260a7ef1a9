-- ===== src/Untar.antt =====
-- image.go: `untar`, which unpacks a layer, with `joinInside`, `makeRealDir`, `writeFile` and `clearDir`.
-- `securejoin.SecureJoin` is a parameter.
pub mod Targets
pub mod Inside
pub mod Content
pub mod Placed
pub mod Loop
pub mod Modes
mod Tests
use curimata.Common.{
  ℕ, ◌%◌, Bool, true, false, not, ◌&&◌, ◌||◌, List, [], ◌∷◌, ◌++◌, Option, none, some,
  if◌then◌else◌, Bytes, codes, bytes_eq, Result, ok, err,
}
use curimata.Text.Search.{has_prefix, cut_prefix}
use curimata.Files.{masked, FilePath, Node, directory, file, symlink, fifo, Files, is_directory}
use curimata.Files.Paths.{base, dir_of, clean_rooted, parent, step, is_dot}
use curimata.Files.Resolve.{
  Errno, no_entry, not_directory, file_exists, is_directory_error, too_many_links,
}
use curimata.Files.Calls.{
  Outcome, call, and_then, lstat, remove_all, create, link, chmod, mkdir_all, read_dir,
}

-- SecureJoin(root, unsafe) on the files of the moment: the second path is a list of components, the last first.
abbrev pub SecureJoin : Type 0
SecureJoin = Files → FilePath → FilePath → Option FilePath

-- The type flags of the entries that the code tells apart.
pub data TypeFlag : Type 0 where
  type_dir type_reg type_symlink type_link type_fifo type_char type_block type_other : TypeFlag

-- An entry with its header; `body_cut` says that its bytes end in an error.
pub record Entry : Type 0 where
  pub name : Bytes
  pub flag : TypeFlag
  pub mode : ℕ
  pub link_name : Bytes
  pub body : Bytes
  pub body_cut : Bool

pub data UntarError : Type 0 where
  read_tar unresolved bad_link bad_opaque bad_body : UntarError
  not_cleared not_whited_out no_parent not_made : Errno → UntarError
  not_written not_replaced not_linked not_hard_linked : Errno → UntarError
  no_fifo no_mode : Errno → UntarError

-- `mode.Perm()`: the low nine bits.
abbrev pub perm : ℕ → ℕ
perm mode = mode % 512

-- `joinInside`
unfoldable pub join_parts : SecureJoin → Files → FilePath → FilePath → Option FilePath
unfolding step is_dot
join_parts secure_join fs dir [] = secure_join fs dir []
join_parts secure_join fs dir (c ∷ p) = elim (secure_join fs dir p) [
  | none ↦ none
  | some resolved ↦ if is_dot c then some resolved else some (step true resolved c)
]

unfoldable pub join_inside : SecureJoin → Files → FilePath → Bytes → Option FilePath
unfolding join_parts clean_rooted
join_inside secure_join fs dir name = join_parts secure_join fs dir (clean_rooted name)

abbrev pub wrap : (Errno → UntarError) → Outcome Errno → Outcome UntarError
wrap f (fs, none) = (fs, none)
wrap f (fs, some e) = (fs, some (f e))

-- `makeRealDir`
abbrev pub if_missing : Errno → Files → Outcome Errno → Outcome Errno
if_missing no_entry fs made = made
if_missing not_directory fs made = (fs, some not_directory)
if_missing file_exists fs made = (fs, some file_exists)
if_missing is_directory_error fs made = (fs, some is_directory_error)
if_missing too_many_links fs made = (fs, some too_many_links)

unfoldable pub make_dir : ℕ → Files → FilePath → Outcome Errno
unfolding create
make_dir n fs path = call (λ e. e) fs (create n fs path (directory (masked 493)))

unfoldable pub make_real_dir : ℕ → Files → FilePath → Outcome Errno
unfolding make_dir lstat remove_all
make_real_dir n fs path = elim (lstat n fs path) [
  | err e ↦ if_missing e fs (make_dir n fs path)
  | ok info ↦
      if is_directory (some info)
      then (fs, none)
      else and_then (call (λ e. e) fs (remove_all n fs path)) (λ cleared. make_dir n cleared path)
]

-- The target of an entry is removed before the entry takes its place.
unfoldable pub replace :
    ℕ → Files → FilePath → (Errno → UntarError) → (Errno → UntarError) → Node → Outcome UntarError
unfolding remove_all create
replace n fs target not_removed not_created new =
    and_then (call not_removed fs (remove_all n fs target))
      (λ cleared. call not_created cleared (create n cleared target new))

-- `writeFile`
unfoldable pub write_file : ℕ → Files → FilePath → Entry → Outcome UntarError
unfolding replace
write_file n fs path e =
    and_then (replace n fs path not_written not_written (file (masked (perm e.mode)) e.body))
      (λ written. (written, if e.body_cut then some bad_body else none))

unfoldable pub hard_link : SecureJoin → ℕ → FilePath → Files → Entry → FilePath → Outcome UntarError
unfolding join_inside remove_all link
hard_link secure_join n dir fs e target = elim (join_inside secure_join fs dir e.link_name) [
  | none ↦ (fs, some bad_link)
  | some source ↦
      and_then (call not_replaced fs (remove_all n fs target))
        (λ cleared. call not_hard_linked cleared (link n cleared source target))
]

-- `clearDir`
unfoldable pub remove_names : ℕ → FilePath → List Bytes → Files → Outcome UntarError
unfolding remove_all
remove_names n target [] fs = (fs, none)
remove_names n target (c ∷ names) fs =
    and_then (call not_cleared fs (remove_all n fs (c ∷ target)))
      (λ after. remove_names n target names after)

abbrev pub unless_missing : Errno → Files → Outcome UntarError
unless_missing no_entry fs = (fs, none)
unless_missing not_directory fs = (fs, some (not_cleared not_directory))
unless_missing file_exists fs = (fs, some (not_cleared file_exists))
unless_missing is_directory_error fs = (fs, some (not_cleared is_directory_error))
unless_missing too_many_links fs = (fs, some (not_cleared too_many_links))

unfoldable pub clear_at : ℕ → Files → FilePath → Outcome UntarError
unfolding read_dir remove_names
clear_at n fs target = elim (read_dir n fs target) [
  | err e ↦ unless_missing e fs
  | ok names ↦ remove_names n target names fs
]

unfoldable pub clear_dir : SecureJoin → ℕ → FilePath → Files → FilePath → Outcome UntarError
unfolding clear_at
clear_dir secure_join n dir fs rel = elim (secure_join fs dir rel) [
  | none ↦ (fs, some bad_opaque)
  | some target ↦ clear_at n fs target
]

-- The files after an entry, and the directory modes that it asks for.
abbrev pub Applied : Type 0
Applied = Outcome UntarError × List (FilePath × ℕ)

-- The entry at its target, whose parent is there.
unfoldable pub place_by :
    TypeFlag → SecureJoin → ℕ → FilePath → Entry → FilePath → Files → Outcome UntarError
unfolding make_real_dir replace write_file hard_link
place_by type_dir secure_join n dir e target fs = wrap not_made (make_real_dir n fs target)
place_by type_reg secure_join n dir e target fs = write_file n fs target e
place_by type_symlink secure_join n dir e target fs =
    replace n fs target not_replaced not_linked (symlink e.link_name)
place_by type_link secure_join n dir e target fs = hard_link secure_join n dir fs e target
place_by type_fifo secure_join n dir e target fs =
    replace n fs target not_replaced no_fifo (fifo (masked (perm e.mode)))
place_by type_char secure_join n dir e target fs = (fs, none)
place_by type_block secure_join n dir e target fs = (fs, none)
place_by type_other secure_join n dir e target fs = (fs, none)

unfoldable pub place : SecureJoin → ℕ → FilePath → Entry → FilePath → Files → Outcome UntarError
unfolding place_by
place secure_join n dir e target fs = place_by e.flag secure_join n dir e target fs

abbrev pub asked : TypeFlag → FilePath → ℕ → List (FilePath × ℕ)
asked type_dir target mode = (target, perm mode) ∷ []
asked type_reg target mode = []
asked type_symlink target mode = []
asked type_link target mode = []
asked type_fifo target mode = []
asked type_char target mode = []
asked type_block target mode = []
asked type_other target mode = []

-- The prefixes of the names of whiteouts.
abbrev pub whiteout : Bytes
whiteout = codes ".wh."

abbrev pub marker : Bytes
marker = codes ".wh..wh."

abbrev pub opaque : Bytes
opaque = codes ".wh..wh..opq"

-- The parents of the target are made first.
unfoldable pub make_entry :
    SecureJoin → ℕ → FilePath → Files → Entry → FilePath → Outcome UntarError
unfolding mkdir_all place
make_entry secure_join n dir fs e target =
    and_then (wrap no_parent (mkdir_all n fs (parent target)))
      (λ made. place secure_join n dir e target made)

-- An entry whose target is resolved: a whiteout deletes, any other entry is placed.
unfoldable pub apply_at : SecureJoin → ℕ → FilePath → Files → Entry → FilePath → Applied
unfolding base step make_entry remove_all cut_prefix
apply_at secure_join n dir fs e target = elim (cut_prefix (base e.name) whiteout) [
  | some victim ↦ (call not_whited_out fs (remove_all n fs (step true (parent target) victim)), [])
  | none ↦ (make_entry secure_join n dir fs e target, asked e.flag target e.mode)
]

-- The body of the loop of `untar`.
unfoldable pub apply_entry : SecureJoin → ℕ → FilePath → Files → Entry → Applied
unfolding base apply_at clear_dir join_inside dir_of bytes_eq has_prefix
apply_entry secure_join n dir fs e =
    if bytes_eq e.name [] || has_prefix (base e.name) marker
    then (if bytes_eq (base e.name) opaque
        then (clear_dir secure_join n dir fs (dir_of e.name), [])
        else ((fs, none), []))
    else elim (join_inside secure_join fs dir e.name) [
      | none ↦ ((fs, some unresolved), [])
      | some target ↦ apply_at secure_join n dir fs e target
    ]

-- The loop; `broken` says that the stream ends in an error, and the modes are kept with the last first.
unfoldable pub apply_entries :
    SecureJoin → ℕ → FilePath → List Entry → Bool → Files → List (FilePath × ℕ) → Applied
unfolding apply_entry
apply_entries secure_join n dir [] broken fs modes =
    ((fs, if broken then some read_tar else none), modes)
apply_entries secure_join n dir (e ∷ es) broken fs modes =
    let applied = apply_entry secure_join n dir fs e in
    elim applied.0.1 [
      | some x ↦ ((applied.0.0, some x), modes)
      | none ↦ apply_entries secure_join n dir es broken applied.0.0 (applied.1 ++ modes)
    ]

-- The modes of the directories, at the end.
unfoldable pub set_modes : ℕ → List (FilePath × ℕ) → Files → Outcome UntarError
unfolding lstat chmod
set_modes n [] fs = (fs, none)
set_modes n ((path, mode) ∷ modes) fs =
    let rest = set_modes n modes fs in
    elim (lstat n fs path) [
      | err e ↦ rest
      | ok info ↦
          if is_directory (some info)
          then and_then (call no_mode fs (chmod n fs path mode)) (λ after. set_modes n modes after)
          else rest
    ]

unfoldable pub finish : ℕ → Applied → Outcome UntarError
unfolding set_modes
finish n ((fs, some x), modes) = (fs, some x)
finish n ((fs, none), modes) = set_modes n modes fs

unfoldable pub untar : SecureJoin → ℕ → FilePath → List Entry → Bool → Files → Outcome UntarError
unfolding finish apply_entries
untar secure_join n dir es broken fs = finish n (apply_entries secure_join n dir es broken fs [])
