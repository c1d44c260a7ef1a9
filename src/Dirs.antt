-- ===== src/Dirs.antt =====
-- dirs.go: `checkPrivateDir` and `fallbackRuntimeDir`.
pub mod Private
pub mod State
pub mod Overlap
mod Tests
use curimata.Common.{
  ℕ, ◌%◌, Bool, true, false, not, ◌||◌, ◌∷◌, ◌++◌, Option, none, some, ◌==◌, if◌then◌else◌, Bytes,
  codes, Result, ok, err,
}
use curimata.Text.Number.{itoa}

-- What `os.Lstat` gives of a path; the owner is none when the system does not tell.
pub record Info : Type 0 where
  pub is_dir : Bool
  pub owner : Option ℕ
  pub permissions : ℕ

pub data DirError : Type 0 where
  not_found not_directory not_owned open_to_others : DirError
  not_created : DirError

abbrev pub is_owner : Option ℕ → ℕ → Bool
is_owner none uid = false
is_owner (some o) uid = o == uid

-- `permissions & 0o077` are the low six bits.
unfoldable pub check_private_dir : Option Info → ℕ → Result DirError (Unit {0})
check_private_dir none uid = err not_found
check_private_dir (some info) uid =
    if not info.is_dir
    then err not_directory
    else if not (is_owner info.owner uid)
    then err not_owned
    else if not (info.permissions % 64 == 0)
    then err open_to_others
    else ok tt

-- How `os.Mkdir` ends.
pub data Mkdir : Type 0 where
  created exists_already failed : Mkdir

-- The file system before and after the call of `os.Mkdir`, which ends in `mkdir`.
pub record World : Type 0 where
  pub before : Bytes → Option Info
  pub mkdir : Mkdir
  pub after : Bytes → Option Info

-- `filepath.Join` of a clean directory and a name.
abbrev pub join_path : Bytes → Bytes → Bytes
join_path root name = root ++ (b'/' ∷ name)

unfoldable pub checked_temp : Option Info → Bytes → ℕ → Result DirError (Bytes × Bool)
unfolding check_private_dir
checked_temp found path uid = elim (check_private_dir found uid) [
  | err e ↦ err e
  | ok _ ↦ ok (path, true)
]

abbrev pub unless_failed : Mkdir → Result DirError (Bytes × Bool) → Result DirError (Bytes × Bool)
unless_failed failed checked = err not_created
unless_failed created checked = checked
unless_failed exists_already checked = checked

unfoldable pub temp_runtime_dir : World → Bytes → ℕ → Result DirError (Bytes × Bool)
unfolding checked_temp
temp_runtime_dir w path uid = unless_failed w.mkdir (checked_temp (w.after path) path uid)

-- The directory, and whether it is below `temp_root`.
unfoldable pub fallback_runtime_dir : World → Bytes → Bytes → ℕ → Result DirError (Bytes × Bool)
unfolding check_private_dir temp_runtime_dir
fallback_runtime_dir w user_root temp_root uid =
    let user_directory = join_path user_root (itoa uid) in
    let temp = temp_runtime_dir w (join_path temp_root (codes "curimata-" ++ itoa uid)) uid in
    elim (check_private_dir (w.before user_directory) uid) [
      | ok _ ↦ ok (user_directory, false)
      | err _ ↦ temp
    ]
