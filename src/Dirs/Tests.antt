-- ===== src/Dirs/Tests.antt =====
-- dirs.go on small file systems.
use curimata.Common.{
  ◌≡◌, ◌⊎◌, ◌↔◌, refl, arith, [], ◌∷◌, true, false, none, some, if◌then◌else◌, bytes_eq, codes, ok,
  err,
}
use curimata.Text.Search.{has_prefix}
use curimata.Text.Number.{itoa}
use curimata.Dirs.{
  Info, open_to_others, not_owned, check_private_dir, exists_already, World, fallback_runtime_dir,
}
use curimata.Files.{FilePath, below}
use curimata.Dirs.State.{Environment, overlap, overlaps, data_path, state_dir}
use curimata.Dirs.Overlap.{IsSplit, overlaps_iff}

abbrev private_info : Info
private_info = record { is_dir = true; owner = some 1000; permissions = 0o700 }

-- There is no directory for the user, and one of another user in its place below /tmp.
abbrev taken : World
taken = record {
  before = λ path. none;
  mkdir = exists_already;
  after = λ path. some (record private_info { owner = some 1001 });
}

abbrev usual : World
usual = record {
  before = λ path. if bytes_eq path (codes "/run/user/1000") then some private_info else none;
  mkdir = exists_already;
  after = λ path. none;
}

checks :
    (check_private_dir (some (record private_info { permissions = 0o750 })) 1000
      ≡ err open_to_others)
    × (check_private_dir (some private_info) 0 ≡ err not_owned)
    × (check_private_dir (some private_info) 1000 ≡ ok tt)
unfolding check_private_dir
checks = (refl, refl, refl)

refused : fallback_runtime_dir taken (codes "/run/user") (codes "/tmp") 1000 ≡ err not_owned
unfolding fallback_runtime_dir
refused = refl

usual_directory :
    fallback_runtime_dir usual (codes "/run/user") (codes "/tmp") 1000
    ≡ ok (codes "/run/user/1000", false)
unfolding fallback_runtime_dir itoa bytes_eq
usual_directory = refl

-- /run/user/1000/curimata and ~/.local/share/curimata.
abbrev home_environment : Environment
home_environment = record {
  data_home = codes "share";
  runtime_dir = [];
  home = some (codes "/home/me/");
  fallback = some (codes "/run/user/1000");
  made = true;
}

state_directories :
    (state_dir home_environment
      ≡ ok (codes "curimata" ∷ codes "1000" ∷ codes "user" ∷ codes "run" ∷ []))
    × (data_path home_environment
        ≡ some (codes "curimata" ∷ codes "share" ∷ codes ".local" ∷ codes "me" ∷ codes "home" ∷ []))
unfolding state_dir data_path bytes_eq
state_directories = (refl, refl)

-- The data directory below the state directory, by way of "..".
overlapping :
    state_dir (record home_environment { data_home = codes "/x/../run/user/1000/curimata/data" })
    ≡ err overlap
unfolding state_dir bytes_eq has_prefix
overlapping = refl

-- The root is not found to overlap what is in it.
root_apart : overlaps [] (codes "x" ∷ []) ≡ false
unfolding overlaps bytes_eq has_prefix
root_apart = refl

abbrev outer : FilePath
outer = codes "b" ∷ codes "a" ∷ []

abbrev inner : FilePath
inner = codes "c" ∷ outer

outer-IsSplit : IsSplit outer
outer-IsSplit = (((λ h. ground arith), tt), (((λ h. ground arith), tt), tt))

inner-IsSplit : IsSplit inner
inner-IsSplit = (((λ h. ground arith), tt), outer-IsSplit)

overlaps_iff_example :
    (overlaps outer inner ≡ true) ↔ ((below outer inner ≡ true) ⊎ (below inner outer ≡ true))
overlaps_iff_example = overlaps_iff outer inner (λ h. cc) (λ h. cc) outer-IsSplit inner-IsSplit
