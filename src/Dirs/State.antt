-- ===== src/Dirs/State.antt =====
-- dirs.go: `xdgDir`, `dataPath`, `overlaps` and `stateDir`. The environment, the home directory and the success of
-- `os.MkdirAll` are inputs; a home directory is a path from the root. A clean path is the list of its components, the innermost first.
use curimata.Common.{
  Bool, ◌||◌, List, [], ◌∷◌, ◌++◌, Option, none, some, if◌then◌else◌, Bytes, bytes_eq, codes,
  Result, ok, err,
}
use curimata.Text.Search.{has_prefix}
use curimata.Files.{FilePath}
use curimata.Files.Paths.{is_rooted, clean_rooted, reverse_onto}

-- The text of a clean path from the root: "/" and the components with slashes between them.
unfoldable pub path_text : FilePath → Bytes
path_text [] = []
path_text (c ∷ p) = path_text p ++ (b'/' ∷ c)

unfoldable pub absolute_text : FilePath → Bytes
unfolding path_text
absolute_text [] = b'/' ∷ []
absolute_text (c ∷ p) = path_text (c ∷ p)

-- `overlaps` of two paths from the root, which are clean.
unfoldable pub overlaps : FilePath → FilePath → Bool
unfolding absolute_text has_prefix bytes_eq
overlaps p q =
    let first = absolute_text p in
    let second = absolute_text q in
    bytes_eq first second
    || (has_prefix first (second ++ (b'/' ∷ [])) || has_prefix second (first ++ (b'/' ∷ [])))

-- `xdgDir`: a relative path is passed over.
unfoldable pub xdg_dir : Bytes → Bytes
xdg_dir value = if bytes_eq value [] || is_rooted value then value else []

pub data DirError : Type 0 where
  no_home no_runtime overlap not_created : DirError

-- `filepath.Join` of a directory and names.
abbrev pub joined : Bytes → List Bytes → FilePath
joined dir names = reverse_onto names (clean_rooted dir)

-- The variables, the home directory, the directory of `fallbackRuntimeDir` and whether the new directory is made.
pub record Environment : Type 0 where
  pub data_home : Bytes
  pub runtime_dir : Bytes
  pub home : Option Bytes
  pub fallback : Option Bytes
  pub made : Bool

unfoldable pub data_path : Environment → Option FilePath
unfolding xdg_dir reverse_onto clean_rooted bytes_eq
data_path e =
    let base = xdg_dir e.data_home in
    if bytes_eq base []
    then elim e.home [
      | none ↦ none
      | some home ↦ some (joined home (codes ".local" ∷ codes "share" ∷ codes "curimata" ∷ []))
    ]
    else some (joined base (codes "curimata" ∷ []))

-- The base of the state directory.
unfoldable pub runtime_base : Environment → Option Bytes
unfolding xdg_dir reverse_onto clean_rooted bytes_eq
runtime_base e =
    let base = xdg_dir e.runtime_dir in if bytes_eq base [] then e.fallback else some base

-- `stateDir` behind the choice of its base.
unfoldable pub state_below : Environment → FilePath → Result DirError FilePath
unfolding data_path overlaps
state_below e dir = elim (data_path e) [
  | none ↦ err no_home
  | some kept ↦
      if overlaps dir kept then err overlap else if e.made then ok dir else err not_created
]

unfoldable pub state_dir : Environment → Result DirError FilePath
unfolding runtime_base state_below reverse_onto clean_rooted
state_dir e = elim (runtime_base e) [
  | none ↦ err no_runtime
  | some base ↦ state_below e (joined base (codes "curimata" ∷ []))
]
