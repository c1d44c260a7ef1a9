-- ===== src/Box.antt =====
-- box.go: `prepareBox` and `installBox` on the directory of one box. `Tree` is the type of the directory
-- trees on disk. An operation lists the states that the directory goes through, in order, so that a crash
-- leaves one of them.
pub mod Install
pub mod Chosen
pub mod Remove
mod Tests
use curimata.Common.{
  ℕ, Bool, true, false, not, ◌&&◌, ◌||◌, List, [], ◌∷◌, ◌++◌, Option, none, some, if◌then◌else◌,
  Bytes, bytes_eq, Result, ok, err,
}
use curimata.Text.Trim.{trim_space}

-- What stands under the name "rootfs".
pub data Rootfs (Tree : Type 0) : Type 0 where
  absent other : Rootfs Tree
  directory : Tree → Rootfs Tree

-- The directory of a box: its rootfs, the file "image", and the trees that are being copied.
pub record BoxDir (Tree : Type 0) : Type 0 where
  pub rootfs : Rootfs Tree
  pub image : Option Bytes
  pub temporary : List Tree

pub data BoxError : Type 0 where
  no_record other_image : BoxError
  pull_failed : BoxError
  create_failed exists_already copy_failed copy_forbidden record_failed install_failed : BoxError

-- How `copyTree` ends, with the tree that it leaves.
pub data Copied (Tree : Type 0) : Type 0 where
  whole : Copied Tree
  partial : Bool → Tree → Copied Tree

-- The answers of the system: whether each call succeeds, and what a failed one leaves. `pulled` is the
-- result of `pullRootfs`.
pub record World (Tree : Type 0) : Type 0 where
  pub pulled : Option Tree
  pub empty : Tree
  pub made_directory : Bool
  pub made_temporary : Bool
  pub copied : Copied Tree
  pub recorded : Bool
  pub partial_record : Option Bytes
  pub renamed : Bool
  pub cleaned : Bool

-- The states in their order, and the result.
pub record Run (Tree : Type 0) : Type 0 where
  pub states : List (BoxDir Tree)
  pub result : Result BoxError (Unit {0})

-- Whether `os.Lstat` finds nothing.
abbrev pub is_absent : {Tree : Type 0} → Rootfs Tree → Bool
is_absent absent = true
is_absent other = false
is_absent (directory t) = false

-- The choice of `prepareBox` between a box that exists and a new one.
abbrev pub by_rootfs : {Tree : Type 0} → Rootfs Tree → Run Tree → Run Tree → Run Tree
by_rootfs (directory t) kept new = kept
by_rootfs absent kept new = new
by_rootfs other kept new = new

-- The record of the image, without the white space around it.
abbrev pub recorded_image : Option Bytes → Bytes
recorded_image none = []
recorded_image (some s) = trim_space s

module _ {Tree : Type 0} (w : World Tree) (image : Bytes) where
  -- `removeTree` of the copy, whose error is passed over.
  unfoldable pub cleanup : BoxDir Tree → List Tree → List (BoxDir Tree)
  cleanup d trees = if w.cleaned then (record d { temporary = trees }) ∷ [] else []

  -- `os.Rename` puts the copy in place.
  unfoldable pub rename : BoxDir Tree → List Tree → Tree → Run Tree
  unfolding cleanup
  rename d trees tree =
      if w.renamed
      then record {
        states = record { rootfs = directory tree; image = d.image; temporary = trees } ∷ [];
        result = ok tt;
      }
      else record { states = cleanup d trees; result = err install_failed }

  -- The record of the image; a failed write leaves some file.
  unfoldable pub record_image : BoxDir Tree → List Tree → Tree → Run Tree
  unfolding rename cleanup
  record_image d trees tree =
      let recorded = record d { image = some (image ++ (10 ∷ [])) } in
      let torn = record d { image = w.partial_record } in
      let rest = rename recorded trees tree in
      if w.recorded
      then record { states = torn ∷ recorded ∷ rest.states; result = rest.result }
      else record { states = torn ∷ cleanup torn trees; result = err record_failed }

  -- `copyTree` into the temporary directory.
  unfoldable pub copy_tree : BoxDir Tree → Tree → Run Tree
  unfolding record_image cleanup
  copy_tree d tree = elim w.copied [
    | partial forbidden t ↦
        let torn = record d { temporary = t ∷ d.temporary } in
        record {
          states = torn ∷ cleanup torn d.temporary;
          result = if forbidden then err copy_forbidden else err copy_failed;
        }
    | whole ↦
        let copy = record d { temporary = tree ∷ d.temporary } in
        let rest = record_image copy d.temporary tree in
        record { states = copy ∷ rest.states; result = rest.result }
  ]

  unfoldable pub install_box : BoxDir Tree → Tree → Run Tree
  unfolding copy_tree
  install_box d tree =
      let made = record d { temporary = w.empty ∷ d.temporary } in
      let rest = copy_tree d tree in
      if not w.made_directory
      then record { states = []; result = err create_failed }
      else if not (is_absent d.rootfs)
      then record { states = []; result = err exists_already }
      else if not w.made_temporary
      then record { states = []; result = err create_failed }
      else record { states = made ∷ rest.states; result = rest.result }

  -- The branch of `prepareBox` for a box that exists.
  unfoldable pub keep_box : BoxDir Tree → Bool → Bool → Result BoxError (Unit {0})
  unfolding trim_space bytes_eq
  keep_box d chosen repull =
      let box_image = recorded_image d.image in
      if chosen && bytes_eq box_image []
      then err no_record
      else if chosen && not (bytes_eq box_image image)
      then err other_image
      else if repull
      then elim w.pulled [ none ↦ err pull_failed | some t ↦ ok tt ]
      else ok tt

  -- A new box, from the image.
  unfoldable pub pull_box : BoxDir Tree → Run Tree
  unfolding install_box
  pull_box d = elim w.pulled [
    | none ↦ record { states = []; result = err pull_failed }
    | some tree ↦ install_box d tree
  ]

  -- `chosen` tells whether the user asked for the image.
  unfoldable pub prepare_box : BoxDir Tree → Bool → Bool → Run Tree
  unfolding keep_box pull_box
  prepare_box d chosen repull =
      by_rootfs d.rootfs (record { states = []; result = keep_box d chosen repull }) (pull_box d)
