-- ===== src/Pull.antt =====
-- image.go: `pullRootfs` on the cache directory of one image, and `humanBytes`. `Layer` is the type of the layers;
-- a tree is the list of the layers that were unpacked, in order. A pull lists the states that the directory goes
-- through, so that a crash leaves one of them.
pub mod Swap
pub mod Sizes
mod Tests
use curimata.Common.{
  ℕ, zero, suc, ◌*◌, ◌/◌, ◌+◌, Bool, true, false, not, ◌&&◌, List, [], ◌∷◌, ◌++◌, Option, none,
  some, ltb, if◌then◌else◌, Bytes, bytes_eq, Result, ok, err,
}
use curimata.Text.Trim.{trim_space}

-- What stands under the name "rootfs", or "rootfs.tmp". A removal that fails leaves a part of a tree.
pub data Tree (Layer : Type 0) : Type 0 where
  absent part : Tree Layer
  layers : List Layer → Tree Layer

-- The directory of `imageCacheDir`, with the file "digest".
pub record Cache (Layer : Type 0) : Type 0 where
  pub rootfs : Tree Layer
  pub temporary : Tree Layer
  pub stamp : Option Bytes

pub data PullError : Type 0 where
  no_manifest no_layers : PullError
  not_cleared not_created bad_layer not_removed not_installed not_stamped : PullError

-- The answers of the registry and of the system. `manifest` is the digest; `partial_stamp` is what a write of
-- the digest leaves that fails.
pub record World (Layer : Type 0) : Type 0 where
  pub manifest : Option Bytes
  pub layer_list : Option (List Layer)
  pub cleared : Bool
  pub created : Bool
  pub extracts : Layer → Bool
  pub removed_temporary : Bool
  pub removed_old : Bool
  pub renamed : Bool
  pub stamped : Bool
  pub partial_stamp : Option Bytes

pub record Pulled (Layer : Type 0) : Type 0 where
  pub states : List (Cache Layer)
  pub result : Result PullError (Unit {0})

-- `os.Stat` and `IsDir`
abbrev pub is_directory : {Layer : Type 0} → Tree Layer → Bool
is_directory absent = false
is_directory part = true
is_directory (layers ls) = true

abbrev pub before : {Layer : Type 0} → Cache Layer → Pulled Layer → Pulled Layer
before c p = record { states = c ∷ p.states; result = p.result }

abbrev pub stop : {Layer : Type 0} → PullError → Pulled Layer
stop e = record { states = []; result = err e }

-- What is left when a removal succeeds or fails.
abbrev pub removed : {Layer : Type 0} → Bool → Tree Layer
removed true = absent
removed false = part

-- Whether the file "digest" holds the digest.
unfoldable pub has_digest : Option Bytes → Bytes → Bool
unfolding trim_space bytes_eq
has_digest none digest = false
has_digest (some cached) digest = bytes_eq (trim_space cached) digest

module _ {Layer : Type 0} (w : World Layer) (digest : Bytes) where
  unfoldable pub write_stamp : Cache Layer → Pulled Layer
  write_stamp c =
      let torn = record c { stamp = w.partial_stamp } in
      let stamped = record c { stamp = some (digest ++ (10 ∷ [])) } in
      if w.stamped
      then record { states = torn ∷ stamped ∷ []; result = ok tt }
      else before torn (stop not_stamped)

  -- The old tree is removed, and the new one takes its place.
  unfoldable pub install : Cache Layer → Pulled Layer
  unfolding write_stamp
  install c =
      let torn = record c { rootfs = part } in
      let gone = record c { rootfs = absent } in
      let swapped = record c { rootfs = c.temporary; temporary = absent } in
      let rest = write_stamp swapped in
      if not w.removed_old
      then before torn (stop not_removed)
      else if not w.renamed
      then before torn (before gone (stop not_installed))
      else before torn (before gone (before swapped rest))

  -- The loop over the layers, with those that are unpacked; `c` is the state before the first.
  unfoldable pub extract : Cache Layer → List Layer → List Layer → Pulled Layer
  unfolding install
  extract c done [] = install (record c { temporary = layers done })
  extract c done (l ∷ ls) =
      let next = done ++ (l ∷ []) in
      let rest = extract c next ls in
      let torn = record c { temporary = part } in
      if w.extracts l
      then before torn (before (record c { temporary = layers next }) rest)
      else before torn
          (before (record c { temporary = removed w.removed_temporary }) (stop bad_layer))

  -- The download beside the tree that is there.
  unfoldable pub download : Cache Layer → List Layer → Pulled Layer
  unfolding extract
  download c ls =
      let cleared = record c { temporary = removed w.cleared } in
      let rest = extract c [] ls in
      if not w.cleared
      then before cleared (stop not_cleared)
      else if not w.created
      then before cleared (stop not_created)
      else before cleared (before (record c { temporary = layers [] }) rest)

  -- The branch for a registry that answers.
  unfoldable pub update : Cache Layer → Bool → Pulled Layer
  unfolding has_digest download
  update c force =
      if not force && (has_digest c.stamp digest && is_directory c.rootfs)
      then record { states = []; result = ok tt }
      else elim w.layer_list [ none ↦ stop no_layers | some ls ↦ download c ls ]

-- A cache without a digest is no help without the registry.
abbrev pub offline : {Layer : Type 0} → Option Bytes → Pulled Layer
offline none = stop no_manifest
offline (some cached) = record { states = []; result = ok tt }

-- `pullRootfs`, once the reference is parsed and the directory made.
unfoldable pub pull_rootfs : {Layer : Type 0} → World Layer → Cache Layer → Bool → Pulled Layer
unfolding update
pull_rootfs w c force = elim w.manifest [
  | none ↦ offline c.stamp
  | some digest ↦ update w digest c force
]

-- The loop of `humanBytes`, on fuel: how often the size is divided by 1024.
unfoldable pub exponent : ℕ → ℕ → ℕ → ℕ
exponent zero m count = count
exponent (suc fuel) m count =
    let rest = exponent fuel (m / 1024) (suc count) in if ltb m 1024 then count else rest

-- The byte of "KMGT" at an index; none stands for the panic of an index out of range.
abbrev pub unit_at : ℕ → Option ℕ
unit_at zero = some b'K'
unit_at (suc zero) = some b'M'
unit_at (suc (suc zero)) = some b'G'
unit_at (suc (suc (suc zero))) = some b'T'
unit_at (suc (suc (suc (suc n)))) = none

-- The unit that `humanBytes` prints for a size that is not negative.
unfoldable pub human_unit : ℕ → Option ℕ
unfolding exponent
human_unit n = if ltb n 1024 then some b'B' else unit_at (exponent 7 (n / 1024) 0)
