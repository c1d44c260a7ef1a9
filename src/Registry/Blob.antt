-- ===== src/Registry/Blob.antt =====
-- image.go: `extractLayer`. What package gzip and package tar make of the bytes that they read of a layer is an
-- input, and so is the number of these bytes.
use curimata.Common.{
  ℕ, Bool, ◌||◌, List, [], ◌++◌, Option, none, some, if◌then◌else◌, Bytes, bytes_eq, codes, take,
  ok, err,
}
use curimata.Text.Trim.{to_lower}
use curimata.Text.Search.{contains_text}
use curimata.Files.{FilePath, Files}
use curimata.Files.Calls.{Outcome}
use curimata.Image.{ImageRef}
use curimata.Untar.{SecureJoin, Entry, UntarError, untar}
use curimata.Registry.{Reply, Descriptor, RegistryError, World, Client, Got, get, digest_text}

-- The entries and whether reading fails behind them.
pub record Stream : Type 0 where
  pub entries : List Entry
  pub broken : Bool

pub data LayerError : Type 0 where
  zstd foreign bad_gzip not_drained : LayerError
  not_got : RegistryError → LayerError
  not_unpacked : UntarError → LayerError
  mismatch : Bytes → LayerError

-- `strings.EqualFold` of ASCII texts.
unfoldable pub equal_fold : Bytes → Bytes → Bool
unfolding to_lower bytes_eq
equal_fold s t = bytes_eq (to_lower s) (to_lower t)

unfoldable pub is_gzip : Bytes → Bool
unfolding contains_text bytes_eq
is_gzip media_type = contains_text media_type (codes "gzip") || bytes_eq media_type []

-- Behind `untar`: the rest of the body is read past the hasher, which holds the bytes that were read before.
unfoldable pub verified : World → Bytes → Bytes → Bool → Outcome UntarError → Outcome LayerError
unfolding equal_fold
verified w digest hashed cut (fs, some e) = (fs, some (not_unpacked e))
verified w digest hashed cut (fs, none) =
    let got = digest_text w hashed in
    if cut
    then (fs, some not_drained)
    else if equal_fold got digest
    then (fs, none)
    else (fs, some (mismatch got))

-- `reads` tells how many bytes of a body are read, through gzip or not, and `decode` what is in them, with whether
-- reading more is an error; none is an error of `gzip.NewReader`.
module _ (secure_join : SecureJoin) (n : ℕ) (w : World) (reads : Bool → Reply → ℕ)
    (decode : Bool → Bytes → Bool → Option Stream) where
  -- The bytes of the body that are read, which pass through the hasher.
  abbrev pub bytes_read : Descriptor → Reply → Bytes
  bytes_read layer r = take (reads (is_gzip layer.media_type) r) r.body

  unfoldable pub unpack_reply : Descriptor → FilePath → Files → Got → Outcome LayerError × Client
  unfolding is_gzip verified untar
  unpack_reply layer dir fs (err e, c) = ((fs, some (not_got e)), c)
  unpack_reply layer dir fs (ok r, c) =
      let hashed = bytes_read layer r in
      elim (decode (is_gzip layer.media_type) hashed r.cut) [
        | none ↦ ((fs, some bad_gzip), c)
        | some s ↦ (
          verified w layer.digest hashed r.cut (untar secure_join n dir s.entries s.broken fs),
          c,
        )
      ]

  -- `extractLayer`
  unfoldable pub extract_layer :
      ImageRef → Descriptor → FilePath → Files → Client → Outcome LayerError × Client
  unfolding unpack_reply contains_text get
  extract_layer img layer dir fs c =
      let unpacked = unpack_reply layer dir fs (get w img (codes "/blobs/" ++ layer.digest) [] c) in
      if contains_text layer.media_type (codes "zstd")
      then ((fs, some zstd), c)
      else if contains_text layer.media_type (codes "foreign")
      then ((fs, some foreign), c)
      else unpacked
