-- ===== src/Registry/Builds.antt =====
-- image.go: which layers `layers` gives.
use curimata.Common.{◌≡◌, ◌≢◌, ◌⊎◌, List, [], ◌∷◌, ◌++◌, some, Bytes, ok, err, All}
use curimata.Image.{ImageRef}
use curimata.Registry.{
  Descriptor, ManifestDoc, World, Client, Manifest, manifest, linux_of, Layers, layers,
}

-- The manifest is for Linux on another architecture, or not for Linux.
abbrev pub IsOther : Bytes → Descriptor → Type 0
IsOther arch m = linux_of m ≢ some arch

abbrev pub IsFirst : Bytes → List Descriptor → Bytes → Type 0
IsFirst arch ms digest =
    (before : List Descriptor) × (m : Descriptor) × (after : List Descriptor) × (ms
      ≡ before ++ (m ∷ after))
    × (All (IsOther arch) before)
    × (linux_of m ≡ some arch)
    × (m.digest ≡ digest)

-- Layers are given, and they are those of the document.
abbrev AreSome : Client → Layers → List Descriptor → Type 0
AreSome c (err e, d) ls = Unit
AreSome c (ok ls, d) ms = (ls ≢ []) × (ms ≡ ls) × (d ≡ c)

-- The layers of a manifest that was fetched.
abbrev IsFetched : World → Manifest → Layers → Type 0
IsFetched w g (err e, d) = Unit
IsFetched w g (ok ls, d) =
    (ls ≢ [])
    × (body : Bytes) × (digest : Bytes) × (inner : ManifestDoc) × (g ≡ (ok (body, digest), d))
    × (w.decode_manifest body ≡ some inner)
    × (inner.layers ≡ ls)

module _ (w : World) (img : ImageRef) (c : Client) where
  -- An image without an index, or the manifest of a build in one.
  abbrev pub AreOf : ManifestDoc → List Descriptor → Client → Type 0
  AreOf doc ls d =
      ((doc.manifests ≡ []) × (doc.layers ≡ ls))
      ⊎ ((chosen : Bytes) × IsFirst w.arch doc.manifests chosen
          × (body : Bytes) × (digest : Bytes) × (inner : ManifestDoc) × (manifest w img chosen c
              ≡ (ok (body, digest), d))
          × (w.decode_manifest body ≡ some inner)
          × (inner.layers ≡ ls))

  abbrev pub IsBuild : Bytes → Layers → Type 0
  IsBuild body (err e, d) = Unit
  IsBuild body (ok ls, d) =
      (ls ≢ []) × (doc : ManifestDoc) × (w.decode_manifest body ≡ some doc) × AreOf doc ls d
