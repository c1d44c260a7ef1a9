-- ===== src/Registry/Verified.antt =====
-- image.go: what a layer that `extractLayer` accepts is.
use curimata.Common.{
  ℕ, ◌≡◌, refl, sym, ap, ◌∙◌, inl, inr, Bool, true, false, [], ◌++◌, Option, none, some, Bytes,
  codes, take, Bool-cases, Option-cases, ok, err,
}
use curimata.Text.Search.{contains_text}
use curimata.Files.{FilePath, Files}
use curimata.Files.Calls.{Outcome}
use curimata.Image.{ImageRef}
use curimata.Untar.{SecureJoin, UntarError, untar}
use curimata.Registry.{Reply, Descriptor, World, Client, Got, get, digest_text}
use curimata.Registry.Requests.{IsAnswered, get-IsExchange}
use curimata.Registry.Blob.{
  Stream, equal_fold, is_gzip, verified, bytes_read, unpack_reply, extract_layer,
}

-- The hashed bytes have the digest, and the body ended without an error.
verified_inv :
    (w : World) (digest hashed : Bytes) (cut : Bool) (u : Outcome UntarError)
    → (verified w digest hashed cut u).1 ≡ none
    → (u ≡ ((verified w digest hashed cut u).0, none))
      × (cut ≡ false)
      × (equal_fold (digest_text w hashed) digest ≡ true)
unfolding verified
verified_inv w digest hashed cut (fs, some e) h = absurd (let bad = h in cc)
verified_inv w digest hashed true (fs, none) h = absurd (let bad = h in cc)
verified_inv w digest hashed false (fs, none) h =
    elim (Bool-cases (equal_fold (digest_text w hashed) digest)) [
      | inr e ↦ absurd (let bad = rw (e, verified) at h in cc)
      | inl e ↦ rw (e, verified) (refl, refl, refl)
    ]

module _ (secure_join : SecureJoin) (n : ℕ) (w : World) (reads : Bool → Reply → ℕ)
    (decode : Bool → Bytes → Bool → Option Stream) where
  -- The files that stand after the layer: the same bytes are decoded and hashed.
  abbrev pub IsVerified : Descriptor → FilePath → Files → Files → Client → Type 0
  IsVerified layer dir fs after d =
      (r : Reply) × (hashed : Bytes) × (s : Stream) × (r.status ≡ 200)
      × (w.answer d.sent ≡ some r)
      × (r.cut ≡ false)
      × (hashed ≡ take (reads (is_gzip layer.media_type) r) r.body)
      × (equal_fold (digest_text w hashed) layer.digest ≡ true)
      × (decode (is_gzip layer.media_type) hashed false ≡ some s)
      × (untar secure_join n dir s.entries s.broken fs ≡ (after, none))

  unpack_reply-IsVerified :
      (img : ImageRef) (path : Bytes) (layer : Descriptor) (dir : FilePath) (fs : Files)
      (c : Client) (g : Got)
      → IsAnswered w img path [] c g.0 g.1
      → (unpack_reply secure_join n w reads decode layer dir fs g).0.1 ≡ none
      → IsVerified layer dir fs
          (unpack_reply secure_join n w reads decode layer dir fs g).0.0
          (unpack_reply secure_join n w reads decode layer dir fs g).1
  unfolding unpack_reply
  unpack_reply-IsVerified img path layer dir fs c (err e, d) a h = absurd (let bad = h in cc)
  unpack_reply-IsVerified img path layer dir fs c (ok r, d) (status, answer) h =
      let hashed = bytes_read secure_join n w reads decode layer r in
      elim (Option-cases (decode (is_gzip layer.media_type) hashed r.cut)) [
        | inl u ↦ absurd (let bad = rw (u, unpack_reply) at h in cc)
        | inr (s, u) ↦
            let (unpacked, cut, digest) =
              verified_inv w layer.digest hashed r.cut
                (untar secure_join n dir s.entries s.broken fs) (rw (u, unpack_reply) at h) in
            let read =
              sym (ap (λ (b : Bool). decode (is_gzip layer.media_type) hashed b) cut) ∙ u in
            rw (u, unpack_reply) (r, hashed, s, status, answer, cut, refl, digest, read, unpacked)
      ]

  -- A layer that is unpacked without an error: its media type is neither zstd nor foreign, the last request was answered
  -- with the status 200 and a body that came whole, the SHA-256 of the bytes that were read of that body is the
  -- digest of the layer, and the files are those that `untar` makes of what these same bytes decode to.
  pub extract_layer-IsVerified :
      (img : ImageRef) (layer : Descriptor) (dir : FilePath) (fs : Files) (c : Client)
      → (extract_layer secure_join n w reads decode img layer dir fs c).0.1 ≡ none
      → (contains_text layer.media_type (codes "zstd") ≡ false)
        × (contains_text layer.media_type (codes "foreign") ≡ false)
        × IsVerified layer dir fs
            (extract_layer secure_join n w reads decode img layer dir fs c).0.0
            (extract_layer secure_join n w reads decode img layer dir fs c).1
  unfolding extract_layer
  extract_layer-IsVerified img layer dir fs c h =
      elim (Bool-cases (contains_text layer.media_type (codes "zstd"))) [
        | inl z ↦ absurd (let bad = rw (z, extract_layer) at h in cc)
        | inr z ↦ elim (Bool-cases (contains_text layer.media_type (codes "foreign"))) [
          | inl f ↦ absurd (let bad = rw (z, f, extract_layer) at h in cc)
          | inr f ↦
              let path = codes "/blobs/" ++ layer.digest in
              rw (z, f, extract_layer)
                (
                  refl,
                  refl,
                  unpack_reply-IsVerified img path layer dir fs c (get w img path [] c)
                      ((get-IsExchange w img path [] c).1) (rw (z, f, extract_layer) at h),
                )
        ]
      ]
