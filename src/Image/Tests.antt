-- ===== src/Image/Tests.antt =====
-- image.go at concrete references and challenges.
use curimata.Common.{◌≡◌, ◌↔◌, refl, [], ◌∷◌, codes, bytes_eq, ok, err}
use curimata.Text.Search.{contains, index, last_index}
use curimata.Text.Split.{join}
use curimata.Image.{
  ImageRef, invalid_reference, digest_reference, empty_reference, ref_text, parse_ref,
  split_challenge, default_registry,
}
use curimata.Image.Reference.{parse_ref-printed}
use curimata.Image.Challenge.{AreParts, split_challenge_iff}

abbrev debian : ImageRef
debian = record { registry = default_registry; repo = codes "library/debian"; tag = codes "13" }

abbrev ghcr : ImageRef
ghcr = record { registry = codes "ghcr.io"; repo = codes "user/image"; tag = codes "latest" }

debian_parsed : parse_ref (codes "debian:13") ≡ ok debian
unfolding parse_ref contains index last_index bytes_eq
debian_parsed = refl

references :
    (parse_ref (codes "ghcr.io/user/image") ≡ ok ghcr)
    × (parse_ref [] ≡ err empty_reference)
    × (parse_ref (codes "a@b") ≡ err (digest_reference (codes "a@b")))
    × (parse_ref (codes "localhost/") ≡ err (invalid_reference (codes "localhost/")))
unfolding parse_ref contains index last_index bytes_eq
references = (refl, refl, refl, refl)

parse_ref-printed_example : parse_ref (ref_text debian) ≡ ok debian
parse_ref-printed_example = parse_ref-printed (codes "debian:13") debian_parsed

challenge : split_challenge (codes "a=\"b,c\",d=e") ≡ codes "a=\"b,c\"" ∷ codes "d=e" ∷ []
unfolding split_challenge
challenge = refl

split_challenge_iff_example :
    (split_challenge (codes "a=\"b,c\",d=e") ≡ codes "a=\"b,c\"" ∷ codes "d=e" ∷ []) ↔ (
      (join (codes "a=\"b,c\"" ∷ codes "d=e" ∷ []) (codes ",") ≡ codes "a=\"b,c\",d=e")
      × AreParts 0 (codes "a=\"b,c\"" ∷ codes "d=e" ∷ []))
split_challenge_iff_example =
    split_challenge_iff (codes "a=\"b,c\",d=e") (codes "a=\"b,c\"") (codes "d=e" ∷ [])
