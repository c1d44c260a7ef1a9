-- ===== src/Registry/Tests.antt =====
-- image.go: the registry client at a registry that asks for a token.
use curimata.Common.{
  ℕ, ◌≡◌, refl, Bool, true, false, List, [], ◌∷◌, ◌++◌, Option, none, some, Bytes, bytes_eq, codes,
  if◌then◌else◌, ok, err,
}
use curimata.Text.Search.{contains_text}
use curimata.Files.{masked, exact, Files, directory, file}
use curimata.Image.{ImageRef}
use curimata.Untar.{SecureJoin, type_reg}
use curimata.Registry.{
  Request, Reply, Descriptor, ManifestDoc, World, Client, value_of, get, layers, no_build,
}
use curimata.Registry.Blob.{Stream, mismatch, equal_fold, extract_layer}
use curimata.Registry.Requests.{IsExchange, get-IsExchange}
use curimata.Registry.Verified.{IsVerified, extract_layer-IsVerified}

abbrev img : ImageRef
img = record { registry = codes "r.io"; repo = codes "a"; tag = codes "1" }

abbrev reply : Bytes → Reply
reply body = record { status = 200; challenge = []; digest = []; body = body; cut = false }

abbrev refusal : Reply
refusal = record (reply []) {
  status = 401;
  challenge = codes "Bearer realm=\"https://t\", service=s";
}

-- A request of the registry without a token is refused, and one with a token is answered with the body "abc".
abbrev answer_token : Bytes → Reply
answer_token [] = refusal
answer_token (b ∷ token) = reply (codes "abc")

abbrev answer : List Request → Option Reply
answer [] = none
answer (q ∷ sent) =
    some (if bytes_eq q.url (codes "https://t") then reply (codes "key") else answer_token q.token)

abbrev build : Bytes → Bytes → Descriptor
build architecture digest = record {
  media_type = [];
  digest = digest;
  platform = some (record { architecture = architecture; os = codes "linux" });
}

abbrev layer : Bytes → Descriptor
layer digest = record { media_type = codes "tar"; digest = digest; platform = none }

-- "i" is an index of two builds, and anything else an image of one layer.
abbrev decoded : Bytes → Option ManifestDoc
decoded body =
    if bytes_eq body (codes "i")
    then some (record {
      manifests = build (codes "arm64") (codes "d1") ∷ build (codes "amd64") (codes "d2") ∷ [];
      layers = [];
    })
    else some (record { manifests = []; layers = layer (codes "sha256:AB") ∷ [] })

abbrev world : World
world = record {
  is_url = λ url. true;
  answer = answer;
  decode_token = λ r. some ([], r.body);
  decode_manifest = decoded;
  hash = λ body. body;
  arch = codes "amd64";
}

abbrev client : Client
client = record { tokens = []; sent = [] }

abbrev blob : Bytes
blob = codes "https://r.io/v2/a/blobs/x"

abbrev request : Bytes → Bytes → List (Bytes × Bytes) → Request
request url token query = record { url = url; accept = []; token = token; query = query }

-- The client after the exchange: the access token is kept and used for the second request.
abbrev authorized : Client
authorized = record {
  tokens = (codes "a", codes "key") ∷ [];
  sent =
      request blob (codes "key") []
      ∷ request (codes "https://t") []
          ((codes "service", codes "s") ∷ (codes "scope", codes "repository:a:pull") ∷ [])
      ∷ request blob [] []
      ∷ [];
}

challenge_met : get world img (codes "/blobs/x") [] client ≡ (ok (reply (codes "abc")), authorized)
unfolding get value_of bytes_eq
challenge_met = refl

get-IsExchange_example :
    IsExchange world img (codes "/blobs/x") [] client (get world img (codes "/blobs/x") [] client)
get-IsExchange_example = get-IsExchange world img (codes "/blobs/x") [] client

second_build : (layers world img (codes "i") client).0 ≡ ok (layer (codes "sha256:AB") ∷ [])
unfolding layers bytes_eq value_of
second_build = refl

other_machine :
    (layers (record world { arch = codes "s390x" }) img (codes "i") client).0
    ≡ err (no_build (codes "arm64" ∷ codes "amd64" ∷ []))
unfolding layers bytes_eq
other_machine = refl

-- The archive ends behind the second byte of the body; its entry holds the bytes that were read.
abbrev reads : Bool → Reply → ℕ
reads gzip r = 2

abbrev decode : Bool → Bytes → Bool → Option Stream
decode gzip bytes cut = some (record {
  entries =
      record {
        name = codes "f";
        flag = type_reg;
        mode = 420;
        link_name = [];
        body = bytes;
        body_cut = cut;
      }
      ∷ [];
  broken = false;
})

abbrev plain_join : SecureJoin
plain_join fs root p = some (p ++ root)

abbrev disk : Files
disk = (codes "l" ∷ [], directory (exact 493)) ∷ []

layer_unpacked :
    (extract_layer plain_join 8 world reads decode img
      (layer (codes "sha256:AB"))
      (codes "l" ∷ [])
      disk
      client).0
    ≡ ((codes "f" ∷ codes "l" ∷ [], file (masked 420) (codes "ab")) ∷ disk, none)
unfolding extract_layer value_of equal_fold
layer_unpacked = refl

-- The digest of the whole body is refused: the byte behind the archive did not pass through the hash.
rest_not_hashed :
    (extract_layer plain_join 8 world reads decode img
      (layer (codes "sha256:abc"))
      (codes "l" ∷ [])
      disk
      client).0.1
    ≡ some (mismatch (codes "sha256:ab"))
unfolding extract_layer value_of equal_fold
rest_not_hashed = refl

layer_accepted :
    (extract_layer plain_join 8 world reads decode img
      (layer (codes "sha256:AB"))
      (codes "l" ∷ [])
      disk
      client).0.1
    ≡ none
unfolding extract_layer value_of equal_fold
layer_accepted = refl

abbrev unpacked_layer : Files × Client
unfolding extract_layer
unpacked_layer =
    let r =
      extract_layer plain_join 8 world reads decode img (layer (codes "sha256:AB")) (codes "l" ∷ [])
        disk client in
    (r.0.0, r.1)

extract_layer-IsVerified_example :
    (contains_text (codes "tar") (codes "zstd") ≡ false)
    × (contains_text (codes "tar") (codes "foreign") ≡ false)
    × IsVerified plain_join 8 world reads decode
        (layer (codes "sha256:AB"))
        (codes "l" ∷ [])
        disk
        unpacked_layer.0
        unpacked_layer.1
unfolding extract_layer
extract_layer-IsVerified_example =
    extract_layer-IsVerified plain_join 8 world reads decode img (layer (codes "sha256:AB"))
      (codes "l" ∷ []) disk client layer_accepted
