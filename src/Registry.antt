-- ===== src/Registry.antt =====
-- image.go: `registryClient`, with `get`, `authenticate`, `manifest` and `layers`. What `http.Client.Do` returns is a
-- function of the requests that it was given so far, the last first. A redirect that it follows on the way is its own
-- matter: it is no request of the program. Package net/http, encoding/json and SHA-256 are inputs.
pub mod Blob
pub mod Requests
pub mod Builds
pub mod Verified
mod Tests
use curimata.Common.{
  ℕ, zero, suc, Bool, true, false, not, ◌&&◌, ltb, ◌==◌, List, [], ◌∷◌, ◌++◌, Option, none, some,
  if◌then◌else◌, Bytes, bytes_eq, codes, take, drop, length, Result, ok, err,
}
use curimata.Text.Trim.{trim_space}
use curimata.Text.Search.{cut_prefix, index}
use curimata.Image.{ImageRef, split_challenge}

-- A GET that is given to `http.Client.Do`, with its Accept fields, the token of its Authorization field, empty for
-- none, and the fields that are set in the query of its URL.
pub record Request : Type 0 where
  pub url : Bytes
  pub accept : List Bytes
  pub token : Bytes
  pub query : List (Bytes × Bytes)

-- A response with the fields that the client reads; `cut` says that reading its body ends in an error.
pub record Reply : Type 0 where
  pub status : ℕ
  pub challenge : Bytes
  pub digest : Bytes
  pub body : Bytes
  pub cut : Bool

pub record Platform : Type 0 where
  pub architecture : Bytes
  pub os : Bytes

pub record Descriptor : Type 0 where
  pub media_type : Bytes
  pub digest : Bytes
  pub platform : Option Platform

pub record ManifestDoc : Type 0 where
  pub manifests : List Descriptor
  pub layers : List Descriptor

pub data RegistryError : Type 0 where
  not_reached unsupported no_realm bad_realm no_token_reply no_token bad_token : RegistryError
  empty_token not_read bad_manifest no_layers : RegistryError
  bad_status : ℕ → RegistryError
  no_build : List Bytes → RegistryError

-- `is_url` tells whether `http.NewRequest` takes a URL, `hash` is SHA-256 in hexadecimal.
pub record World : Type 0 where
  pub is_url : Bytes → Bool
  pub answer : List Request → Option Reply
  pub decode_token : Reply → Option (Bytes × Bytes)
  pub decode_manifest : Bytes → Option ManifestDoc
  pub hash : Bytes → Bytes
  pub arch : Bytes

-- The tokens by repository, the last first, and the requests that were given to `http.Client.Do`, the last first.
pub record Client : Type 0 where
  pub tokens : List (Bytes × Bytes)
  pub sent : List Request

-- The value of a key in a map of texts, empty if it is missing.
unfoldable pub value_of : List (Bytes × Bytes) → Bytes → Bytes
unfolding bytes_eq
value_of [] k = []
value_of ((l, v) ∷ rest) k = let later = value_of rest k in if bytes_eq l k then v else later

-- `strings.Trim` of quotes.
unfoldable pub trim_front : Bytes → Bytes
trim_front [] = []
trim_front (c ∷ s) = let rest = trim_front s in if c == b'"' then rest else c ∷ s

unfoldable pub back_cons : ℕ → Bytes → Bytes
back_cons c [] = if c == b'"' then [] else c ∷ []
back_cons c (d ∷ s) = c ∷ d ∷ s

unfoldable pub trim_back : Bytes → Bytes
unfolding back_cons
trim_back [] = []
trim_back (c ∷ s) = back_cons c (trim_back s)

unfoldable pub trim_quotes : Bytes → Bytes
unfolding trim_front trim_back
trim_quotes s = trim_back (trim_front s)

-- The parameters of a challenge, the last first; a part without "=" is passed over.
unfoldable pub params_of : List Bytes → List (Bytes × Bytes) → List (Bytes × Bytes)
unfolding index trim_space trim_quotes
params_of [] params = params
params_of (part ∷ parts) params = elim (index part b'=') [
  | none ↦ params_of parts params
  | some i ↦ params_of parts ((trim_space (take i part), trim_quotes (drop (suc i) part)) ∷ params)
]

abbrev pub Asked : Type 0
Asked = Option RegistryError × Client

unfoldable pub store_token : ImageRef → Bytes → Client → Asked
store_token img [] c = (some empty_token, c)
store_token img (b ∷ token) c = (none, record c { tokens = (img.repo, b ∷ token) ∷ c.tokens })

-- "token", or "access_token" if it is empty.
unfoldable pub chosen_token : Bytes → Bytes → Bytes
chosen_token [] access = access
chosen_token (b ∷ token) access = b ∷ token

unfoldable pub with_token : World → ImageRef → Option Reply → Client → Asked
unfolding store_token chosen_token
with_token w img none c = (some no_token_reply, c)
with_token w img (some r) c =
    let stored : Asked = elim (w.decode_token r) [
      | none ↦ (some bad_token, c)
      | some (token, access) ↦ store_token img (chosen_token token access) c
    ] in
    if r.status == 200 then stored else (some no_token, c)

-- A client behind a request.
abbrev pub sending : Request → Client → Client
sending q c = record c { sent = q ∷ c.sent }

-- A field of the query is set if it is not empty.
unfoldable pub set_field : Bytes → Bytes → List (Bytes × Bytes) → List (Bytes × Bytes)
set_field k [] query = query
set_field k (b ∷ v) query = (k, b ∷ v) ∷ query

unfoldable pub token_request : Bytes → Bytes → Bytes → Request
unfolding set_field
token_request realm service scope = record {
  url = realm;
  accept = [];
  token = [];
  query = set_field (codes "service") service (set_field (codes "scope") scope []);
}

unfoldable pub ask_token : World → ImageRef → Bytes → Bytes → Bytes → Client → Asked
unfolding with_token token_request
ask_token w img realm service scope c =
    let d = sending (token_request realm service scope) c in
    let asked = with_token w img (w.answer d.sent) d in
    if w.is_url realm then asked else (some bad_realm, c)

abbrev pub scope_of : ImageRef → Bytes → Bytes
scope_of img [] = codes "repository:" ++ (img.repo ++ codes ":pull")
scope_of img (b ∷ scope) = b ∷ scope

unfoldable pub with_params : World → ImageRef → List (Bytes × Bytes) → Client → Asked
unfolding value_of bytes_eq ask_token
with_params w img params c =
    let realm = value_of params (codes "realm") in
    let asked =
      ask_token w img realm (value_of params (codes "service"))
        (scope_of img (value_of params (codes "scope"))) c in
    if bytes_eq realm [] then (some no_realm, c) else asked

-- `authenticate`
unfoldable pub authenticate : World → ImageRef → Bytes → Client → Asked
unfolding cut_prefix split_challenge params_of with_params
authenticate w img challenge c = elim (cut_prefix challenge (codes "Bearer ")) [
  | none ↦ (some unsupported, c)
  | some rest ↦ with_params w img (params_of (split_challenge rest) []) c
]

abbrev pub url_of : ImageRef → Bytes → Bytes
url_of img path = codes "https://" ++ (img.registry ++ (codes "/v2/" ++ (img.repo ++ path)))

abbrev pub Got : Type 0
Got = Result RegistryError Reply × Client

-- The request of `get`, which both attempts build.
abbrev pub request_of : ImageRef → Bytes → List Bytes → Client → Request
request_of img path accept c = record {
  url = url_of img path;
  accept = accept;
  token = value_of c.tokens img.repo;
  query = [];
}

unfoldable pub attempt : World → ImageRef → Bytes → List Bytes → Client → Option Reply × Client
unfolding value_of
attempt w img path accept c =
    let d = sending (request_of img path accept c) c in
    if w.is_url (url_of img path) then (w.answer d.sent, d) else (none, c)

abbrev pub checked : Option Reply × Client → Got
checked (none, c) = (err not_reached, c)
checked (some r, c) = if r.status == 200 then (ok r, c) else (err (bad_status r.status), c)

unfoldable pub again : World → ImageRef → Bytes → List Bytes → Asked → Got
unfolding attempt
again w img path accept (some e, c) = (err e, c)
again w img path accept (none, c) = checked (attempt w img path accept c)

unfoldable pub respond : World → ImageRef → Bytes → List Bytes → Option Reply × Client → Got
unfolding again authenticate
respond w img path accept (none, c) = (err not_reached, c)
respond w img path accept (some r, c) =
    let repeated = again w img path accept (authenticate w img r.challenge c) in
    if r.status == 401 then repeated else checked (some r, c)

-- `get`
unfoldable pub get : World → ImageRef → Bytes → List Bytes → Client → Got
unfolding respond attempt
get w img path accept c = respond w img path accept (attempt w img path accept c)

-- `manifestTypes`
abbrev pub manifest_types : List Bytes
manifest_types =
    codes "application/vnd.oci.image.index.v1+json"
    ∷ codes "application/vnd.docker.distribution.manifest.list.v2+json"
    ∷ codes "application/vnd.oci.image.manifest.v1+json"
    ∷ codes "application/vnd.docker.distribution.manifest.v2+json"
    ∷ []

-- The most bytes of a manifest that are read.
abbrev pub manifest_limit : ℕ
manifest_limit = 8388608

abbrev pub digest_text : World → Bytes → Bytes
digest_text w body = codes "sha256:" ++ w.hash body

unfoldable pub digest_of : World → Bytes → Bytes → Bytes
digest_of w body [] = digest_text w body
digest_of w body (b ∷ digest) = b ∷ digest

abbrev pub Manifest : Type 0
Manifest = Result RegistryError (Bytes × Bytes) × Client

unfoldable pub read_manifest : World → Got → Manifest
unfolding digest_of
read_manifest w (err e, c) = (err e, c)
read_manifest w (ok r, c) =
    let body = take manifest_limit r.body in
    if r.cut && ltb (length r.body) manifest_limit
    then (err not_read, c)
    else (ok (body, digest_of w body r.digest), c)

-- `manifest`
unfoldable pub manifest : World → ImageRef → Bytes → Client → Manifest
unfolding read_manifest get
manifest w img reference c =
    read_manifest w (get w img (codes "/manifests/" ++ reference) manifest_types c)

-- The architecture of a build for Linux.
unfoldable pub linux_of : Descriptor → Option Bytes
unfolding bytes_eq
linux_of m = elim m.platform [
  | none ↦ none
  | some p ↦ if bytes_eq p.os (codes "linux") then some p.architecture else none
]

-- The loop over the manifests of an index: the digest that is chosen, empty for none, and the architectures.
unfoldable pub choose : Bytes → List Descriptor → Bytes × List Bytes
unfolding linux_of bytes_eq
choose arch [] = ([], [])
choose arch (m ∷ ms) =
    let rest = choose arch ms in
    elim (linux_of m) [
      | none ↦ rest
      | some a ↦ if bytes_eq a arch then (m.digest, a ∷ []) else (rest.0, a ∷ rest.1)
    ]

abbrev pub Layers : Type 0
Layers = Result RegistryError (List Descriptor) × Client

unfoldable pub some_layers : List Descriptor → Client → Layers
some_layers [] c = (err no_layers, c)
some_layers (l ∷ ls) c = (ok (l ∷ ls), c)

unfoldable pub image_layers : World → Manifest → Layers
unfolding some_layers
image_layers w (err e, c) = (err e, c)
image_layers w (ok (body, digest), c) = elim (w.decode_manifest body) [
  | none ↦ (err bad_manifest, c)
  | some doc ↦ some_layers doc.layers c
]

unfoldable pub index_layers : World → ImageRef → Bytes × List Bytes → Client → Layers
unfolding image_layers manifest
index_layers w img ([], have) c = (err (no_build have), c)
index_layers w img (b ∷ chosen, have) c = image_layers w (manifest w img (b ∷ chosen) c)

unfoldable pub doc_layers : World → ImageRef → List Descriptor → ManifestDoc → Client → Layers
unfolding index_layers choose some_layers
doc_layers w img [] doc c = some_layers doc.layers c
doc_layers w img (m ∷ ms) doc c = index_layers w img (choose w.arch (m ∷ ms)) c

-- `layers`
unfoldable pub layers : World → ImageRef → Bytes → Client → Layers
unfolding doc_layers
layers w img body c = elim (w.decode_manifest body) [
  | none ↦ (err bad_manifest, c)
  | some doc ↦ doc_layers w img doc.manifests doc c
]
