-- ===== src/Image.antt =====
-- image.go: `imageRef`, `parseRef` and `splitChallenge`.
pub mod Cuts
pub mod Reference
pub mod Challenge
mod Tests
use curimata.Common.{
  ℕ, zero, suc, ◌%◌, List, Bool, true, false, not, ◌&&◌, ◌||◌, [], ◌∷◌, ◌++◌, none, some, ◌==◌,
  if◌then◌else◌, Bytes, codes, bytes_eq, take, drop, Result, ok, err,
}
use curimata.Text.Fields.{push}
use curimata.Text.Search.{contains, index, last_index}

pub record ImageRef : Type 0 where
  pub registry : Bytes
  pub repo : Bytes
  pub tag : Bytes

-- `imageRef.String`
unfoldable pub ref_text : ImageRef → Bytes
ref_text img = img.registry ++ (b'/' ∷ (img.repo ++ (b':' ∷ img.tag)))

pub data RefError : Type 0 where
  empty_reference : RefError
  digest_reference : Bytes → RefError
  invalid_reference : Bytes → RefError

abbrev pub default_registry : Bytes
default_registry = codes "registry-1.docker.io"

abbrev pub default_tag : Bytes
default_tag = codes "latest"

unfoldable pub is_registry : Bytes → Bool
is_registry head = (contains head b'.' || contains head b':') || bytes_eq head (codes "localhost")

-- The registry, and the name behind it.
unfoldable pub split_registry : Bytes → Bytes × Bytes
split_registry s = elim (index s b'/') [
  | none ↦ (default_registry, s)
  | some i ↦
      if not (i == 0) && is_registry (take i s)
      then (take i s, drop (suc i) s)
      else (default_registry, s)
]

-- The tag, and the name before it.
unfoldable pub split_tag : Bytes → Bytes × Bytes
split_tag name = elim (last_index name b':') [
  | none ↦ (default_tag, name)
  | some i ↦ if i == 0 then (default_tag, name) else (drop (suc i) name, take i name)
]

unfoldable pub repo_of : Bytes → Bytes → Bytes
repo_of registry name =
    if bytes_eq registry default_registry && not (contains name b'/')
    then codes "library/" ++ name
    else name

unfoldable pub parse_name : Bytes → Bytes × Bytes → Result RefError ImageRef
parse_name s (registry, rest) =
    let (tag, name) = split_tag rest in
    if bytes_eq name []
    then err (invalid_reference s)
    else ok (record { registry = registry; repo = repo_of registry name; tag = tag })

unfoldable pub parse_ref : Bytes → Result RefError ImageRef
unfolding split_registry split_tag is_registry repo_of parse_name
parse_ref [] = err empty_reference
parse_ref (c ∷ s) =
    if contains (c ∷ s) b'@'
    then err (digest_reference (c ∷ s))
    else parse_name (c ∷ s) (split_registry (c ∷ s))

-- The loop of `splitChallenge`, from the number of quotes before the text on.
unfoldable pub split_from : ℕ → Bytes → List Bytes
unfolding push
split_from quotes [] = [] ∷ []
split_from quotes (c ∷ s) =
    let behind_quote = split_from (suc quotes) s in
    let behind = split_from quotes s in
    if c == b'"'
    then push c behind_quote
    else if (c == b',') && (quotes % 2 == 0)
    then [] ∷ behind
    else push c behind

unfoldable pub split_challenge : Bytes → List Bytes
unfolding split_from
split_challenge s = split_from 0 s
