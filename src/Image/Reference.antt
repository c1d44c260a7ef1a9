-- ===== src/Image/Reference.antt =====
-- image.go: `parseRef` and `String` of an image reference undo each other.
use curimata.Common.{
  ℕ, suc, ◌≡◌, ◌≢◌, sym, refl, inl, inr, true, false, not, ◌&&◌, [], ◌∷◌, ◌++◌, arith, ◌==◌, Bytes,
  codes, bytes_eq, bytes_eq_iff, Lacks, All-append, take, take-length-append,
  drop-suc-length-append, Bool-cases, Option-cases, ok,
}
use curimata.Text.Search.{
  contains, contains-false, index, last_index, index-append, last_index-append,
}
use curimata.Image.{
  ImageRef, ref_text, default_registry, is_registry, split_registry, split_tag, repo_of, parse_name,
  parse_ref,
}
use curimata.Image.Cuts.{Lacks-contains, Lacks-take, Lacks-drop, index-Lacks, last_index-Lacks}

-- What holds of a reference that `parseRef` gives.
pub record IsRef (img : ImageRef) : Type 0 where
  pub some_registry : img.registry ≢ []
  pub registry_plain : Lacks b'/' img.registry × Lacks b'@' img.registry
  pub registry_kind : is_registry img.registry ≡ true
  pub some_repo : img.repo ≢ []
  pub repo_plain : Lacks b'@' img.repo
  pub repo_complete :
      (bytes_eq img.registry default_registry && not (contains img.repo b'/')) ≡ false
  pub tag_plain : Lacks b':' img.tag × Lacks b'@' img.tag

split_registry-append :
    (c : ℕ) (r name : Bytes)
    → Lacks b'/' (c ∷ r)
    → is_registry (c ∷ r) ≡ true
    → split_registry ((c ∷ r) ++ (b'/' ∷ name)) ≡ (c ∷ r, name)
unfolding split_registry
split_registry-append c r name lacks kind =
    rw (index-append (c ∷ r) name b'/' lacks, split_registry)
      (rw (take-length-append r (b'/' ∷ name), drop-suc-length-append r b'/' name, kind)
        (ground arith))

split_tag-append :
    (c : ℕ) (s tag : Bytes) → Lacks b':' tag → split_tag ((c ∷ s) ++ (b':' ∷ tag)) ≡ (tag, c ∷ s)
unfolding split_tag
split_tag-append c s tag lacks =
    rw (last_index-append (c ∷ s) tag b':' lacks, split_tag)
      (rw (take-length-append s (b':' ∷ tag), drop-suc-length-append s b':' tag) (ground arith))

parse_ref_parts :
    (c d : ℕ) (r s tag : Bytes)
    → let img : ImageRef = record { registry = c ∷ r; repo = d ∷ s; tag = tag } in
      IsRef img → parse_ref (ref_text img) ≡ ok img
unfolding parse_ref ref_text bytes_eq
parse_ref_parts c d r s tag v =
    let name = (d ∷ s) ++ (b':' ∷ tag) in
    let no_at : contains ((c ∷ r) ++ (b'/' ∷ name)) b'@' ≡ false =
      Lacks-contains ((c ∷ r) ++ (b'/' ∷ name)) b'@' (
        All-append (λ c. c ≢ b'@') (c ∷ r) (b'/' ∷ name) v.registry_plain.1
          (
            omega arith,
            All-append (λ c. c ≢ b'@') (d ∷ s) (b':' ∷ tag) v.repo_plain
                (omega arith, v.tag_plain.1),
          )) in
    rw
      (
        no_at,
        split_registry-append c r name v.registry_plain.0 v.registry_kind,
        split_tag-append d s tag v.tag_plain.0,
        repo_of,
        v.repo_complete,
      )
      refl

parse_ref_fields :
    (registry repo tag : Bytes)
    → let img : ImageRef = record { registry = registry; repo = repo; tag = tag } in
      IsRef img → parse_ref (ref_text img) ≡ ok img
parse_ref_fields [] repo tag v = absurd (v.some_registry refl)
parse_ref_fields (c ∷ r) [] tag v = absurd (v.some_repo refl)
parse_ref_fields (c ∷ r) (d ∷ s) tag v = parse_ref_parts c d r s tag v

-- A reference with a registry host, whose tag has no colon, is read back from its printed form: the parts
-- hold no "@", and a name on the default registry has a slash.
parse_ref-ref_text : (img : ImageRef) → IsRef img → parse_ref (ref_text img) ≡ ok img
parse_ref-ref_text img v = parse_ref_fields img.registry img.repo img.tag v

-- What the two cuts give.
pub record IsSplit (registry name : Bytes) : Type 0 where
  pub some_registry : registry ≢ []
  pub registry_plain : Lacks b'/' registry × Lacks b'@' registry
  pub registry_kind : is_registry registry ≡ true
  pub name_plain : Lacks b'@' name

default-IsSplit : (s : Bytes) → Lacks b'@' s → IsSplit default_registry s
unfolding is_registry contains
default-IsSplit s plain = record {
  some_registry = λ e. absurd (cc);
  registry_plain = (ground arith, ground arith);
  registry_kind = refl;
  name_plain = plain;
}

is_registry_some : (head : Bytes) → is_registry head ≡ true → head ≢ []
unfolding is_registry contains bytes_eq
is_registry_some [] kind e = cc
is_registry_some (c ∷ s) kind e = cc

split_registry-IsSplit :
    (s : Bytes) → Lacks b'@' s → IsSplit (split_registry s).0 (split_registry s).1
unfolding split_registry
split_registry-IsSplit s plain = elim (Option-cases (index s b'/')) [
  | inl e ↦ rw (e, split_registry) (default-IsSplit s plain)
  | inr (i, e) ↦ elim (Bool-cases (not (i == 0) && is_registry (take i s))) [
    | inr f ↦ rw (e, f, split_registry) (default-IsSplit s plain)
    | inl f ↦
        rw (e, f, split_registry)
          (record {
            some_registry = is_registry_some (take i s) (ground arith);
            registry_plain = (index-Lacks s b'/' i e, Lacks-take i s b'@' plain);
            registry_kind = ground arith;
            name_plain = Lacks-drop (suc i) s b'@' plain;
          })
  ]
]

split_tag_plain :
    (name : Bytes)
    → Lacks b'@' name
    → Lacks b':' (split_tag name).0 × Lacks b'@' (split_tag name).0 × Lacks b'@' (split_tag name).1
unfolding split_tag
split_tag_plain name plain = elim (Option-cases (last_index name b':')) [
  | inl e ↦ rw (e, split_tag) (ground arith, ground arith, plain)
  | inr (i, e) ↦ elim (Bool-cases (i == 0)) [
    | inl f ↦ rw (e, f, split_tag) (ground arith, ground arith, plain)
    | inr f ↦
        rw (e, f, split_tag)
          (
            last_index-Lacks name b':' i e,
            Lacks-drop (suc i) name b'@' plain,
            Lacks-take i name b'@' plain,
          )
  ]
]

repo_of_complete :
    (registry name : Bytes)
    → (bytes_eq registry default_registry && not (contains (repo_of registry name) b'/')) ≡ false
unfolding repo_of contains
repo_of_complete registry name =
    elim (Bool-cases (bytes_eq registry default_registry && not (contains name b'/'))) [
      | inl e ↦ rw e (ground arith)
      | inr e ↦ rw e e
    ]

repo_of_kept :
    (registry name : Bytes)
    → name ≢ []
    → Lacks b'@' name
    → (repo_of registry name ≢ []) × Lacks b'@' (repo_of registry name)
unfolding repo_of
repo_of_kept registry name some_name plain =
    elim (Bool-cases (bytes_eq registry default_registry && not (contains name b'/'))) [
      | inl e ↦ rw e (
        λ q. absurd (cc),
        All-append (λ c. c ≢ b'@') (codes "library/") name (ground arith) plain,
      )
      | inr e ↦ rw e (some_name, plain)
    ]

parse_name-IsRef :
    (s registry rest : Bytes) {img : ImageRef}
    → IsSplit registry rest
    → parse_name s (registry, rest) ≡ ok img
    → IsRef img
unfolding parse_name
parse_name-IsRef s registry rest {img} v h =
    let tag = (split_tag rest).0 in
    let name = (split_tag rest).1 in
    let (no_colon, tag_at, name_at) = split_tag_plain rest v.name_plain in
    elim (Bool-cases (bytes_eq name [])) [
      | inl e ↦ absurd (let q = rw e at h in cc)
      | inr e ↦
          let same : record { registry = registry; repo = repo_of registry name; tag = tag } ≡ img =
            let q = rw e at h in cc in
          let some_name : name ≢ [] = λ z. absurd (let q = (bytes_eq_iff name []).1 z in cc) in
          let (some_repo, repo_at) = repo_of_kept registry name some_name name_at in
          rw (sym same) (record {
            some_registry = v.some_registry;
            registry_plain = v.registry_plain;
            registry_kind = v.registry_kind;
            some_repo = some_repo;
            repo_plain = repo_at;
            repo_complete = repo_of_complete registry name;
            tag_plain = (no_colon, tag_at);
          })
    ]

parse_ref-IsRef : (s : Bytes) {img : ImageRef} → parse_ref s ≡ ok img → IsRef img
unfolding parse_ref
parse_ref-IsRef [] h = absurd (cc)
parse_ref-IsRef (c ∷ s) h = elim (Bool-cases (contains (c ∷ s) b'@')) [
  | inl e ↦ absurd (let q = rw (e, parse_ref) at h in cc)
  | inr e ↦
      parse_name-IsRef (c ∷ s) (split_registry (c ∷ s)).0 (split_registry (c ∷ s)).1
        (split_registry-IsSplit (c ∷ s) (contains-false (c ∷ s) b'@' e)) (rw (e, parse_ref) at h)
]

-- What a text is parsed to is printed to a text that is parsed to the same: the printed form of an image
-- names that image again, whatever defaults were filled in.
pub parse_ref-printed :
    (s : Bytes) {img : ImageRef} → parse_ref s ≡ ok img → parse_ref (ref_text img) ≡ ok img
parse_ref-printed s {img} h = parse_ref-ref_text img (parse_ref-IsRef s h)
