-- ===== src/Files/Paths.antt =====
-- `filepath.Clean`, `Base`, `Dir` and `Join`, on the components of a path.
use curimata.Common.{
  ◌≡◌, refl, sym, ap, ◌∙◌, inl, inr, Bool, true, false, not, ◌&&◌, ◌||◌, List, [], ◌∷◌,
  if◌then◌else◌, Bool-cases, arith, All, Bytes, codes, bytes_eq,
}
use curimata.Text.Fields.{split}
use curimata.Files.{FilePath}

unfoldable pub reverse_onto : List Bytes → List Bytes → List Bytes
reverse_onto [] acc = acc
reverse_onto (c ∷ cs) acc = reverse_onto cs (c ∷ acc)

-- The texts between the slashes, the last first.
unfoldable pub parts : Bytes → List Bytes
unfolding split reverse_onto
parts name = reverse_onto (split name b'/') []

abbrev pub is_rooted : Bytes → Bool
is_rooted [] = false
is_rooted (c ∷ s) = bytes_eq (c ∷ []) (b'/' ∷ [])

-- Whether a component names something: it is not empty, "." or "..".
unfoldable pub is_dot : Bytes → Bool
unfolding bytes_eq
is_dot c = bytes_eq c [] || bytes_eq c (codes ".")

unfoldable pub is_dot_dot : Bytes → Bool
unfolding bytes_eq
is_dot_dot c = bytes_eq c (codes "..")

unfoldable pub is_name : Bytes → Bool
unfolding is_dot is_dot_dot
is_name c = not (is_dot c) && not (is_dot_dot c)

-- ".." below a path that is clean: only a relative path can begin with "..".
unfoldable pub climb : Bool → FilePath → FilePath
unfolding is_dot_dot
climb true [] = []
climb false [] = codes ".." ∷ []
climb true (c ∷ p) = p
climb false (c ∷ p) = if is_dot_dot c then codes ".." ∷ c ∷ p else p

-- One more component behind a clean path.
unfoldable pub step : Bool → FilePath → Bytes → FilePath
unfolding is_dot is_dot_dot climb
step rooted p c = if is_dot c then p else if is_dot_dot c then climb rooted p else c ∷ p

unfoldable pub clean_parts : Bool → List Bytes → FilePath
unfolding step
clean_parts rooted [] = []
clean_parts rooted (c ∷ cs) = step rooted (clean_parts rooted cs) c

-- `filepath.Clean`
unfoldable pub clean : Bytes → FilePath
unfolding clean_parts parts
clean name = clean_parts (is_rooted name) (parts name)

-- `filepath.Clean("/" + name)`
unfoldable pub clean_rooted : Bytes → FilePath
unfolding clean_parts parts
clean_rooted name = clean_parts true (parts name)

-- `filepath.Base`
unfoldable pub base_parts : Bytes → List Bytes → Bytes
unfolding bytes_eq
base_parts name [] = if bytes_eq name [] then codes "." else codes "/"
base_parts name (c ∷ cs) = let rest = base_parts name cs in if bytes_eq c [] then rest else c

unfoldable pub base : Bytes → Bytes
unfolding base_parts parts
base name = base_parts name (parts name)

-- `filepath.Dir`
unfoldable pub outer_parts : List Bytes → List Bytes
outer_parts [] = []
outer_parts (c ∷ cs) = cs

unfoldable pub dir_of : Bytes → FilePath
unfolding clean_parts outer_parts parts
dir_of name = clean_parts (is_rooted name) (outer_parts (parts name))

abbrev pub parent : FilePath → FilePath
parent [] = []
parent (c ∷ p) = p

-- A name is neither "." nor "..", so that it goes behind a clean path.
pub step-name :
    (rooted : Bool) (p : FilePath) (c : Bytes) → is_name c ≡ true → step rooted p c ≡ c ∷ p
unfolding step is_name
step-name rooted p c h =
    let d : is_dot c ≡ false = ground arith in
    let e : is_dot_dot c ≡ false = ground arith in rw (d, e) refl

step-empty : (rooted : Bool) (p : FilePath) (c : Bytes) → bytes_eq c [] ≡ true → step rooted p c ≡ p
unfolding step is_dot
step-empty rooted p c h = rw h refl

climb-names :
    (p : FilePath) → All (λ c. is_name c ≡ true) p → All (λ c. is_name c ≡ true) (climb true p)
unfolding climb
climb-names [] h = tt
climb-names (c ∷ p) (h, hs) = hs

-- A clean path from the root has names only.
pub clean_parts-names : (cs : List Bytes) → All (λ c. is_name c ≡ true) (clean_parts true cs)
unfolding clean_parts step is_name
clean_parts-names [] = tt
clean_parts-names (c ∷ cs) =
    let rest = clean_parts-names cs in
    elim (Bool-cases (is_dot c)) [
      | inl d ↦ rw d rest
      | inr d ↦ elim (Bool-cases (is_dot_dot c)) [
        | inl e ↦ rw (d, e) (climb-names (clean_parts true cs) rest)
        | inr e ↦ rw (d, e) (ground arith, rest)
      ]
    ]

base_parts-nil :
    (b : Bool)
    → is_name (if b then codes "." else codes "/") ≡ true
    → bytes_eq (if b then codes "." else codes "/") (codes "/") ≡ false
    → ⊥
unfolding is_name bytes_eq
base_parts-nil true h k = let q : false ≡ true = h in cc
base_parts-nil false h k = let q : true ≡ false = k in cc

-- A text whose last component is a name has it as the last component of its clean path.
pub clean_parts-base :
    (name : Bytes) (cs : List Bytes)
    → is_name (base_parts name cs) ≡ true
    → bytes_eq (base_parts name cs) (codes "/") ≡ false
    → (p : FilePath) × (clean_parts true cs ≡ base_parts name cs ∷ p)
unfolding clean_parts base_parts
clean_parts-base name [] h k = absurd (base_parts-nil (bytes_eq name []) h k)
clean_parts-base name (c ∷ cs) h k = elim (Bool-cases (bytes_eq c [])) [
  | inl e ↦
      let (p, q) = clean_parts-base name cs (rw e at h) (rw e at k) in
      (
        p,
        step-empty true (clean_parts true cs) c e
            ∙ q
            ∙ ap (λ b. (if b then base_parts name cs else c) ∷ p) (sym e),
      )
  | inr e ↦
      let named : is_name c ≡ true = rw e at h in
      (
        clean_parts true cs,
        step-name true (clean_parts true cs) c named
            ∙ ap (λ b. (if b then base_parts name cs else c) ∷ clean_parts true cs) (sym e),
      )
]
