-- ===== src/Dirs/Overlap.antt =====
-- dirs.go: `overlaps` decides whether one directory is the other or is inside it.
use curimata.Common.{
  ◌≡◌, ◌≢◌, ◌↔◌, ◌⊎◌, refl, sym, ap, ◌∙◌, inl, inr, Bool, true, false, ◌||◌, [], ◌∷◌, ◌++◌,
  Bool-cases, arith, Bytes, bytes_eq, bytes_eq_iff, bytes_eq_refl, Lacks, All, append_assoc, length,
  length-append,
}
use curimata.Text.Search.{has_prefix}
use curimata.Files.{FilePath, below, inside}
use curimata.Files.Lookup.{path_eq_iff, below_refl, inside→below, below-cases}
use curimata.Dirs.State.{path_text, absolute_text, overlaps}

has_prefix→append : (s t : Bytes) → has_prefix s t ≡ true → (rest : Bytes) × (s ≡ t ++ rest)
unfolding has_prefix
has_prefix→append s [] h = (s, refl)
has_prefix→append [] (d ∷ t) h = cc
has_prefix→append (c ∷ s) (d ∷ t) h =
    let same : c ≡ d = ground arith in
    let (rest, q) = has_prefix→append s t (ground arith) in (rest, cc)

append→has_prefix : (t rest : Bytes) → has_prefix (t ++ rest) t ≡ true
unfolding has_prefix
append→has_prefix [] rest = refl
append→has_prefix (d ∷ t) rest = rw (append→has_prefix t rest) (ground arith)

Lacks-middle : (b r : Bytes) → Lacks b'/' (b ++ (b'/' ∷ r)) → ⊥
Lacks-middle [] r (h, l) = h refl
Lacks-middle (x ∷ b) r (h, l) = Lacks-middle b r l

-- The last slash of a text is the first of two slashes at most if nothing behind it is one.
last-slash :
    (a b c r : Bytes)
    → Lacks b'/' c
    → a ++ (b'/' ∷ c) ≡ b ++ (b'/' ∷ r)
    → ((a ≡ b) × (c ≡ r)) ⊎ ((m : Bytes) × (a ≡ b ++ (b'/' ∷ m)))
last-slash [] [] c r l h = inl (refl, cc)
last-slash [] (x ∷ b) c r l h =
    let tail : c ≡ b ++ (b'/' ∷ r) = cc in absurd (Lacks-middle b r (rw tail at l))
last-slash (x ∷ a) [] c r l h = inr (a, cc)
last-slash (x ∷ a) (y ∷ b) c r l h =
    let head : x ≡ y = cc in
    let tail : a ++ (b'/' ∷ c) ≡ b ++ (b'/' ∷ r) = cc in
    elim (last-slash a b c r l tail) [ inl (p, q) ↦ inl (cc, q) | inr (m, p) ↦ inr (m, cc) ]

-- The components have no slash in them.
abbrev pub IsSplit : FilePath → Type 0
IsSplit = All (Lacks b'/')

nil-append : (a : Bytes) (c : Bytes) → [] ≡ a ++ (b'/' ∷ c) → ⊥
nil-append [] c e = cc
nil-append (x ∷ a) c e = cc

append-cycle : (a b m n : Bytes) → a ≡ b ++ (b'/' ∷ m) → b ≡ a ++ (b'/' ∷ n) → ⊥
append-cycle a b m n h k =
    let la = ap length h ∙ length-append b (b'/' ∷ m) in
    let lb = ap length k ∙ length-append a (b'/' ∷ n) in omega (arith, la, lb)

below-only : (q p : FilePath) → below q p ≡ true → inside q p ≡ false → q ≡ p
unfolding below inside
below-only q [] h i = (path_eq_iff q []).0 h
below-only q (c ∷ p) h i = elim (below-cases q c p h) [
  | inl e ↦ e
  | inr b ↦ let bad : true ≡ false = sym b ∙ i in cc
]

path_text-injective : (p q : FilePath) → IsSplit p → IsSplit q → path_text p ≡ path_text q → p ≡ q
unfolding path_text
path_text-injective [] [] hp hq e = refl
path_text-injective [] (d ∷ q) hp hq e = absurd (nil-append (path_text q) d e)
path_text-injective (c ∷ p) [] hp hq e = absurd (nil-append (path_text p) c (sym e))
path_text-injective (c ∷ p) (d ∷ q) (l, hp) (k, hq) e =
    elim (last-slash (path_text p) (path_text q) c d l e) [
      | inl (same, last) ↦ let rest = path_text-injective p q hp hq same in cc
      | inr (m, j) ↦ elim (last-slash (path_text q) (path_text p) d c k (sym e)) [
        | inl (same, last) ↦ let rest = path_text-injective p q hp hq (sym same) in cc
        | inr (n, i) ↦ absurd (append-cycle (path_text p) (path_text q) m n j i)
      ]
    ]

text-inside :
    (p q : FilePath) (r : Bytes)
    → IsSplit p
    → path_text p ≡ path_text q ++ (b'/' ∷ r)
    → IsSplit q
    → inside q p ≡ true
unfolding path_text inside
text-inside [] q r hp e hq = absurd (nil-append (path_text q) r e)
text-inside (c ∷ p) q r (l, hp) e hq = elim (last-slash (path_text p) (path_text q) c r l e) [
  | inl (same, _) ↦ rw (path_text-injective p q hp hq same) (below_refl q)
  | inr (m, k) ↦ inside→below q p (text-inside p q m hp k hq)
]

inside-text :
    (p q : FilePath) → inside q p ≡ true → (r : Bytes) × (path_text p ≡ path_text q ++ (b'/' ∷ r))
unfolding path_text inside
inside-text [] q h = cc
inside-text (c ∷ p) q h = elim (Bool-cases (inside q p)) [
  | inl i ↦
      let (r, e) = inside-text p q i in
      (r ++ (b'/' ∷ c), rw e (append_assoc (path_text q) (b'/' ∷ r) (b'/' ∷ c)))
  | inr i ↦ let same = below-only q p h i in (c, rw same refl)
]

has_prefix-inside :
    (p q : FilePath)
    → IsSplit p
    → IsSplit q
    → has_prefix (path_text p) (path_text q ++ (b'/' ∷ [])) ≡ inside q p
has_prefix-inside p q hp hq = elim (Bool-cases (inside q p)) [
  | inl i ↦
      let (r, e) = inside-text p q i in
      let split = append_assoc (path_text q) (b'/' ∷ []) r in
      rw (i, e, sym split) (append→has_prefix (path_text q ++ (b'/' ∷ [])) r)
  | inr i ↦ elim (Bool-cases (has_prefix (path_text p) (path_text q ++ (b'/' ∷ [])))) [
    | inr n ↦ n ∙ sym i
    | inl y ↦
        let (r, e) = has_prefix→append (path_text p) (path_text q ++ (b'/' ∷ [])) y in
        let into = text-inside p q r hp (e ∙ append_assoc (path_text q) (b'/' ∷ []) r) hq in
        y ∙ sym into
  ]
]

absolute_text-below : (p : FilePath) → p ≢ [] → absolute_text p ≡ path_text p
unfolding absolute_text
absolute_text-below [] n = absurd (n refl)
absolute_text-below (c ∷ p) n = refl

overlaps-inside :
    (p q : FilePath)
    → p ≢ []
    → q ≢ []
    → IsSplit p
    → IsSplit q
    → overlaps p q ≡ (bytes_eq (path_text p) (path_text q) || (inside q p || inside p q))
unfolding overlaps
overlaps-inside p q np nq hp hq =
    rw
      (
        absolute_text-below p np,
        absolute_text-below q nq,
        has_prefix-inside p q hp hq,
        has_prefix-inside q p hq hp,
      )
      refl

or_true : (a b : Bool) → (a || (b || true)) ≡ true
or_true true b = refl
or_true false true = refl
or_true false false = refl

or_first : (a b : Bool) → (a || (true || b)) ≡ true
or_first true b = refl
or_first false b = refl

overlap-cases :
    (p q : FilePath)
    → IsSplit p
    → IsSplit q
    → (bytes_eq (path_text p) (path_text q) || (inside q p || inside p q)) ≡ true
    → (below p q ≡ true) ⊎ (below q p ≡ true)
overlap-cases p q hp hq h = elim (Bool-cases (bytes_eq (path_text p) (path_text q))) [
  | inl e ↦
      let same = path_text-injective p q hp hq ((bytes_eq_iff (path_text p) (path_text q)).0 e) in
      inl (rw same (below_refl q))
  | inr e ↦ elim (Bool-cases (inside q p)) [
    | inl i ↦ inr (inside→below q p i)
    | inr i ↦ inl (inside→below p q (rw (e, i) at h))
  ]
]

nested-text :
    (p q : FilePath)
    → (below p q ≡ true) ⊎ (below q p ≡ true)
    → (bytes_eq (path_text p) (path_text q) || (inside q p || inside p q)) ≡ true
nested-text p q (inl b) = elim (Bool-cases (inside p q)) [
  | inl i ↦ rw i (or_true (bytes_eq (path_text p) (path_text q)) (inside q p))
  | inr i ↦ let same = below-only p q b i in rw (same, bytes_eq_refl (path_text q)) refl
]
nested-text p q (inr b) = elim (Bool-cases (inside q p)) [
  | inl i ↦ rw i (or_first (bytes_eq (path_text p) (path_text q)) (inside p q))
  | inr i ↦ let same = below-only q p b i in rw (same, bytes_eq_refl (path_text p)) refl
]

-- Of two clean paths below the root, `overlaps` tells whether one is the other or is inside it.
pub overlaps_iff :
    (p q : FilePath)
    → p ≢ []
    → q ≢ []
    → IsSplit p
    → IsSplit q
    → (overlaps p q ≡ true) ↔ ((below p q ≡ true) ⊎ (below q p ≡ true))
overlaps_iff p q np nq hp hq =
    let e = overlaps-inside p q np nq hp hq in
    ((λ h. overlap-cases p q hp hq (sym e ∙ h)), λ h. e ∙ nested-text p q h)
