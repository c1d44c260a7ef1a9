-- ===== src/Text/Search.antt =====
-- `strings.HasPrefix`, `HasSuffix`, `CutPrefix`, `Index`, `LastIndex` and `Contains`.
use mathlib.Core.Option
use curimata.Common.{
  ℕ, suc, ◌≡◌, inl, inr, refl, ap, Bool, true, false, ◌&&◌, ◌||◌, [], ◌∷◌, ◌++◌, Option, none, some,
  arith, ◌==◌, if◌then◌else◌, Bool-cases, Bytes, Lacks, bytes_eq, bytes_eq_iff, bytes_eq_refl,
  length,
}

unfoldable pub has_prefix : Bytes → Bytes → Bool
has_prefix s [] = true
has_prefix [] (p ∷ ps) = false
has_prefix (c ∷ s) (p ∷ ps) = (c == p) && has_prefix s ps

-- What is left of the text behind the prefix.
unfoldable pub cut_prefix : Bytes → Bytes → Option Bytes
cut_prefix s [] = some s
cut_prefix [] (p ∷ ps) = none
cut_prefix (c ∷ s) (p ∷ ps) = let rest = cut_prefix s ps in if c == p then rest else none

-- Some tail of the text is the suffix.
unfoldable pub has_suffix : Bytes → Bytes → Bool
unfolding bytes_eq
has_suffix [] t = bytes_eq [] t
has_suffix (c ∷ s) t = bytes_eq (c ∷ s) t || has_suffix s t

unfoldable pub contains : Bytes → ℕ → Bool
contains [] b = false
contains (c ∷ s) b = (c == b) || contains s b

-- `strings.Contains` of a text in a text.
unfoldable pub contains_text : Bytes → Bytes → Bool
unfolding has_prefix
contains_text [] t = has_prefix [] t
contains_text (c ∷ s) t = has_prefix (c ∷ s) t || contains_text s t

unfoldable pub index : Bytes → ℕ → Option ℕ
index [] b = none
index (c ∷ s) b = let later = Option.map suc (index s b) in if c == b then some 0 else later

-- The position of the last `b`.
unfoldable pub last_index : Bytes → ℕ → Option ℕ
last_index [] b = none
last_index (c ∷ s) b = elim (last_index s b) [
  | some i ↦ some (suc i)
  | none ↦ if c == b then some 0 else none
]

-- `HasSuffix` decides that the text is something with the suffix behind it.
pub has_suffix→append : (s t : Bytes) → has_suffix s t ≡ true → (front : Bytes) × (s ≡ front ++ t)
unfolding has_suffix
has_suffix→append [] t h = ([], (bytes_eq_iff [] t).0 h)
has_suffix→append (c ∷ s) t h = elim (Bool-cases (bytes_eq (c ∷ s) t)) [
  | inl e ↦ ([], (bytes_eq_iff (c ∷ s) t).0 e)
  | inr e ↦
      let (front, q) = has_suffix→append s t (ground arith) in
      (c ∷ front, ap (λ (r : Bytes). c ∷ r) q)
]

pub append→has_suffix : (front t : Bytes) → has_suffix (front ++ t) t ≡ true
unfolding has_suffix
append→has_suffix [] [] = bytes_eq_refl []
append→has_suffix [] (d ∷ t) = rw (bytes_eq_refl (d ∷ t))
append→has_suffix (c ∷ front) t = rw (append→has_suffix front t) (ground arith)

pub index-append : (s t : Bytes) (b : ℕ) → Lacks b s → index (s ++ b ∷ t) b ≡ some (length s)
unfolding index
index-append [] t b h = ground arith
index-append (c ∷ s) t b (hc, hs) = rw (index-append s t b hs) (ground arith)

pub last_index-none : (s : Bytes) (b : ℕ) → Lacks b s → last_index s b ≡ none
unfolding last_index
last_index-none [] b h = refl
last_index-none (c ∷ s) b (hc, hs) = rw (last_index-none s b hs) (ground arith)

pub last_index-append :
    (s t : Bytes) (b : ℕ) → Lacks b t → last_index (s ++ b ∷ t) b ≡ some (length s)
unfolding last_index
last_index-append [] t b h = rw (last_index-none t b h) (ground arith)
last_index-append (c ∷ s) t b h = rw (last_index-append s t b h)

pub contains-false : (s : Bytes) (b : ℕ) → contains s b ≡ false → Lacks b s
unfolding contains
contains-false [] b h = tt
contains-false (c ∷ s) b h = (ground arith, contains-false s b (ground arith))

pub cut_prefix-append : (s p rest : Bytes) → cut_prefix s p ≡ some rest → s ≡ p ++ rest
unfolding cut_prefix
cut_prefix-append s [] rest h = cc
cut_prefix-append [] (q ∷ p) rest h = cc
cut_prefix-append (c ∷ s) (q ∷ p) rest h = ground (arith, cut_prefix-append s p rest)

-- A longer prefix has the shorter one.
pub has_prefix-append : (s p q : Bytes) → has_prefix s (p ++ q) ≡ true → cut_prefix s p ≡ none → ⊥
unfolding has_prefix cut_prefix
has_prefix-append s [] q h e = cc
has_prefix-append [] (c ∷ p) q h e = cc
has_prefix-append (d ∷ s) (c ∷ p) q h e = elim (Bool-cases (d == c)) [
  | inl k ↦ has_prefix-append s p q (rw k at h) (rw k at e)
  | inr k ↦ let bad = rw k at h in cc
]
