-- ===== src/Text/Fields.antt =====
-- `strings.Split` at a single byte.
use curimata.Common.{
  ℕ, ◌≡◌, ◌≢◌, ◌⊎◌, inl, inr, refl, sym, ap, true, false, List, [], ◌∷◌, ◌++◌, ◌==◌, if◌then◌else◌,
  Bytes, Lacks, arith, Bool-cases, ==_iff,
}

-- A byte in front of the first field.
unfoldable pub push : ℕ → List Bytes → List Bytes
push c [] = (c ∷ []) ∷ []
push c (field ∷ fields) = (c ∷ field) ∷ fields

unfoldable pub split : Bytes → ℕ → List Bytes
unfolding push
split [] sep = [] ∷ []
split (c ∷ s) sep = let rest = split s sep in if c == sep then [] ∷ rest else push c rest

pub split-append :
    (s t : Bytes) (sep : ℕ) → Lacks sep s → split (s ++ (sep ∷ t)) sep ≡ s ∷ split t sep
unfolding split
split-append [] t sep h = let e : (sep == sep) ≡ true = ground arith in rw e refl
split-append (c ∷ s) t sep (h, hs) =
    let e : (c == sep) ≡ false = ground arith in rw (e, split-append s t sep hs) refl

pub split-Lacks : (s : Bytes) (sep : ℕ) → Lacks sep s → split s sep ≡ s ∷ []
unfolding split
split-Lacks [] sep h = refl
split-Lacks (c ∷ s) sep (h, hs) =
    let e : (c == sep) ≡ false = ground arith in rw (e, split-Lacks s sep hs) refl

pub split-some : (s : Bytes) (sep : ℕ) → (f : Bytes) × (fs : List Bytes) × (split s sep ≡ f ∷ fs)
unfolding split push
split-some [] sep = ([], [], refl)
split-some (c ∷ s) sep =
    let (f, fs, e) = split-some s sep in
    elim (Bool-cases (c == sep)) [
      | inl q ↦ ([], split s sep, rw q refl)
      | inr q ↦ (c ∷ f, fs, rw (q, e) refl)
    ]

-- The first field holds no separator, and is the text or is cut off it by one.
pub split-cons :
    (s : Bytes) (sep : ℕ) (a : Bytes) (rest : List Bytes)
    → split s sep ≡ a ∷ rest
    → Lacks sep a
      × (((rest ≡ []) × (s ≡ a)) ⊎ ((t : Bytes) × (s ≡ a ++ (sep ∷ t)) × (split t sep ≡ rest)))
unfolding split push
split-cons [] sep a rest h =
    let same : [] ≡ a = cc in
    let none_left : [] ≡ rest = cc in rw (sym same, sym none_left) (tt, inl (refl, refl))
split-cons (c ∷ s) sep a rest h = elim (Bool-cases (c == sep)) [
  | inl q ↦
      let head : c ≡ sep = (==_iff c sep).0 q in
      let k = rw q at h in
      let same : [] ≡ a = cc in
      let left : split s sep ≡ rest = cc in rw (sym same) (tt, inr (s, rw head refl, left))
  | inr q ↦
      let (f, fs, e) = split-some s sep in
      let apart : c ≢ sep = λ x. let bad = (==_iff c sep).1 x in cc in
      let k = rw (q, e) at h in
      let same : c ∷ f ≡ a = cc in
      let left : fs ≡ rest = cc in
      let (lacks, cut) = split-cons s sep f fs e in
      rw (sym same, sym left)
        (
          (apart, lacks),
          elim cut [
            | inl (z, y) ↦ inl (z, ap (λ (x : Bytes). c ∷ x) y)
            | inr (t, y, z) ↦ inr (t, ap (λ (x : Bytes). c ∷ x) y, z)
          ],
        )
]
