-- ===== src/Image/Challenge.antt =====
-- image.go: `splitChallenge` cuts at the commas outside quotes, and at no others.
use curimata.Common.{
  ℕ, suc, ◌%◌, ◌≡◌, ◌≢◌, ◌↔◌, ◌∙◌, refl, ap, inl, inr, true, false, ◌&&◌, List, [], ◌∷◌, arith,
  ◌==◌, Bytes, codes, Bool-cases, if◌then◌else◌,
}
use curimata.Text.Fields.{push}
use curimata.Text.Split.{join}
use curimata.Image.{split_from, split_challenge}

-- The number of quotes up to the end of the text, with `quotes` of them before it.
unfoldable pub count : ℕ → Bytes → ℕ
count quotes [] = quotes
count quotes (c ∷ s) = count (if c == b'"' then suc quotes else quotes) s

-- Every comma of the text is inside quotes, with `quotes` of them before the text.
unfoldable pub IsQuoted : ℕ → Bytes → Type 0
IsQuoted quotes [] = Unit
IsQuoted quotes (c ∷ s) =
    (c ≡ b',' → quotes % 2 ≡ 1) × IsQuoted (if c == b'"' then suc quotes else quotes) s

-- The parts between the commas that are outside quotes.
unfoldable pub AreParts : ℕ → List Bytes → Type 0
AreParts quotes [] = ⊥
AreParts quotes (p ∷ []) = IsQuoted quotes p
AreParts quotes (p ∷ r ∷ parts) =
    IsQuoted quotes p × (count quotes p % 2 ≡ 0) × AreParts (count quotes p) (r ∷ parts)

join-push :
    (c : ℕ) (parts : List Bytes)
    → parts ≢ []
    → join (push c parts) (codes ",") ≡ c ∷ join parts (codes ",")
unfolding join push
join-push c [] h = absurd (h refl)
join-push c (p ∷ []) h = refl
join-push c (p ∷ r ∷ parts) h = refl

join-cut :
    (parts : List Bytes)
    → parts ≢ []
    → join ([] ∷ parts) (codes ",") ≡ b',' ∷ join parts (codes ",")
unfolding join
join-cut [] h = absurd (h refl)
join-cut (r ∷ parts) h = refl

cut_at : (q : ℕ) (t : Bytes) → q % 2 ≡ 0 → split_from q (b',' ∷ t) ≡ [] ∷ split_from q t
unfolding split_from
cut_at q t even = let e : (q % 2 == 0) ≡ true = ground arith in rw e refl

push-AreParts :
    (q c : ℕ) (parts : List Bytes)
    → (c ≡ b',' → q % 2 ≡ 1)
    → AreParts (if c == b'"' then suc q else q) parts
    → AreParts q (push c parts)
unfolding push AreParts IsQuoted count
push-AreParts q c [] h v = absurd v
push-AreParts q c (p ∷ []) h v = (h, v)
push-AreParts q c (p ∷ r ∷ parts) h (v, even, vs) = ((h, v), even, vs)

AreParts-cons :
    (q : ℕ) (parts : List Bytes) → q % 2 ≡ 0 → AreParts q parts → AreParts q ([] ∷ parts)
unfolding AreParts IsQuoted count
AreParts-cons q [] even v = absurd v
AreParts-cons q (r ∷ parts) even v = (tt, even, v)

AreParts-some : (q : ℕ) (parts : List Bytes) → AreParts q parts → parts ≢ []
unfolding AreParts
AreParts-some q [] v e = v
AreParts-some q (p ∷ parts) v e = cc

split_from-AreParts : (q : ℕ) (s : Bytes) → AreParts q (split_from q s)
unfolding split_from
split_from-AreParts q [] = unfold AreParts IsQuoted in tt
split_from-AreParts q (c ∷ s) =
    let quoted = split_from-AreParts (suc q) s in
    let same = split_from-AreParts q s in
    elim (Bool-cases (c == b'"')) [
      | inl e ↦
          rw e (push-AreParts q c (split_from (suc q) s) (λ z. absurd (ground arith)) (rw e quoted))
      | inr e ↦ elim (Bool-cases ((c == b',') && (q % 2 == 0))) [
        | inl f ↦ rw (e, f) (AreParts-cons q (split_from q s) (ground arith) same)
        | inr f ↦ rw (e, f) (push-AreParts q c (split_from q s) (λ z. ground arith) (rw e same))
      ]
    ]

split_from-join : (q : ℕ) (s : Bytes) → join (split_from q s) (codes ",") ≡ s
unfolding split_from
split_from-join q [] = unfold join in refl
split_from-join q (c ∷ s) =
    let quoted = split_from-join (suc q) s in
    let same = split_from-join q s in
    let some_quoted =
      AreParts-some (suc q) (split_from (suc q) s) (split_from-AreParts (suc q) s) in
    let some_same = AreParts-some q (split_from q s) (split_from-AreParts q s) in
    elim (Bool-cases (c == b'"')) [
      | inl e ↦ rw (e, join-push c (split_from (suc q) s) some_quoted, quoted) refl
      | inr e ↦ elim (Bool-cases ((c == b',') && (q % 2 == 0))) [
        | inl f ↦
            let comma : c ≡ b',' = ground arith in
            rw (e, f, join-cut (split_from q s) some_same, same, comma) refl
        | inr f ↦ rw (e, f, join-push c (split_from q s) some_same, same) refl
      ]
    ]

split_from_step :
    (q c : ℕ) (t : Bytes)
    → (c ≡ b',' → q % 2 ≡ 1)
    → split_from q (c ∷ t) ≡ push c (split_from (if c == b'"' then suc q else q) t)
unfolding split_from
split_from_step q c t h = elim (Bool-cases (c == b'"')) [
  | inl e ↦ rw e refl
  | inr e ↦ elim (Bool-cases (c == b',')) [
    | inl f ↦
        let odd : q % 2 ≡ 1 = h (ground arith) in
        let g : (q % 2 == 0) ≡ false = ground arith in rw (e, f, g) refl
    | inr f ↦ rw (e, f) refl
  ]
]

join-split_from :
    (q : ℕ) (p : Bytes) (parts : List Bytes)
    → AreParts q (p ∷ parts)
    → split_from q (join (p ∷ parts) (codes ",")) ≡ p ∷ parts
unfolding AreParts IsQuoted count join push
join-split_from q [] [] v = unfold split_from in refl
join-split_from q [] (r ∷ parts) (v, even, vs) =
    cut_at q (join (r ∷ parts) (codes ",")) even
    ∙ ap (λ (x : List Bytes). [] ∷ x) (join-split_from q r parts vs)
join-split_from q (c ∷ p) [] (h, v) =
    let q2 = if c == b'"' then suc q else q in
    split_from_step q c p h ∙ ap (λ (x : List Bytes). push c x) (join-split_from q2 p [] v)
join-split_from q (c ∷ p) (r ∷ parts) ((h, v), even, vs) =
    let q2 = if c == b'"' then suc q else q in
    split_from_step q c (join (p ∷ r ∷ parts) (codes ",")) h
    ∙ ap (λ (x : List Bytes). push c x) (join-split_from q2 p (r ∷ parts) (v, even, vs))

-- A list is what the text is split into if and only if it is the list of the texts between the commas
-- outside quotes: with commas between them the parts are the text, each part but the last ends behind an
-- even number of quotes, and a comma stands in a part only behind an odd number.
pub split_challenge_iff :
    (s : Bytes) (p : Bytes) (parts : List Bytes)
    → (split_challenge s ≡ p ∷ parts)
      ↔ ((join (p ∷ parts) (codes ",") ≡ s) × AreParts 0 (p ∷ parts))
unfolding split_challenge
split_challenge_iff s p parts = (
  λ h. (rw (← h) (split_from-join 0 s), rw (← h) (split_from-AreParts 0 s)),
  λ (e, v). rw (← e) (join-split_from 0 p parts v),
)
