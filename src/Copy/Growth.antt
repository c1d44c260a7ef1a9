-- ===== src/Copy/Growth.antt =====
-- box.go: `copyTree` only adds to the copy.
use curimata.Common.{
  ℕ, ◌≡◌, refl, sym, ◌∙◌, inl, inr, List, [], ◌∷◌, Option, none, some, if◌then◌else◌, Option-cases,
  Bool-cases,
}
use curimata.Files.{FilePath, path_eq}
use curimata.Files.Lookup.{path_eq_iff, path_eq_refl}
use curimata.Copy.{Made, made_directory, Target, made_at, State, make}

-- The attributes that a directory gets in the end: those that were recorded first.
unfoldable pub attributes : List (FilePath × ℕ × ℕ) → FilePath → Option (ℕ × ℕ)
unfolding path_eq
attributes [] p = none
attributes ((q, m, t) ∷ ds) p = elim (attributes ds p) [
  | some v ↦ some v
  | none ↦ if path_eq q p then some (m, t) else none
]

abbrev pub Grows : State → State → Type 0
Grows s t =
    ((p : FilePath) (m : Made) → made_at s.made p ≡ some m → made_at t.made p ≡ some m)
    × ((p : FilePath) (v : ℕ × ℕ)
        → attributes s.directories p ≡ some v
        → attributes t.directories p ≡ some v)

pub Grows-refl : (s : State) → Grows s s
Grows-refl s = (λ p m h. h, λ p v h. h)

pub Grows-trans : (a b c : State) → Grows a b → Grows b c → Grows a c
Grows-trans a b c (h, k) (i, j) = (λ p m q. i p m (h p m q), λ p v q. j p v (k p v q))

-- Attributes are recorded for directories only.
abbrev pub IsFiled : State → Type 0
IsFiled s =
    (p : FilePath) (v : ℕ × ℕ)
    → attributes s.directories p ≡ some v
    → (m : ℕ) × (t : ℕ) × (made_at s.made p ≡ some (made_directory m t))

-- A new name was free, stands there now, and changes no other.
pub make-eq-some :
    (s t : State) (p : FilePath) (m : Made)
    → make s p m ≡ some t
    → (made_at s.made p ≡ none) × (t ≡ record s { made = (p, m) ∷ s.made })
unfolding make
make-eq-some s t p m h = elim (Option-cases (made_at s.made p)) [
  | inl e ↦
      let q : some (record s { made = (p, m) ∷ s.made }) ≡ some t = rw (e, make) at h in (e, cc)
  | inr (old, e) ↦ let bad = rw (e, make) at h in cc
]

pub made-here : (made : Target) (p : FilePath) (m : Made) → made_at ((p, m) ∷ made) p ≡ some m
unfolding made_at
made-here made p m = rw (path_eq_refl p) refl

pub made-kept :
    (made : Target) (p : FilePath) (m : Made)
    → made_at made p ≡ none
    → (q : FilePath) (n : Made) → made_at made q ≡ some n
    → made_at ((p, m) ∷ made) q ≡ some n
unfolding made_at
made-kept made p m free q n h = elim (Bool-cases (path_eq p q)) [
  | inr e ↦ rw e h
  | inl e ↦
      let same = (path_eq_iff p q).0 e in
      let f = rw same at free in absurd (let bad : none ≡ some n = sym f ∙ h in cc)
]

pub recorded-kept :
    (ds : List (FilePath × ℕ × ℕ)) (q : FilePath) (m t : ℕ) (p : FilePath) (v : ℕ × ℕ)
    → attributes ds p ≡ some v
    → attributes ((q, m, t) ∷ ds) p ≡ some v
unfolding attributes
recorded-kept ds q m t p v h = rw (h, attributes) refl

pub recorded-new :
    (ds : List (FilePath × ℕ × ℕ)) (q : FilePath) (m t : ℕ)
    → attributes ds q ≡ none
    → attributes ((q, m, t) ∷ ds) q ≡ some (m, t)
unfolding attributes
recorded-new ds q m t h = rw (h, attributes, path_eq_refl q) refl

-- A name that is made leaves the rest and the records as they are.
pub make-Grows :
    (s t : State) (p : FilePath) (m : Made)
    → make s p m ≡ some t
    → Grows s t × (made_at t.made p ≡ some m)
make-Grows s t p m h =
    let (free, same) = make-eq-some s t p m h in
    rw same ((made-kept s.made p m free, λ q v k. k), made-here s.made p m)
