-- ===== src/Common/Results.antt =====
-- A pair of results in Go, a value and an error, of which one counts.
use mathlib.Core.Path.{◌≡◌, refl}
use mathlib.Core.Logic.{◌⊎◌, inl, inr}

pub data Result (E A : Type 0) : Type 0 where
  err : E → Result E A
  ok : A → Result E A

module _ {E A : Type 0} where
  pub Result-cases : (m : Result E A) → ((a : A) × (m ≡ ok a)) ⊎ ((e : E) × (m ≡ err e))
  Result-cases (err e) = inr (e, refl)
  Result-cases (ok a) = inl (a, refl)

  module _ {B : Type 0} where
    infixl 5 ◌>>=◌ ◌>>◌
    -- Goes on with the value, or returns the error.
    abbrev pub ◌>>=◌ : Result E A → (A → Result E B) → Result E B
    r >>= next = elim r [ err e ↦ err e | ok a ↦ next a ]

    abbrev pub ◌>>◌ : Result E A → Result E B → Result E B
    r >> s = elim r [ err e ↦ err e | ok _ ↦ s ]

    -- A chain succeeds if each of its parts does.
    pub >>=-eq-ok :
        {y : B} (r : Result E A) (next : A → Result E B)
        → (r >>= next) ≡ ok y
        → (x : A) × (r ≡ ok x) × (next x ≡ ok y)
    >>=-eq-ok (err e) next q = cc
    >>=-eq-ok (ok x) next q = (x, refl, q)
