-- ===== src/Pull/Sizes.antt =====
-- image.go: the loop of `humanBytes` ends, and which sizes it can print.
use curimata.Common.{
  ℕ, zero, suc, ◌+◌, ◌/◌, ◌^◌, ◌≤◌, ◌<◌, ◌≡◌, ◌↔◌, refl, inl, inr, false, none, ltb, Bool-cases,
  arith,
}
use curimata.Pull.{exponent, unit_at, human_unit}

exponent-small : (fuel m count : ℕ) → m < 1024 → exponent fuel m count ≡ count
unfolding exponent
exponent-small zero m count h = refl
exponent-small (suc fuel) m count h = ground arith

exponent-large :
    (fuel m count : ℕ)
    → 1024 ≤ m
    → exponent (suc fuel) m count ≡ exponent fuel (m / 1024) (suc count)
unfolding exponent
exponent-large fuel m count h = ground arith

-- More fuel than the number of digits to the base 1024 changes nothing.
exponent_enough :
    (fuel more m count : ℕ)
    → fuel ≤ more
    → m < 1024 ^ fuel
    → exponent more m count ≡ exponent fuel m count
unfolding exponent
exponent_enough zero more m count k h = exponent-small more m count (omega (arith, h))
exponent_enough (suc fuel) zero m count k h = absurd (omega (arith, k))
exponent_enough (suc fuel) (suc more) m count k h =
    let less : m / 1024 < 1024 ^ fuel = omega (arith, h) in
    rw (exponent_enough fuel more (m / 1024) (suc count) (omega (arith, k)) less) refl

exponent-le : (fuel m count : ℕ) → count ≤ exponent fuel m count
unfolding exponent
exponent-le zero m count = omega arith
exponent-le (suc fuel) m count = let rest = exponent-le fuel (m / 1024) (suc count) in ground arith

pow_pos : (j : ℕ) → 1 ≤ 1024 ^ j
pow_pos zero = omega arith
pow_pos (suc j) = let p = pow_pos j in omega (arith, p)

-- The number of divisions is the exponent to the base 1024.
exponent-ge : (j fuel m count : ℕ) → 1024 ^ j ≤ m → j ≤ fuel → j + count ≤ exponent fuel m count
exponent-ge zero fuel m count h k = let c = exponent-le fuel m count in omega (arith, c)
exponent-ge (suc j) zero m count h k = absurd (omega (arith, k))
exponent-ge (suc j) (suc fuel) m count h k =
    let p = pow_pos j in
    let large = exponent-large fuel m count (omega (arith, h, p)) in
    let rest = exponent-ge j fuel (m / 1024) (suc count) (omega (arith, h, p)) (omega (arith, k)) in
    omega (arith, large, rest)

exponent-lt : (j fuel m count : ℕ) → m < 1024 ^ suc j → exponent fuel m count ≤ j + count
unfolding exponent
exponent-lt j zero m count h = omega arith
exponent-lt zero (suc fuel) m count h =
    let e = exponent-small (suc fuel) m count (omega (arith, h)) in omega (arith, e)
exponent-lt (suc j) (suc fuel) m count h = elim (Bool-cases (ltb m 1024)) [
  | inl t ↦ let e = exponent-small (suc fuel) m count (ground arith) in omega (arith, e)
  | inr f ↦
      let large = exponent-large fuel m count (ground arith) in
      let rest = exponent-lt j fuel (m / 1024) (suc count) (omega (arith, h)) in
      omega (arith, large, rest)
]

unit_at-none : (k : ℕ) → 4 ≤ k → unit_at k ≡ none
unit_at-none zero h = absurd (omega (arith, h))
unit_at-none (suc zero) h = absurd (omega (arith, h))
unit_at-none (suc (suc zero)) h = absurd (omega (arith, h))
unit_at-none (suc (suc (suc zero))) h = absurd (omega (arith, h))
unit_at-none (suc (suc (suc (suc k)))) h = refl

unit_at-some : (k : ℕ) → unit_at k ≡ none → 4 ≤ k
unit_at-some zero h = cc
unit_at-some (suc zero) h = cc
unit_at-some (suc (suc zero)) h = cc
unit_at-some (suc (suc (suc zero))) h = cc
unit_at-some (suc (suc (suc (suc k)))) h = omega arith

human_unit-none : (n : ℕ) → 1125899906842624 ≤ n → human_unit n ≡ none
unfolding human_unit
human_unit-none n h =
    let byte : ltb n 1024 ≡ false = ground arith in
    let large = exponent-ge 4 7 (n / 1024) 0 (omega (arith, h)) (omega arith) in
    rw byte (unit_at-none (exponent 7 (n / 1024) 0) (omega (arith, large)))

human_unit-large : (n : ℕ) → human_unit n ≡ none → 1125899906842624 ≤ n
unfolding human_unit
human_unit-large n h = elim (Bool-cases (ltb n 1024)) [
  | inl t ↦ let bad = rw t at h in cc
  | inr f ↦ elim (Bool-cases (ltb n 1125899906842624)) [
    | inr g ↦ ground arith
    | inl t ↦
        let less : n < 1125899906842624 = ground arith in
        let four = unit_at-some (exponent 7 (n / 1024) 0) (rw f at h) in
        let three = exponent-lt 3 7 (n / 1024) 0 (omega (arith, less)) in
        absurd (omega (arith, four, three))
  ]
]

-- The loop of `humanBytes` ends for every size below 2 ^ 63 after at most seven rounds, and the index of the
-- unit is out of range exactly from 1024 ^ 5 bytes on.
pub human_unit_iff :
    (n fuel : ℕ)
    → n < 9223372036854775808
    → 7 ≤ fuel
    → (exponent fuel (n / 1024) 0 ≡ exponent 7 (n / 1024) 0)
      × ((human_unit n ≡ none) ↔ (1125899906842624 ≤ n))
unfolding human_unit
human_unit_iff n fuel h k = (
  exponent_enough 7 fuel (n / 1024) 0 k (omega (arith, h)),
  (human_unit-large n, human_unit-none n),
)
