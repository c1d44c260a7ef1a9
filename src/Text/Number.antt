-- ===== src/Text/Number.antt =====
-- `strconv.Itoa` and `strconv.Atoi` on a 64-bit `int`.
use curimata.Common.{
  ℕ, zero, suc, ◌+◌, ◌-◌, ◌*◌, ◌/◌, ◌%◌, ◌^◌, ◌≤◌, ◌<◌, ◌≡◌, ◌∙◌, Bool, ◌&&◌, [], ◌∷◌, ◌++◌, Option,
  none, some, arith, ltb, leb, ◌==◌, if◌then◌else◌, Bytes, All, All-append, Bool-cases, inl, inr,
}
use curimata.Common.Int.{ℤ, pos, negsuc}

-- The digits of `n`; more than `n` rounds are never needed.
unfoldable pub digits : ℕ → ℕ → Bytes
digits zero n = []
digits (suc fuel) n =
    let front = digits fuel (n / 10) in
    if ltb n 10 then (b'0' + n) ∷ [] else front ++ (b'0' + n % 10) ∷ []

unfoldable pub itoa : ℕ → Bytes
unfolding digits
itoa n = digits (suc n) n

unfoldable pub itoa_ℤ : ℤ → Bytes
unfolding itoa
itoa_ℤ (pos n) = itoa n
itoa_ℤ (negsuc n) = b'-' ∷ itoa (suc n)

unfoldable pub is_digit : ℕ → Bool
is_digit c = leb b'0' c && leb c b'9'

-- The number that the digits spell behind `n`; `none` at the first byte that is no digit.
unfoldable pub read_digits : Bytes → ℕ → Option ℕ
unfolding is_digit
read_digits [] n = some n
read_digits (c ∷ s) n =
    let rest = read_digits s (n * 10 + (c - b'0')) in if is_digit c then rest else none

-- Digits, at least one.
unfoldable pub read_number : Bytes → Option ℕ
unfolding read_digits
read_number [] = none
read_number (c ∷ s) = read_digits (c ∷ s) 0

abbrev pub max_int : ℕ
max_int = 2 ^ 63 - 1

abbrev positive : Option ℕ → Option ℤ
positive none = none
positive (some n) = if leb n max_int then some (pos n) else none

abbrev negated : Option ℕ → Option ℤ
negated none = none
negated (some zero) = some (pos 0)
negated (some (suc n)) = if leb n max_int then some (negsuc n) else none

-- A sign is allowed; a value out of range is an error.
unfoldable pub atoi : Bytes → Option ℤ
unfolding read_number
atoi [] = none
atoi (c ∷ s) =
    if c == b'+'
    then positive (read_number s)
    else if c == b'-'
    then negated (read_number s)
    else positive (read_number (c ∷ s))

abbrev pub IsDigit : ℕ → Type 0
IsDigit c = (b'0' ≤ c) × (c ≤ b'9')

digits-IsDigit : (fuel n : ℕ) → All IsDigit (digits fuel n)
unfolding digits
digits-IsDigit zero n = tt
digits-IsDigit (suc fuel) n = elim (Bool-cases (ltb n 10)) [
  | inl small ↦ rw small (ground arith, tt)
  | inr large ↦ rw large (All-append IsDigit _ _ (digits-IsDigit fuel (n / 10)) (omega arith, tt))
]

pub itoa-IsDigit : (n : ℕ) → All IsDigit (itoa n)
unfolding itoa
itoa-IsDigit n = digits-IsDigit (suc n) n

digits_cons : (fuel n : ℕ) → (c : ℕ) × (s : Bytes) × (digits (suc fuel) n ≡ c ∷ s)
unfolding digits
digits_cons fuel n = elim (Bool-cases (ltb n 10)) [
  | inl small ↦ (b'0' + n, [], rw small)
  | inr large ↦
      elim (digits fuel (n / 10))
        as (λ l.
          (c : ℕ) × (s : Bytes) × ((if ltb n 10 then (b'0' + n) ∷ [] else l ++ (b'0' + n % 10) ∷ [])
            ≡ c ∷ s)) [
              | [] ↦ (b'0' + n % 10, [], rw large)
              | c ∷ s ↦ (c, s ++ (b'0' + n % 10) ∷ [], rw large)
            ]
]

-- A printed number begins with a digit.
pub itoa_cons : (n : ℕ) → (c : ℕ) × (s : Bytes) × (itoa n ≡ c ∷ s)
unfolding itoa
itoa_cons n = digits_cons n n

read_digits-append :
    (s t : Bytes) (n m : ℕ) → read_digits s n ≡ some m → read_digits (s ++ t) n ≡ read_digits t m
unfolding read_digits
read_digits-append [] t n m h = ground arith
read_digits-append (c ∷ s) t n m h = ground (arith, read_digits-append s t (n * 10 + (c - b'0')) m)

read_digits-digits : (fuel n : ℕ) → n < fuel → read_digits (digits fuel n) 0 ≡ some n
unfolding digits
read_digits-digits zero n h = elim h [ ]
read_digits-digits (suc fuel) n h = elim (Bool-cases (ltb n 10)) [
  | inl small ↦ rw small (unfold read_digits in ground arith)
  | inr large ↦ rw large (
      read_digits-append (digits fuel (n / 10)) _ 0 (n / 10)
        (read_digits-digits fuel (n / 10) (ground arith))
      ∙ unfold read_digits in ground arith)
]

read_number-itoa : (n : ℕ) → read_number (itoa n) ≡ some n
unfolding read_number itoa
read_number-itoa n =
    let (c, s, e) = digits_cons n n in
    rw (e, read_number) (rw e at (read_digits-digits (suc n) n (omega arith)))

atoi_digit : (c : ℕ) (s : Bytes) → IsDigit c → atoi (c ∷ s) ≡ positive (read_number (c ∷ s))
unfolding atoi
atoi_digit c s d = ground arith

-- Every number that fits an `int` is read back from its print.
pub atoi-itoa : (n : ℕ) → n ≤ max_int → atoi (itoa n) ≡ some (pos n)
atoi-itoa n h =
    let (c, s, e) = itoa_cons n in
    let d : IsDigit c = (rw e at (itoa-IsDigit n)).0 in
    let r : read_number (c ∷ s) ≡ some n = rw e at (read_number-itoa n) in
    rw (e, atoi_digit c s d, r) (ground arith)
