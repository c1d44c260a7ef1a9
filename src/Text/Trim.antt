-- ===== src/Text/Trim.antt =====
-- `strings.TrimSpace`, `TrimSuffix` and `ToLower`.
use curimata.Common.{
  ℕ, ◌+◌, ◌≡◌, refl, Bool, false, ◌&&◌, ◌||◌, [], ◌∷◌, ◌++◌, map, arith, leb, ◌==◌, if◌then◌else◌,
  Bytes, All,
}

-- \t \n \v \f \r and the blank.
unfoldable pub is_space : ℕ → Bool
is_space c = leb 9 c && leb c 13 || c == 32

unfoldable pub trim_left : Bytes → Bytes
trim_left [] = []
trim_left (c ∷ s) = let rest = trim_left s in if is_space c then rest else c ∷ s

-- Drops a byte only if all behind it is dropped and it is a space.
unfoldable pub trim_cons : ℕ → Bytes → Bytes
trim_cons c [] = if is_space c then [] else c ∷ []
trim_cons c (d ∷ s) = c ∷ d ∷ s

unfoldable pub trim_right : Bytes → Bytes
trim_right [] = []
trim_right (c ∷ s) = trim_cons c (trim_right s)

unfoldable pub trim_space : Bytes → Bytes
unfolding trim_left trim_right trim_cons is_space
trim_space s = trim_right (trim_left s)

-- `strings.TrimSuffix` with a suffix of one byte.
unfoldable pub trim_suffix : Bytes → ℕ → Bytes
trim_suffix [] b = []
trim_suffix (c ∷ []) b = if c == b then [] else c ∷ []
trim_suffix (c ∷ d ∷ s) b = c ∷ trim_suffix (d ∷ s) b

unfoldable pub lower : ℕ → ℕ
lower c = if leb b'A' c && leb c b'Z' then c + 32 else c

unfoldable pub to_lower : Bytes → Bytes
unfolding lower
to_lower s = map lower s

abbrev pub NonSpace : ℕ → Type 0
NonSpace c = is_space c ≡ false

trim_left_id : (s : Bytes) → All NonSpace s → trim_left s ≡ s
unfolding trim_left
trim_left_id [] h = refl
trim_left_id (c ∷ s) (hc, hs) = rw hc

trim_cons_id : (c : ℕ) (s : Bytes) → is_space c ≡ false → trim_cons c s ≡ c ∷ s
unfolding trim_cons
trim_cons_id c [] h = rw h
trim_cons_id c (d ∷ s) h = refl

trim_right_id : (s : Bytes) → All NonSpace s → trim_right s ≡ s
unfolding trim_right
trim_right_id [] h = refl
trim_right_id (c ∷ s) (hc, hs) = rw (trim_right_id s hs) (trim_cons_id c s hc)

-- A text with no space is its own trim.
pub trim_space_id : (s : Bytes) → All NonSpace s → trim_space s ≡ s
unfolding trim_space
trim_space_id s h = rw (trim_left_id s h) (trim_right_id s h)

pub trim_suffix-append : (s : Bytes) (b : ℕ) → trim_suffix (s ++ b ∷ []) b ≡ s
unfolding trim_suffix
trim_suffix-append [] b = ground arith
trim_suffix-append (c ∷ []) b = ground arith
trim_suffix-append (c ∷ d ∷ s) b = rw (trim_suffix-append (d ∷ s) b)

pub lower_idem : (c : ℕ) → lower (lower c) ≡ lower c
unfolding lower
lower_idem c = ground arith

to_lower_idem : (s : Bytes) → to_lower (to_lower s) ≡ to_lower s
unfolding to_lower
to_lower_idem [] = refl
to_lower_idem (c ∷ s) = cc (lower_idem c, to_lower_idem s)
