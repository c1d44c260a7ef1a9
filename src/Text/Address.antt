-- ===== src/Text/Address.antt =====
-- `net.IP.String`: dotted decimals for four bytes and for IPv4-mapped addresses, groups of hex digits
-- with the longest run of zero groups left out for other addresses of sixteen bytes.
use curimata.Common.{
  ℕ, zero, suc, ◌+◌, ◌*◌, ◌-◌, ◌/◌, ◌%◌, ◌&&◌, List, [], ◌∷◌, ◌++◌, map, ltb, leb, ◌==◌,
  if◌then◌else◌, Bytes, codes, bytes_eq, length, take, drop,
}
use curimata.Text.Number.{itoa}
use curimata.Text.Split.{join}

unfoldable pub hex_digit : ℕ → ℕ
hex_digit n = if ltb n 10 then b'0' + n else b'a' + n - 10

-- The hex digits of a number, at least one and at most `fuel`; four serve a group of 16 bits.
hex_digits : ℕ → ℕ → Bytes
unfolding hex_digit
hex_digits zero n = []
hex_digits (suc fuel) n =
    let front = hex_digits fuel (n / 16) in
    if ltb n 16 then hex_digit n ∷ [] else front ++ (hex_digit (n % 16) ∷ [])

groups : Bytes → List ℕ
groups [] = []
groups (c ∷ []) = []
groups (c ∷ d ∷ s) = (c * 256 + d) ∷ groups s

zero_run : List ℕ → ℕ
zero_run [] = 0
zero_run (zero ∷ gs) = suc (zero_run gs)
zero_run (suc n ∷ gs) = 0

-- The first longest run of at least two zero groups, as its start and its length; (0, 0) if none.
longest_run : List ℕ → ℕ → ℕ × ℕ → ℕ × ℕ
unfolding zero_run
longest_run [] i best = best
longest_run (g ∷ gs) i best =
    let n = zero_run (g ∷ gs) in
    longest_run gs (suc i) (if leb 2 n && ltb best.1 n then (i, n) else best)

hex_groups : List ℕ → Bytes
unfolding hex_digits join
hex_groups gs = join (map (hex_digits 4) gs) (codes ":")

ip6_text : List ℕ → Bytes
unfolding longest_run hex_groups
ip6_text gs =
    let (start, n) = longest_run gs 0 (0, 0) in
    if n == 0
    then hex_groups gs
    else hex_groups (take start gs) ++ (codes "::" ++ hex_groups (drop (start + n) gs))

dotted : Bytes → Bytes
unfolding itoa join
dotted raw = join (map itoa raw) (codes ".")

abbrev pub mapped_prefix : Bytes
mapped_prefix = 0 ∷ 0 ∷ 0 ∷ 0 ∷ 0 ∷ 0 ∷ 0 ∷ 0 ∷ 0 ∷ 0 ∷ 255 ∷ 255 ∷ []

unfoldable pub ip_text : Bytes → Bytes
unfolding dotted ip6_text groups bytes_eq
ip_text raw =
    if length raw == 4
    then dotted raw
    else if bytes_eq (take 12 raw) mapped_prefix
    then dotted (drop 12 raw)
    else ip6_text (groups raw)
