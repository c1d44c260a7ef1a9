-- ===== src/Text/Quote.antt =====
-- `strconv.Quote` on ASCII.
use curimata.Common.{ℕ, ◌/◌, ◌%◌, ◌||◌, [], ◌∷◌, ◌++◌, ltb, ◌==◌, if◌then◌else◌, Bytes}
use curimata.Text.Address.{hex_digit}

abbrev escape : ℕ → Bytes
escape c = b'\\' ∷ c ∷ []

unfoldable pub quote_byte : ℕ → Bytes
quote_byte c =
    if c == 34 || c == 92
    then escape c
    else if c == 7
    then escape b'a'
    else if c == 8
    then escape b'b'
    else if c == 9
    then escape b't'
    else if c == 10
    then escape b'n'
    else if c == 11
    then escape b'v'
    else if c == 12
    then escape b'f'
    else if c == 13
    then escape b'r'
    else if ltb c 32 || c == 127
    then b'\\' ∷ b'x' ∷ hex_digit (c / 16) ∷ hex_digit (c % 16) ∷ []
    else c ∷ []

unfoldable pub quote_bytes : Bytes → Bytes
unfolding quote_byte hex_digit
quote_bytes [] = []
quote_bytes (c ∷ s) = quote_byte c ++ quote_bytes s

unfoldable pub quote : Bytes → Bytes
unfolding quote_bytes
quote s = 34 ∷ (quote_bytes s ++ (34 ∷ []))
