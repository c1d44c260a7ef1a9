-- ===== src/Text/Tests.antt =====
-- Go's numbers and addresses at concrete texts.
use curimata.Common.{◌≡◌, refl, [], ◌∷◌, ◌++◌, none, some, codes}
use curimata.Common.Int.{pos, negsuc}
use curimata.Text.Number.{itoa, atoi}
use curimata.Text.Address.{ip_text, mapped_prefix}

atoi_tests :
    (atoi (codes "80") ≡ some (pos 80))
    × (atoi (codes "+80") ≡ some (pos 80))
    × (atoi (codes "-1") ≡ some (negsuc 0))
    × (atoi (codes "8x") ≡ none)
    × (atoi [] ≡ none)
    × (atoi (codes "-") ≡ none)
    × (atoi (codes "9223372036854775808") ≡ none)
unfolding atoi
atoi_tests = (refl, refl, refl, refl, refl, refl, refl)

itoa_tests : (itoa 0 ≡ codes "0") × (itoa 65535 ≡ codes "65535")
unfolding itoa
itoa_tests = (refl, refl)

ip_text_tests :
    (ip_text (10 ∷ 0 ∷ 0 ∷ 5 ∷ []) ≡ codes "10.0.0.5")
    × (ip_text (mapped_prefix ++ 1 ∷ 2 ∷ 3 ∷ 4 ∷ []) ≡ codes "1.2.3.4")
    × (ip_text (0x20 ∷ 0x01 ∷ 0x0d ∷ 0xb8 ∷ 0 ∷ 0 ∷ 0 ∷ 0 ∷ 0 ∷ 0 ∷ 0 ∷ 0 ∷ 0 ∷ 0 ∷ 0 ∷ 1 ∷ [])
        ≡ codes "2001:db8::1")
    × (ip_text (0 ∷ 0 ∷ 0 ∷ 0 ∷ 0 ∷ 0 ∷ 0 ∷ 0 ∷ 0 ∷ 0 ∷ 0 ∷ 0 ∷ 0 ∷ 0 ∷ 0 ∷ 0 ∷ []) ≡ codes "::")
unfolding ip_text
ip_text_tests = (refl, refl, refl, refl)
