-- ===== src/Policy/Rules.antt =====
-- policy.go and main.go: the rules that the allowlist gets from the policy and from the command line.
use curimata.Common.{
  ℕ, ◌≤◌, ◌≡◌, ◌↔◌, inl, inr, refl, false, ◌||◌, List, [], ◌∷◌, ◌++◌, map, none, some, arith, Bytes,
  codes, All, Result-cases, ok, ◌==◌,
}
use curimata.Common.Int.{pos}
use curimata.Text.Number.{itoa_ℤ}
use curimata.Netguard.Allowlist.{Rule, Allowlist, parse_allowlist, permits, rule_text}
use curimata.Netguard.Allowlist.Matching.{permits-append}
use curimata.Netguard.Allowlist.Parsing.{parse_allowlist-append}
use curimata.Netguard.Allowlist.RoundTrip.{IsCanonical, parse_allowlist-rule_text}
use curimata.Policy.{Policy, entry_specs, specs, rule_specs, parse_some, load_allowlist}

parse_some_ok :
    (xs : List Bytes) {a : Allowlist} → parse_allowlist xs ≡ ok a → parse_some xs ≡ ok (some a)
unfolding parse_some
parse_some_ok [] h = absurd (unfold parse_allowlist in cc)
parse_some_ok (s ∷ xs) h = rw h refl

-- Rules of the policy file and of the command line that would each be accepted alone are accepted together,
-- and then permit what one of the two permits.
pub load_allowlist-permits :
    {F : Type 0} (flags : List Bytes) (p : Policy F) {a b : Allowlist}
    → parse_allowlist (specs p.network) ≡ ok a
    → parse_allowlist flags ≡ ok b
    → (both : Allowlist) × (load_allowlist flags (some p) ≡ ok (some both))
      × ((host : Bytes) (port : ℕ)
          → permits both host port ≡ (permits a host port || permits b host port))
unfolding load_allowlist rule_specs
load_allowlist-permits flags p {a} {b} ha hb = (
  record { rules = a.rules ++ b.rules },
  parse_some_ok (specs p.network ++ flags) (parse_allowlist-append (specs p.network) flags ha hb),
  λ host port. permits-append a.rules b.rules host port,
)

parse_some-none : (xs : List Bytes) → (parse_some xs ≡ ok none) ↔ (xs ≡ [])
unfolding parse_some
parse_some-none [] = (λ h. refl, λ h. refl)
parse_some-none (s ∷ xs) = elim (Result-cases (parse_allowlist (s ∷ xs))) [
  | inl (a, e) ↦ (rw (e, parse_some) (λ h. absurd (cc)), λ h. absurd (cc))
  | inr (x, e) ↦ (rw (e, parse_some) (λ h. absurd (cc)), λ h. absurd (cc))
]

append-eq-nil : (xs ys : List Bytes) → (xs ++ ys ≡ []) ↔ ((xs ≡ []) × (ys ≡ []))
append-eq-nil [] ys = (λ h. (refl, h), λ (_, h). h)
append-eq-nil (x ∷ xs) ys = (λ h. absurd (cc), λ (h, _). absurd (cc))

-- A run gets no allowlist, and so no network, exactly if neither the policy nor the command line has a rule:
-- rules that are all comments are an error.
load_allowlist-none :
    {F : Type 0} (flags : List Bytes) (p : Policy F)
    → (load_allowlist flags (some p) ≡ ok none) ↔ ((specs p.network ≡ []) × (flags ≡ []))
unfolding load_allowlist rule_specs
load_allowlist-none flags p =
    let xs = specs p.network in
    (
      λ h. (append-eq-nil xs flags).0 ((parse_some-none (xs ++ flags)).0 h),
      λ h. (parse_some-none (xs ++ flags)).1 ((append-eq-nil xs flags).1 h),
    )

-- The rules of an entry on one host.
abbrev entry_rule : Bytes → ℕ → Rule
entry_rule host port = record { host = host; wildcard = false; port = port }

entry_texts :
    (host : Bytes) (ports : List ℕ)
    → All (λ p. 1 ≤ p) ports
    → map (λ port. host ++ (codes ":" ++ itoa_ℤ port)) (map pos ports)
      ≡ map rule_text (map (entry_rule host) ports)
unfolding itoa_ℤ rule_text
entry_texts host [] h = refl
entry_texts host (p ∷ ports) (h, hs) =
    let e : (p == 0) ≡ false = ground arith in rw (e, entry_texts host ports hs) refl

rules-IsCanonical :
    (host : Bytes) (ports : List ℕ)
    → All (λ p. IsCanonical (entry_rule host p)) ports
    → All IsCanonical (map (entry_rule host) ports)
rules-IsCanonical host [] h = tt
rules-IsCanonical host (p ∷ ports) (h, hs) = (h, rules-IsCanonical host ports hs)

-- The object spelling: the entry of a host in canonical form is accepted, with one rule for each of its
-- ports, and with one rule for every port when it names none.
parse_allowlist-entry_specs :
    (host : Bytes) (ports : List ℕ)
    → All (λ p. IsCanonical (entry_rule host p)) (0 ∷ ports)
    → All (λ p. 1 ≤ p) ports
    → parse_allowlist (entry_specs (record { host = host; ports = map pos ports }))
      ≡ ok (record { rules = map (entry_rule host) (elim ports [ [] ↦ 0 ∷ [] | p ∷ ps ↦ p ∷ ps ]) })
unfolding entry_specs rule_text
parse_allowlist-entry_specs host [] (h, _) low =
    parse_allowlist-rule_text (entry_rule host 0) [] (h, tt)
parse_allowlist-entry_specs host (p ∷ ports) (_, h) low = rw (entry_texts host (p ∷ ports) low) (
    parse_allowlist-rule_text (entry_rule host p) (map (entry_rule host) ports)
      (rules-IsCanonical host (p ∷ ports) h))
