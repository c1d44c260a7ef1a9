-- ===== src/Policy/Spelling.antt =====
-- policy.go: the short spelling of an allow rule, against `parseAllowlist` on the same text.
use curimata.Common.{
  ℕ, ◌≤◌, ◌≡◌, ◌≢◌, ◌↔◌, inl, inr, refl, ◌⊎◌, true, false, List, [], ◌∷◌, ◌++◌, some, arith, Bytes,
  codes, bytes_eq, bytes_eq_iff, Bool-cases, Option-cases, ok, ◌==◌,
}
use curimata.Common.Int.{ℤ, pos, negsuc}
use curimata.Text.Number.{itoa_ℤ, atoi}
use curimata.Netguard.Allowlist.{
  Rule, canonical_host, host_rule, port_number, with_port, split_host_port, parse_rule,
}
use curimata.Netguard.Allowlist.Parsing.{host_rule_port}
use curimata.Netguard.Allowlist.RoundTrip.{
  parse_rule_split, split_port_text, with_port-port_text, port_text,
}
use curimata.Policy.{AllowEntry, port_entry, short_entry, entry_specs}
use curimata.Policy.Checks.{IsPort, IsEntry}

entry_text : Bytes → ℕ → Bytes
entry_text host p = host ++ (b':' ∷ port_text p)

-- What a text is parsed to, from its host and from what `with_port` makes of its port.
parse_rule_value :
    (spec h t : Bytes) (k : ℕ)
    → split_host_port spec ≡ some (h, t)
    → let q = host_rule (canonical_host h) in
      with_port spec q t ≡ ok (record q { port = k })
      → (r : Rule)
      → (parse_rule spec ≡ ok r) ↔ ((bytes_eq q.host [] ≡ false) × (record q { port = k } ≡ r))
parse_rule_value spec h t k split e r =
    let q = host_rule (canonical_host h) in
    let value = parse_rule_split spec h t split in
    elim (Bool-cases (bytes_eq q.host [])) [
      | inl b ↦ rw (value, b) (λ x. absurd (cc), λ (f, _). absurd (cc))
      | inr b ↦ rw (value, b, e) (λ x. (refl, cc), λ (_, y). cc)
    ]

port_number_of :
    (text : Bytes) (k : ℕ)
    → atoi text ≡ some (pos k)
    → 1 ≤ k
    → k ≤ 65535
    → port_number text ≡ some k
unfolding port_number
port_number_of text k e low high = rw (e, port_number) (ground arith)

-- A text with the port `t`, and the text with the port `k` that it stands for.
same_rules :
    (spec : Bytes) (c : ℕ) (s t : Bytes) (k : ℕ)
    → c ≢ b'['
    → k ≤ 65535
    → split_host_port spec ≡ some (c ∷ s, t)
    → ((q : Rule) → q.port ≡ 0 → with_port spec q t ≡ ok (record q { port = k }))
    → (r : Rule) → (parse_rule (entry_text (c ∷ s) k) ≡ ok r) ↔ (parse_rule spec ≡ ok r)
unfolding entry_text
same_rules spec c s t k hc high split e r =
    let q = host_rule (canonical_host (c ∷ s)) in
    let text = (c ∷ s) ++ (b':' ∷ port_text k) in
    let z = host_rule_port (canonical_host (c ∷ s)) in
    let one =
      parse_rule_value text (c ∷ s) (port_text k) k (split_port_text c s k hc)
        (with_port-port_text text q k high z) r in
    let two = parse_rule_value spec (c ∷ s) t k split (e q z) r in
    (λ x. two.1 (one.0 x), λ x. one.1 (two.0 x))

with_port_number :
    (spec t : Bytes) (k : ℕ)
    → bytes_eq t (codes "*") ≡ false
    → atoi t ≡ some (pos k)
    → 1 ≤ k
    → k ≤ 65535
    → (q : Rule) → with_port spec q t ≡ ok (record q { port = k })
unfolding with_port
with_port_number spec t k star e low high q =
    rw (star, port_number_of t k e low high, with_port) refl

with_port_star :
    (spec t : Bytes)
    → bytes_eq t (codes "*") ≡ true
    → (q : Rule) → q.port ≡ 0
    → with_port spec q t ≡ ok (record q { port = 0 })
with_port_star spec t star q z =
    let e : t ≡ port_text 0 = (bytes_eq_iff t (codes "*")).0 star in
    rw e (with_port-port_text spec q 0 (omega arith) z)

-- Where the host and the ports of a short spelling come from.
abbrev IsPortText : Bytes → List ℤ → Type 0
IsPortText t ports =
    ((bytes_eq t (codes "*") ≡ true) × (ports ≡ []))
    ⊎ ((bytes_eq t (codes "*") ≡ false) × (n : ℤ) × (atoi t ≡ some n) × (ports ≡ n ∷ []))

port_entry_inv :
    (short h t : Bytes) {e : AllowEntry}
    → port_entry short h t ≡ ok e
    → (h ≡ e.host) × IsPortText t e.ports
unfolding port_entry
port_entry_inv short h t {e} x = elim (Bool-cases (bytes_eq t (codes "*"))) [
  | inl b ↦ let y = rw (b, port_entry) at x in (cc, inl (b, cc))
  | inr b ↦ elim (Option-cases (atoi t)) [
    | inl a ↦ absurd (let y = rw (b, a, port_entry) at x in cc)
    | inr (n, a) ↦ let y = rw (b, a, port_entry) at x in (cc, inr (b, n, a, cc))
  ]
]

short_entry_inv :
    (short : Bytes) {e : AllowEntry}
    → short_entry short ≡ ok e
    → (t : Bytes) × (split_host_port short ≡ some (e.host, t)) × IsPortText t e.ports
unfolding short_entry
short_entry_inv short {e} x = elim (Option-cases (split_host_port short)) [
  | inl a ↦ absurd (let y = rw (a, short_entry) at x in cc)
  | inr ((h, t), split) ↦
      let y : port_entry short h t ≡ ok e = rw (split, short_entry) at x in
      let (same, port) = port_entry_inv short h t y in (t, rw same at split, port)
]

port_pos : (n : ℤ) → IsPort n → (k : ℕ) × (n ≡ pos k) × (1 ≤ k) × (k ≤ 65535)
port_pos (pos k) (l, h) = (k, refl, l, h)
port_pos (negsuc k) h = absurd h

entry_specs_star :
    (e : AllowEntry) (host : Bytes)
    → e.host ≡ host
    → e.ports ≡ []
    → entry_specs e ≡ entry_text host 0 ∷ []
unfolding entry_specs entry_text
entry_specs_star e host h p = rw (p, h, entry_specs) refl

entry_specs_number :
    (e : AllowEntry) (host : Bytes) (k : ℕ)
    → e.host ≡ host
    → e.ports ≡ pos k ∷ []
    → 1 ≤ k
    → entry_specs e ≡ entry_text host k ∷ []
unfolding entry_specs entry_text itoa_ℤ
entry_specs_number e host k h p low =
    let z : (k == 0) ≡ false = ground arith in rw (p, h, z, entry_specs) refl

-- The short spelling: the entry that it gives is accepted as the text itself would be, if the entry passes
-- the checks of the policy file and its host begins with no bracket.
pub parse_rule-short_entry :
    (short : Bytes) (c : ℕ) (s : Bytes) {e : AllowEntry}
    → short_entry short ≡ ok e
    → e.host ≡ c ∷ s
    → c ≢ b'['
    → IsEntry e
    → (text : Bytes) × (entry_specs e ≡ text ∷ [])
      × ((r : Rule) → (parse_rule text ≡ ok r) ↔ (parse_rule short ≡ ok r))
parse_rule-short_entry short c s {e} h host hc v =
    let (t, split, port) = short_entry_inv short h in
    let at_host : split_host_port short ≡ some (c ∷ s, t) = rw host at split in
    elim port [
      | inl (star, ports) ↦ (
        entry_text (c ∷ s) 0,
        entry_specs_star e (c ∷ s) host ports,
        same_rules short c s t 0 hc (omega arith) at_host (with_port_star short t star),
      )
      | inr (star, n, number, ports) ↦
          let (k, is_pos, low, high) = port_pos n ((rw ports at v.port_range).0) in
          let number_k : atoi t ≡ some (pos k) = rw is_pos at number in
          (
            entry_text (c ∷ s) k,
            entry_specs_number e (c ∷ s) k host (rw is_pos at ports) low,
            same_rules short c s t k hc high at_host
                (λ q z. with_port_number short t k star number_k low high q),
          )
    ]
