-- ===== src/Netguard/Allowlist/Advice.antt =====
-- netguard.go: a refused target, written down as `net.JoinHostPort` does, is a rule that opens it.
use curimata.Common.{
  ℕ, ◌≤◌, ◌≡◌, ◌≢◌, inl, inr, refl, ◌∙◌, true, false, [], ◌∷◌, some, arith, Bytes, codes, bytes_eq,
  bytes_eq_iff, bytes_eq_refl, All, Lacks, All-append, All-mono, Bool-cases, Option-cases, ok,
}
use curimata.Text.Trim.{trim_space, trim_space_id, is_space, NonSpace}
use curimata.Text.Number.{itoa, itoa_cons, itoa-IsDigit, IsDigit}
use curimata.Text.Search.{cut_prefix, cut_prefix-append, contains, has_suffix, append→has_suffix}
use curimata.Text.Split.{join_host_port}
use curimata.Netguard.Allowlist.{
  Rule, Allowlist, split_host_port, canonical_host, host_rule, parse_rule, is_skipped, rule_permits,
  parse_rules, check_rules, parse_allowlist, permits, any_permits,
}
use curimata.Netguard.Allowlist.Split.{split_host_port-join_host_port}
use curimata.Netguard.Allowlist.RoundTrip.{parse_rule_split, with_port-port_text, port_text}
use curimata.Netguard.Allowlist.Parsing.{host_rule_port}

-- The rule of a host, on its port or on every port, permits the host.
host_rule_permits :
    (h : Bytes) (port : ℕ) → rule_permits (record (host_rule h) { port = port }) h port ≡ true
unfolding rule_permits host_rule
host_rule_permits h port = elim (Option-cases (cut_prefix h (codes "*."))) [
  | inl e ↦ rw (e, host_rule) (rw (bytes_eq_refl h) (ground arith))
  | inr (after, e) ↦
      let q = cut_prefix-append h (codes "*.") after e in
      let suffix : has_suffix h (b'.' ∷ after) ≡ true =
        rw q (append→has_suffix (b'*' ∷ []) (b'.' ∷ after)) in
      rw (e, host_rule) (rw suffix (ground arith))
]

itoa_plain : (port : ℕ) → All (λ c. NonSpace c × (c ≢ b':')) (itoa port)
unfolding is_space
itoa_plain port =
    All-mono IsDigit (λ c. NonSpace c × (c ≢ b':')) (λ c d. (ground arith, omega arith)) (itoa port)
      (itoa-IsDigit port)

join_host_port-NonSpace :
    (h p : Bytes) → All NonSpace h → All NonSpace p → All NonSpace (join_host_port h p)
unfolding join_host_port is_space
join_host_port-NonSpace h p hh hp = elim (Bool-cases (contains h b':')) [
  | inl e ↦ rw e (refl, All-append NonSpace h (b']' ∷ b':' ∷ p) hh (refl, (refl, hp)))
  | inr e ↦ rw e (All-append NonSpace h (b':' ∷ p) hh (refl, hp))
]

join_host_port_kept :
    (c : ℕ) (s p : Bytes) → c ≢ b'#' → is_skipped (join_host_port (c ∷ s) p) ≡ false
unfolding join_host_port is_skipped
join_host_port_kept c s p hc = ground arith

join_host_port-itoa :
    (c : ℕ) (s : Bytes) (port : ℕ)
    → c ≢ b'['
    → Lacks b']' (c ∷ s)
    → split_host_port (join_host_port (c ∷ s) (itoa port)) ≡ some (c ∷ s, itoa port)
join_host_port-itoa c s port hc hs =
    let (d, t, q) = itoa_cons port in
    let no_colon : Lacks b':' (itoa port) =
      All-mono (λ c. NonSpace c × (c ≢ b':')) (λ c. c ≢ b':') (λ c h. h.1) (itoa port)
        (itoa_plain port) in
    rw q (split_host_port-join_host_port c s d t hc hs (rw q at no_colon))

port_text_pos : (port : ℕ) → 1 ≤ port → port_text port ≡ itoa port
port_text_pos port h = ground arith

advice_parsed :
    (c : ℕ) (s : Bytes) (port : ℕ)
    → c ≢ b'['
    → Lacks b']' (c ∷ s)
    → (host_rule (canonical_host (c ∷ s))).host ≢ []
    → 1 ≤ port
    → port ≤ 65535
    → parse_rule (join_host_port (c ∷ s) (itoa port))
      ≡ ok (record (host_rule (canonical_host (c ∷ s))) { port = port })
advice_parsed c s port bracket close has low high =
    let spec = join_host_port (c ∷ s) (itoa port) in
    let q = host_rule (canonical_host (c ∷ s)) in
    parse_rule_split spec (c ∷ s) (itoa port) (join_host_port-itoa c s port bracket close)
    ∙ elim (Bool-cases (bytes_eq q.host [])) [
      | inl empty ↦ absurd (has ((bytes_eq_iff q.host []).0 empty))
      | inr full ↦ rw full (
          rw (port_text_pos port low) at
            (with_port-port_text spec q port high (host_rule_port (canonical_host (c ∷ s)))))
    ]

-- The -allow argument that a refusal proposes is accepted, and its rule permits the refused target:
-- for a host without spaces or brackets that does not begin with '#' and that leaves a host once the wildcard
-- and one dot at the end are taken off, and a port from 1 to 65535.
pub permits-parse_allowlist :
    (c : ℕ) (s : Bytes) (port : ℕ)
    → All NonSpace (c ∷ s)
    → c ≢ b'['
    → c ≢ b'#'
    → Lacks b']' (c ∷ s)
    → (host_rule (canonical_host (c ∷ s))).host ≢ []
    → 1 ≤ port
    → port ≤ 65535
    → (a : Allowlist) × (parse_allowlist (join_host_port (c ∷ s) (itoa port) ∷ []) ≡ ok a)
      × (permits a (c ∷ s) port ≡ true)
unfolding parse_allowlist parse_rules check_rules permits any_permits
permits-parse_allowlist c s port clean bracket hash close has low high =
    let spec = join_host_port (c ∷ s) (itoa port) in
    let q = host_rule (canonical_host (c ∷ s)) in
    let r : Rule = record q { port = port } in
    let digits : All NonSpace (itoa port) =
      All-mono (λ c. NonSpace c × (c ≢ b':')) NonSpace (λ c h. h.0) (itoa port) (itoa_plain port) in
    let trimmed : trim_space spec ≡ spec =
      trim_space_id spec (join_host_port-NonSpace (c ∷ s) (itoa port) clean digits) in
    let parsed : parse_rule spec ≡ ok r = advice_parsed c s port bracket close has low high in
    (
      record { rules = r ∷ [] },
      rw (trimmed, join_host_port_kept c s (itoa port) hash, parsed),
      rw (host_rule_permits (canonical_host (c ∷ s)) port),
    )
