-- ===== src/Netguard/Allowlist/RoundTrip.antt =====
-- netguard.go: `parseAllowlist` reads back what `String` prints for each rule.
use curimata.Common.{
  ℕ, ◌≤◌, ◌≡◌, ◌≢◌, inl, inr, refl, ◌∙◌, ap, Bool, true, false, List, [], ◌∷◌, ◌++◌, none, some,
  arith, ◌==◌, if◌then◌else◌, Bytes, codes, bytes_eq, bytes_eq_iff, All, All-append, All-mono,
  Bool-cases, map, append-nil, append_assoc, ok, err,
}
use curimata.Text.Trim.{lower, to_lower, trim_suffix, trim_space, trim_space_id, is_space, NonSpace}
use curimata.Text.Number.{itoa, atoi-itoa, itoa_cons, itoa-IsDigit, IsDigit}
use curimata.Text.Search.{cut_prefix}
use curimata.Netguard.Allowlist.{
  Rule, empty_host, port_number, canonical_host, host_rule, split_host_port, with_port, parse_rule,
  is_skipped, parse_rules, check_rules, parse_allowlist, rule_text,
}
use curimata.Netguard.Allowlist.Split.{split_host_port-append}

-- A byte that `parseAllowlist` keeps as it is, wherever it stands in a host.
abbrev pub IsPlain : ℕ → Type 0
IsPlain c = NonSpace c × (lower c ≡ c) × (c ≢ b'[') × (c ≢ b'#')

-- A rule in the form that `parseAllowlist` gives: plain bytes, no trailing dot, and no leading "*."
-- beside the wildcard's.
pub record IsCanonical (r : Rule) : Type 0 where
  pub some_host : r.host ≢ []
  pub plain : All IsPlain r.host
  pub no_dot : trim_suffix r.host b'.' ≡ r.host
  pub no_star : r.wildcard ≡ false → cut_prefix r.host (codes "*.") ≡ none
  pub port_range : r.port ≤ 65535

port_number-itoa : (n : ℕ) → 1 ≤ n → n ≤ 65535 → port_number (itoa n) ≡ some n
unfolding port_number
port_number-itoa n low high = rw (atoi-itoa n (omega arith), port_number) (ground arith)

abbrev pub port_text : ℕ → Bytes
port_text p = if p == 0 then codes "*" else itoa p

digits-IsPlain : (s : Bytes) → All IsDigit s → All (λ c. IsPlain c × (c ≢ b':')) s
unfolding is_space lower
digits-IsPlain s h =
    All-mono IsDigit (λ c. IsPlain c × (c ≢ b':'))
      (λ c d. ((ground arith, ground arith, omega arith, omega arith), omega arith)) s h

port_text-IsPlain : (p : ℕ) → All (λ c. IsPlain c × (c ≢ b':')) (port_text p)
unfolding is_space lower
port_text-IsPlain p = elim (Bool-cases (p == 0)) [
  | inl z ↦ rw z (((refl, refl, omega arith, omega arith), omega arith), tt)
  | inr n ↦ rw n (digits-IsPlain (itoa p) (itoa-IsDigit p))
]

port_text_cons : (p : ℕ) → (d : ℕ) × (t : Bytes) × (port_text p ≡ d ∷ t)
port_text_cons p = elim (Bool-cases (p == 0)) [
  | inl z ↦ (b'*', [], rw z)
  | inr n ↦ let (d, t, e) = itoa_cons p in (d, t, rw n e)
]

to_lower_id : (s : Bytes) → All IsPlain s → to_lower s ≡ s
unfolding to_lower
to_lower_id [] h = refl
to_lower_id (c ∷ s) ((_, low, _, _), hs) = cc (low, to_lower_id s hs)

canonical_host_id : (h : Bytes) → All IsPlain h → trim_suffix h b'.' ≡ h → canonical_host h ≡ h
unfolding canonical_host
canonical_host_id h plain dot =
    rw (trim_space_id h (All-mono IsPlain NonSpace (λ c p. p.0) h plain), dot) (to_lower_id h plain)

pub with_port-port_text :
    (spec : Bytes) (r : Rule) (p : ℕ)
    → p ≤ 65535
    → r.port ≡ 0
    → with_port spec r (port_text p) ≡ ok (record r { port = p })
unfolding with_port
with_port-port_text spec r p high z = elim (Bool-cases (p == 0)) [
  | inl e ↦ rw e (ground arith)
  | inr n ↦
      let (d, t, e) = itoa_cons p in
      let digit : IsDigit d = (rw e at (itoa-IsDigit p)).0 in
      let no_star : bytes_eq (itoa p) (codes "*") ≡ false =
        rw e (unfold bytes_eq in ground arith) in
      rw (n, no_star, port_number-itoa p (ground arith) high, with_port)
]

pub split_port_text :
    (c : ℕ) (s : Bytes) (p : ℕ)
    → c ≢ b'['
    → split_host_port ((c ∷ s) ++ b':' ∷ port_text p) ≡ some (c ∷ s, port_text p)
split_port_text c s p hc =
    let (d, t, q) = port_text_cons p in
    let no_colon : All (λ c. c ≢ b':') (port_text p) =
      All-mono (λ c. IsPlain c × (c ≢ b':')) (λ c. c ≢ b':') (λ c h. h.1) (port_text p)
        (port_text-IsPlain p) in
    rw q (split_host_port-append c s d t hc (rw q at no_colon))

pub parse_rule_split :
    (spec h t : Bytes)
    → split_host_port spec ≡ some (h, t)
    → let r = host_rule (canonical_host h) in
      parse_rule spec ≡ (if bytes_eq r.host [] then err (empty_host spec) else with_port spec r t)
unfolding parse_rule
parse_rule_split spec h t e = rw (e, parse_rule)

-- One text in the printed form is parsed to its rule.
parse_rule-append :
    (c : ℕ) (s : Bytes) (r : Rule) (p : ℕ)
    → All IsPlain (c ∷ s)
    → trim_suffix (c ∷ s) b'.' ≡ c ∷ s
    → host_rule (c ∷ s) ≡ r
    → r.host ≢ []
    → r.port ≡ 0
    → p ≤ 65535
    → parse_rule ((c ∷ s) ++ b':' ∷ port_text p) ≡ ok (record r { port = p })
parse_rule-append c s r p plain dot e has z high =
    let spec = (c ∷ s) ++ b':' ∷ port_text p in
    let same : host_rule (canonical_host (c ∷ s)) ≡ r =
      rw (canonical_host_id (c ∷ s) plain dot) e in
    parse_rule_split spec (c ∷ s) (port_text p) (split_port_text c s p plain.0.2)
    ∙ rw same (elim (Bool-cases (bytes_eq r.host [])) [
      | inl empty ↦ absurd (has ((bytes_eq_iff r.host []).0 empty))
      | inr full ↦ rw full (with_port-port_text spec r p high z)
    ])

spec_kept :
    (c : ℕ) (s t : Bytes)
    → All IsPlain ((c ∷ s) ++ b':' ∷ t)
    → (trim_space ((c ∷ s) ++ b':' ∷ t) ≡ (c ∷ s) ++ b':' ∷ t)
      × (is_skipped ((c ∷ s) ++ b':' ∷ t) ≡ false)
unfolding is_skipped
spec_kept c s t plain = (
  trim_space_id ((c ∷ s) ++ b':' ∷ t)
      (All-mono IsPlain NonSpace (λ c p. p.0) ((c ∷ s) ++ b':' ∷ t) plain),
  ground arith,
)

-- The loop takes one printed rule and goes on.
parse_rules_cons :
    (c : ℕ) (s : Bytes) (r : Rule) (p : ℕ) (specs : List Bytes) (rules : List Rule)
    → All IsPlain (c ∷ s)
    → trim_suffix (c ∷ s) b'.' ≡ c ∷ s
    → host_rule (c ∷ s) ≡ r
    → r.host ≢ []
    → r.port ≡ 0
    → p ≤ 65535
    → parse_rules (((c ∷ s) ++ b':' ∷ port_text p) ∷ specs) rules
      ≡ parse_rules specs (rules ++ (record r { port = p } ∷ []))
unfolding parse_rules is_space lower
parse_rules_cons c s r p specs rules plain dot e has z high =
    let tail_plain : All IsPlain (port_text p) =
      All-mono (λ c. IsPlain c × (c ≢ b':')) IsPlain (λ c h. h.0) (port_text p)
        (port_text-IsPlain p) in
    let (trimmed, kept) = spec_kept c s (port_text p) (All_append_plain plain tail_plain) in
    rw (trimmed, kept, parse_rule-append c s r p plain dot e has z high)
  where
    All_append_plain :
        All IsPlain (c ∷ s)
        → All IsPlain (port_text p)
        → All IsPlain ((c ∷ s) ++ b':' ∷ port_text p)
    All_append_plain h k =
        All-append IsPlain (c ∷ s) (b':' ∷ port_text p) h
          ((refl, refl, omega arith, omega arith), k)

rule_text_fields :
    (h : Bytes) (w : Bool) (p : ℕ) (specs : List Bytes) (rules : List Rule)
    → let r : Rule = record { host = h; wildcard = w; port = p } in
      IsCanonical r
      → parse_rules (rule_text r ∷ specs) rules ≡ parse_rules specs (rules ++ (r ∷ []))
unfolding rule_text trim_suffix host_rule cut_prefix is_space lower
rule_text_fields [] w p specs rules v = absurd (v.some_host refl)
rule_text_fields (c ∷ s) true p specs rules v =
    parse_rules_cons b'*' (b'.' ∷ c ∷ s) (record { host = c ∷ s; wildcard = true; port = 0 }) p
      specs rules
      ((refl, refl, omega arith, omega arith), ((refl, refl, omega arith, omega arith), v.plain))
      (rw v.no_dot) refl v.some_host refl v.port_range
rule_text_fields (c ∷ s) false p specs rules v =
    parse_rules_cons c s (record { host = c ∷ s; wildcard = false; port = 0 }) p specs rules v.plain
      v.no_dot (rw (v.no_star refl, host_rule)) v.some_host refl v.port_range

parse_rules-rule_text :
    (rs rules : List Rule)
    → All IsCanonical rs
    → parse_rules (map rule_text rs) rules ≡ ok (rules ++ rs)
parse_rules-rule_text [] rules h = unfold parse_rules in rw append-nil
parse_rules-rule_text (r ∷ rs) rules (v, vs) =
    rule_text_fields r.host r.wildcard r.port (map rule_text rs) rules v
    ∙ parse_rules-rule_text rs (rules ++ (r ∷ [])) vs
    ∙ ap (λ (x : List Rule). ok x) (append_assoc rules (r ∷ []) rs)

-- The texts that `String` prints for one or more canonical rules are parsed to those rules, in order.
pub parse_allowlist-rule_text :
    (r : Rule) (rs : List Rule)
    → All IsCanonical (r ∷ rs)
    → parse_allowlist (map rule_text (r ∷ rs)) ≡ ok (record { rules = r ∷ rs })
unfolding parse_allowlist check_rules
parse_allowlist-rule_text r rs v = rw (parse_rules-rule_text (r ∷ rs) [] v)
