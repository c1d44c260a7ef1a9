-- ===== src/Netguard/Allowlist/Parsing.antt =====
-- netguard.go: what `parseAllowlist` accepts, and how lists of texts join.
use curimata.Common.{
  ℕ, ◌≤◌, ◌≡◌, ◌≢◌, inl, inr, refl, List, [], ◌∷◌, ◌++◌, none, some, arith, ◌==◌, if◌then◌else◌,
  Bytes, codes, bytes_eq, bytes_eq_iff, All, All-append, Bool-cases, Option-cases, append-nil,
  append_assoc, ok, err, ◌>>=◌, >>=-eq-ok, Result-cases,
}
use curimata.Text.Trim.{lower, lower_idem, to_lower, trim_space}
use curimata.Text.Search.{cut_prefix}
use curimata.Netguard.Allowlist.{
  Rule, Allowlist, expected_host_port, empty_host, port_number, canonical_host, host_rule,
  split_host_port, with_port, parse_rule, is_skipped, parse_rules, check_rules, parse_allowlist,
}

abbrev pub IsLower : ℕ → Type 0
IsLower c = lower c ≡ c

-- What holds of every rule of an allowlist: there is a host, in lower case, and the port is 0 for
-- every port, or a port number.
pub record IsValid (r : Rule) : Type 0 where
  pub some_host : r.host ≢ []
  pub lower_case : All IsLower r.host
  pub port_range : r.port ≤ 65535

to_lower-IsLower : (s : Bytes) → All IsLower (to_lower s)
unfolding to_lower
to_lower-IsLower [] = tt
to_lower-IsLower (c ∷ s) = (lower_idem c, to_lower-IsLower s)

canonical_host-IsLower : (h : Bytes) → All IsLower (canonical_host h)
unfolding canonical_host
canonical_host-IsLower h = to_lower-IsLower _

cut_prefix-All :
    (P : ℕ → Type 0) (s p : Bytes) (rest : Bytes)
    → cut_prefix s p ≡ some rest
    → All P s
    → All P rest
unfolding cut_prefix
cut_prefix-All P s [] rest h a = let e : s ≡ rest = cc in rw (← e) a
cut_prefix-All P [] (p ∷ ps) rest h a = cc
cut_prefix-All P (c ∷ s) (p ∷ ps) rest h (a, as') = elim (Bool-cases (c == p)) [
  | inl e ↦ cut_prefix-All P s ps rest (rw e at h) as'
  | inr e ↦ let q : none ≡ some rest = rw e at h in cc
]

host_rule-IsLower : (h : Bytes) → All IsLower h → All IsLower (host_rule h).host
unfolding host_rule
host_rule-IsLower h a = elim (Option-cases (cut_prefix h (codes "*."))) [
  | inl e ↦ rw (e, host_rule) a
  | inr (after, e) ↦ rw (e, host_rule) (cut_prefix-All IsLower h (codes "*.") after e a)
]

pub host_rule_port : (h : Bytes) → (host_rule h).port ≡ 0
unfolding host_rule
host_rule_port h = ground arith

pub port_number_range : (text : Bytes) {p : ℕ} → port_number text ≡ some p → (1 ≤ p) × (p ≤ 65535)
unfolding port_number
port_number_range text h = ground arith

with_port_parts :
    (spec : Bytes) (r : Rule) (text : Bytes) {q : Rule}
    → with_port spec r text ≡ ok q
    → r.port ≡ 0
    → (q.host ≡ r.host) × (q.wildcard ≡ r.wildcard) × (q.port ≤ 65535)
unfolding with_port
with_port_parts spec r text h z = elim (Bool-cases (bytes_eq text (codes "*"))) [
  | inl e ↦ ground arith
  | inr e ↦ elim (Option-cases (port_number text)) [
    | inl n ↦ ground arith
    | inr (p, s) ↦ ground (arith, port_number_range text s)
  ]
]

checked_rule-IsValid :
    (spec text : Bytes) (q : Rule) {r : Rule}
    → All IsLower q.host
    → q.port ≡ 0
    → (if bytes_eq q.host [] then err (empty_host spec) else with_port spec q text) ≡ ok r
    → IsValid r
checked_rule-IsValid spec text q {r} low z h = elim (Bool-cases (bytes_eq q.host [])) [
  | inl e ↦ let g : err (empty_host spec) ≡ ok r = rw e at h in cc
  | inr e ↦
      let g : with_port spec q text ≡ ok r = rw e at h in
      let (same, _, range) = with_port_parts spec q text g z in
      record {
        some_host = λ n. cc (e, (bytes_eq_iff q.host []).1 (cc (same, n)));
        lower_case = rw same low;
        port_range = range;
      }
]

parse_rule-IsValid : (spec : Bytes) {r : Rule} → parse_rule spec ≡ ok r → IsValid r
unfolding parse_rule
parse_rule-IsValid spec {r} h = elim (Option-cases (split_host_port spec)) [
  | inl n ↦ let q : err (expected_host_port spec) ≡ ok r = rw (n, parse_rule) at h in cc
  | inr ((host, text), s) ↦
      let g = rw (s, parse_rule) at h in
      let c = canonical_host host in
      checked_rule-IsValid spec text (host_rule c)
        (host_rule-IsLower c (canonical_host-IsLower host)) (host_rule_port c) g
]

parse_rules_step :
    (s : Bytes) (specs : List Bytes) (rules : List Rule)
    → parse_rules (s ∷ specs) rules ≡ (
        if is_skipped (trim_space s)
        then parse_rules specs rules
        else (parse_rule (trim_space s) >>= λ r. parse_rules specs (rules ++ (r ∷ []))))
unfolding parse_rules
parse_rules_step s specs rules = refl

parse_rules-IsValid :
    (specs : List Bytes) (rules : List Rule) {out : List Rule}
    → All IsValid rules
    → parse_rules specs rules ≡ ok out
    → All IsValid out
parse_rules-IsValid [] rules {out} v h =
    let e : rules ≡ out = unfold parse_rules in cc h in rw (← e) v
parse_rules-IsValid (s ∷ specs) rules {out} v h =
    let spec = trim_space s in
    let g = rw (parse_rules_step s specs rules) at h in
    elim (Bool-cases (is_skipped spec)) [
      | inl skip ↦ parse_rules-IsValid specs rules v (rw skip at g)
      | inr kept ↦
          let (r, p, q) =
            >>=-eq-ok (parse_rule spec) (λ r. parse_rules specs (rules ++ (r ∷ [])))
              (rw kept at g) in
          parse_rules-IsValid specs (rules ++ (r ∷ []))
            (All-append IsValid rules (r ∷ []) v (parse_rule-IsValid spec p, tt)) q
    ]

-- An allowlist that was parsed has at least one rule, and each of its rules has a host, in lower case, and
-- the port 0 for every port, or a port number.
pub parse_allowlist-IsValid :
    (specs : List Bytes) {a : Allowlist}
    → parse_allowlist specs ≡ ok a
    → (a.rules ≢ []) × All IsValid a.rules
unfolding parse_allowlist check_rules
parse_allowlist-IsValid specs {a} h =
    let (rules, p, q) = >>=-eq-ok (parse_rules specs []) check_rules h in
    let v = parse_rules-IsValid specs [] tt p in go rules v q
  where
    go :
        (rules : List Rule)
        → All IsValid rules
        → check_rules rules ≡ ok a
        → (a.rules ≢ []) × All IsValid a.rules
    go [] v q = cc
    go (r ∷ rules) v q = let e : r ∷ rules ≡ a.rules = cc in (λ n. cc, rw (← e) v)

-- What the loop has so far stands in front of what it adds.
parse_rules_onto :
    (specs : List Bytes) (rules : List Rule)
    → parse_rules specs rules ≡ (parse_rules specs [] >>= λ more. ok (rules ++ more))
parse_rules_onto [] rules = unfold parse_rules in rw append-nil
parse_rules_onto (s ∷ specs) rules =
    let spec = trim_space s in
    rw (parse_rules_step s specs rules, parse_rules_step s specs [])
      (elim (Bool-cases (is_skipped spec)) [
        | inl skip ↦ rw skip (parse_rules_onto specs rules)
        | inr kept ↦ rw kept (elim (Result-cases (parse_rule spec)) [
          | inl (r, e) ↦ rw e (
              rw (parse_rules_onto specs (rules ++ (r ∷ [])), parse_rules_onto specs (r ∷ []))
                (elim (Result-cases (parse_rules specs [])) [
                  | inl (more, m) ↦ rw m (rw append_assoc)
                  | inr (x, m) ↦ rw m
                ]))
          | inr (x, e) ↦ rw e
        ])
      ])

parse_rules-append :
    (xs ys : List Bytes) (rules : List Rule)
    → parse_rules (xs ++ ys) rules ≡ (parse_rules xs rules >>= parse_rules ys)
parse_rules-append [] ys rules = unfold parse_rules in refl
parse_rules-append (s ∷ xs) ys rules =
    let spec = trim_space s in
    rw (parse_rules_step s (xs ++ ys) rules, parse_rules_step s xs rules)
      (elim (Bool-cases (is_skipped spec)) [
        | inl skip ↦ rw skip (parse_rules-append xs ys rules)
        | inr kept ↦ rw kept (elim (Result-cases (parse_rule spec)) [
          | inl (r, e) ↦ rw e (parse_rules-append xs ys (rules ++ (r ∷ [])))
          | inr (x, e) ↦ rw e
        ])
      ])

check_rules_inv : (rules : List Rule) {a : Allowlist} → check_rules rules ≡ ok a → a.rules ≡ rules
unfolding check_rules
check_rules_inv [] h = cc
check_rules_inv (r ∷ rules) h = cc

-- Two lists of texts that are each accepted are accepted together, and the rules are those of the
-- first followed by those of the second.
pub parse_allowlist-append :
    (xs ys : List Bytes) {a b : Allowlist}
    → parse_allowlist xs ≡ ok a
    → parse_allowlist ys ≡ ok b
    → parse_allowlist (xs ++ ys) ≡ ok (record { rules = a.rules ++ b.rules })
unfolding parse_allowlist
parse_allowlist-append xs ys {a} {b} ha hb =
    let (rs, p, p') = >>=-eq-ok (parse_rules xs []) check_rules ha in
    let (qs, q, q') = >>=-eq-ok (parse_rules ys []) check_rules hb in
    rw
      (
        parse_rules-append xs ys [],
        p,
        parse_rules_onto ys rs,
        q,
        check_rules_inv rs p',
        check_rules_inv qs q',
      )
      (go rs qs p')
  where
    go :
        (rs qs : List Rule) {c : Allowlist}
        → check_rules rs ≡ ok c
        → check_rules (rs ++ qs) ≡ ok (record { rules = rs ++ qs })
    go [] qs h = unfold check_rules in cc h
    go (r ∷ rs) qs h = unfold check_rules in refl
