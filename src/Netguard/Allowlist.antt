-- ===== src/Netguard/Allowlist.antt =====
-- netguard.go: `rule`, `allowlist`, `parseAllowlist`, `splitHostPort`, `canonicalHost`, `permits`,
-- `String`, `targetOf`. The proofs are in the modules below.
pub mod Split
pub mod Matching
pub mod Parsing
pub mod RoundTrip
pub mod Advice
use curimata.Common.{
  ℕ, suc, ◌+◌, ◌-◌, Bool, true, false, not, ◌&&◌, ◌||◌, List, [], ◌∷◌, ◌++◌, map, Option, none,
  some, ltb, leb, ◌==◌, if◌then◌else◌, Bytes, codes, bytes_eq, length, take, drop, Result, ok, err,
  ◌>>=◌,
}
use curimata.Common.Int.{pos}
use curimata.Text.Trim.{trim_space, trim_suffix, to_lower}
use curimata.Text.Search.{has_prefix, cut_prefix, has_suffix, index, last_index}
use curimata.Text.Number.{itoa, atoi}
use curimata.Text.Split.{join}

-- `port` 0 allows every port.
pub record Rule : Type 0 where
  pub host : Bytes
  pub wildcard : Bool
  pub port : ℕ

pub record Allowlist : Type 0 where
  pub rules : List Rule

-- The errors of `parseAllowlist` and `targetOf`, with the texts that they quote.
pub data AllowError : Type 0 where
  expected_host_port : Bytes → AllowError
  empty_host : Bytes → AllowError
  bad_port : Bytes → Bytes → AllowError
  no_rules : AllowError

pub data TargetError : Type 0 where
  no_target : TargetError
  bad_target_port : Bytes → TargetError

-- Whether the byte at a position is `b`; no byte stands behind the end.
unfoldable pub byte_is : Bytes → ℕ → ℕ → Bool
byte_is s i b = elim (drop i s) [ [] ↦ false | c ∷ _ ↦ c == b ]

-- The branch of `splitHostPort` for a text that begins with a bracket.
unfoldable pub split_bracketed : Bytes → Option (Bytes × Bytes)
unfolding byte_is index
split_bracketed spec = elim (index spec b']') [
  | none ↦ none
  | some end ↦
      if ltb (length spec) (end + 2) || not (byte_is spec (end + 1) b':')
      then none
      else some (take (end - 1) (drop 1 spec), drop (end + 2) spec)
]

unfoldable pub split_last_colon : Bytes → Option (Bytes × Bytes)
unfolding last_index
split_last_colon spec = elim (last_index spec b':') [
  | none ↦ none
  | some i ↦ if i == 0 || suc i == length spec then none else some (take i spec, drop (suc i) spec)
]

unfoldable pub split_host_port : Bytes → Option (Bytes × Bytes)
unfolding split_bracketed split_last_colon has_prefix
split_host_port spec =
    if has_prefix spec (codes "[") then split_bracketed spec else split_last_colon spec

unfoldable pub canonical_host : Bytes → Bytes
unfolding trim_space trim_suffix to_lower
canonical_host h = to_lower (trim_suffix (trim_space h) b'.')

-- `strconv.Atoi`, and the test for 1 to 65535.
unfoldable pub port_number : Bytes → Option ℕ
unfolding atoi
port_number text = elim (atoi text) [
  | none ↦ none
  | some n ↦ elim n [ pos p ↦ if ltb p 1 || ltb 65535 p then none else some p | _ ↦ none ]
]

-- The host of a rule, with a leading "*." taken for the wildcard.
unfoldable pub host_rule : Bytes → Rule
unfolding cut_prefix
host_rule h = elim (cut_prefix h (codes "*.")) [
  | some after ↦ record { host = after; wildcard = true; port = 0 }
  | none ↦ record { host = h; wildcard = false; port = 0 }
]

unfoldable pub with_port : Bytes → Rule → Bytes → Result AllowError Rule
unfolding port_number bytes_eq
with_port spec r text = if bytes_eq text (codes "*") then ok r else elim (port_number text) [
  | none ↦ err (bad_port spec text)
  | some p ↦ ok (record r { port = p })
]

-- One round of the loop of `parseAllowlist`, on a trimmed text.
unfoldable pub parse_rule : Bytes → Result AllowError Rule
unfolding split_host_port canonical_host host_rule with_port bytes_eq
parse_rule spec = elim (split_host_port spec) [
  | none ↦ err (expected_host_port spec)
  | some (host, text) ↦
      let r = host_rule (canonical_host host) in
      if bytes_eq r.host [] then err (empty_host spec) else with_port spec r text
]

-- Empty texts and comments are passed over.
unfoldable pub is_skipped : Bytes → Bool
unfolding bytes_eq has_prefix
is_skipped spec = bytes_eq spec [] || has_prefix spec (codes "#")

unfoldable pub parse_rules : List Bytes → List Rule → Result AllowError (List Rule)
unfolding is_skipped parse_rule trim_space
parse_rules [] rules = ok rules
parse_rules (s ∷ specs) rules =
    let spec = trim_space s in
    let rest = parse_rules specs rules in
    if is_skipped spec
    then rest
    else (parse_rule spec >>= λ r. parse_rules specs (rules ++ (r ∷ [])))

unfoldable pub check_rules : List Rule → Result AllowError Allowlist
check_rules [] = err no_rules
check_rules (r ∷ rules) = ok (record { rules = r ∷ rules })

unfoldable pub parse_allowlist : List Bytes → Result AllowError Allowlist
unfolding parse_rules check_rules
parse_allowlist specs = parse_rules specs [] >>= check_rules

-- The tests of one round of the loop of `permits`, on a canonical host.
unfoldable pub rule_permits : Rule → Bytes → ℕ → Bool
unfolding bytes_eq has_suffix
rule_permits r host port =
    if not (r.port == 0) && not (r.port == port)
    then false
    else bytes_eq r.host host || r.wildcard && has_suffix host (b'.' ∷ r.host)

unfoldable pub any_permits : List Rule → Bytes → ℕ → Bool
unfolding rule_permits
any_permits [] host port = false
any_permits (r ∷ rules) host port =
    if rule_permits r host port then true else any_permits rules host port

unfoldable pub permits : Allowlist → Bytes → ℕ → Bool
unfolding any_permits canonical_host
permits a host port = any_permits a.rules (canonical_host host) port

-- One part of `String`.
unfoldable pub rule_text : Rule → Bytes
unfolding itoa
rule_text r =
    let host = if r.wildcard then codes "*." ++ r.host else r.host in
    host ++ (b':' ∷ (if r.port == 0 then codes "*" else itoa r.port))

unfoldable pub allowlist_text : Allowlist → Bytes
unfolding rule_text join
allowlist_text a = join (map rule_text a.rules) (codes " ")

unfoldable pub target_of : Bytes → ℕ → Result TargetError (Bytes × ℕ)
unfolding split_host_port canonical_host port_number
target_of [] fallback = err no_target
target_of (c ∷ s) fallback = elim (split_host_port (c ∷ s)) [
  | none ↦ ok (canonical_host (c ∷ s), fallback)
  | some (host, text) ↦ elim (port_number text) [
    | none ↦ err (bad_target_port (c ∷ s))
    | some p ↦ ok (canonical_host host, p)
  ]
]
