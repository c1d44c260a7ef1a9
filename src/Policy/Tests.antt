-- ===== src/Policy/Tests.antt =====
-- policy.go and `loadAllowlist` at concrete policies.
use curimata.Common.{
  ℕ, ◌≡◌, ◌↔◌, refl, Bool, true, false, ◌||◌, [], ◌∷◌, none, some, arith, Bytes, codes, bytes_eq,
  All, ok, err, if◌then◌else◌,
}
use curimata.Common.Int.{pos}
use curimata.Text.Number.{atoi}
use curimata.Netguard.Allowlist.{
  Rule, Allowlist, split_host_port, parse_allowlist, parse_rule, permits,
}
use curimata.Policy.{
  AllowEntry, Policy, Json, Settings, short_entry, unmarshal_entry, entry_specs, specs, load_policy,
  apply, load_allowlist, port_range, no_host, more_documents,
}
use curimata.Policy.Checks.{IsEnd, IsEntry, entries, load_policy_iff}
use curimata.Policy.Rules.{load_allowlist-permits}
use curimata.Policy.Spelling.{parse_rule-short_entry}

abbrev pypi : AllowEntry
pypi = record { host = codes "*.pypi.org"; ports = pos 443 ∷ [] }

abbrev cache : AllowEntry
cache = record { host = codes "cache.local"; ports = [] }

abbrev policy : Policy ℕ
policy = record {
  image = codes "alpine";
  limits = some (record { memory_mib = some (pos 512); pids = none; cpus = some 2 });
  network = some (record { allow = pypi ∷ cache ∷ [] });
}

abbrev flawed : AllowEntry → Policy ℕ
flawed e = record { image = []; limits = none; network = some (record { allow = cache ∷ e ∷ [] }) }

-- A decoder that knows three documents.
abbrev json : Json ℕ
json = record {
  decode_string = λ raw. some (codes "[::1]:443");
  decode_plain = λ raw. some cache;
  decode_policy = λ entry raw.
      if bytes_eq raw (codes "0")
      then some (policy, [])
      else if bytes_eq raw (codes "1")
      then some (flawed (record { host = []; ports = [] }), [])
      else if bytes_eq raw (codes "3")
      then some (policy, codes " }")
      else if bytes_eq raw (codes "4")
      then some (policy, codes " {}")
      else some (flawed (record { host = codes "a"; ports = pos 65536 ∷ [] }), []);
}

loaded :
    (load_policy json (some (codes "0")) ≡ ok policy)
    × (load_policy json (some (codes "1")) ≡ err (no_host 2))
    × (load_policy json (some (codes "2")) ≡ err (port_range 2 (pos 65536)))
    × (load_policy json (some (codes "4")) ≡ err more_documents)
unfolding load_policy bytes_eq
loaded = (refl, refl, refl, refl)

-- A closing bracket behind the document is passed over.
bracket_behind : load_policy json (some (codes "3")) ≡ ok policy
unfolding load_policy bytes_eq
bracket_behind = refl

both_spellings :
    (unmarshal_entry json (codes "\"[::1]:443\"")
      ≡ ok (record { host = codes "::1"; ports = pos 443 ∷ [] }))
    × (unmarshal_entry json (codes "{}") ≡ ok cache)
unfolding unmarshal_entry split_host_port bytes_eq atoi
both_spellings = (refl, refl)

load_policy_iff_example : (load_policy json (some (codes "0")) ≡ ok policy) ↔ (
    ((left : Bytes) × (json.decode_policy (unmarshal_entry json) (codes "0") ≡ some (policy, left))
      × IsEnd left)
    × All IsEntry (entries policy.network))
load_policy_iff_example = load_policy_iff json (codes "0") policy

abbrev current : Settings ℕ
current = record {
  image = codes "debian";
  lim = record { memory_mib = pos 0; pids = pos 64; cpus = 0; no_systemd = false };
}

-- The command line gives the image alone.
abbrev set : Bytes → Bool
set name = bytes_eq name (codes "image")

applied : apply (some policy) set current ≡ record {
  image = codes "debian";
  lim = record { memory_mib = pos 512; pids = pos 64; cpus = 2; no_systemd = false };
}
unfolding apply bytes_eq
applied = refl

abbrev policy_rules : Allowlist
policy_rules = record {
  rules =
      record { host = codes "pypi.org"; wildcard = true; port = 443 }
      ∷ record { host = codes "cache.local"; wildcard = false; port = 0 }
      ∷ [];
}

abbrev flag_rules : Allowlist
flag_rules = record { rules = record { host = codes "b"; wildcard = false; port = 22 } ∷ [] }

policy_parsed : parse_allowlist (specs policy.network) ≡ ok policy_rules
unfolding parse_allowlist specs
policy_parsed = refl

flags_parsed : parse_allowlist (codes "B:22" ∷ []) ≡ ok flag_rules
unfolding parse_allowlist
flags_parsed = refl

load_allowlist-permits_example :
    (both : Allowlist) × (load_allowlist (codes "B:22" ∷ []) (some policy) ≡ ok (some both))
    × ((host : Bytes) (port : ℕ)
        → permits both host port ≡ (permits policy_rules host port || permits flag_rules host port))
load_allowlist-permits_example =
    load_allowlist-permits (codes "B:22" ∷ []) policy policy_parsed flags_parsed

short_parsed : short_entry (codes "a:007") ≡ ok (record { host = codes "a"; ports = pos 7 ∷ [] })
unfolding short_entry split_host_port bytes_eq atoi
short_parsed = refl

parse_rule-short_entry_example :
    (text : Bytes) × (entry_specs (record { host = codes "a"; ports = pos 7 ∷ [] }) ≡ text ∷ [])
    × ((r : Rule) → (parse_rule text ≡ ok r) ↔ (parse_rule (codes "a:007") ≡ ok r))
parse_rule-short_entry_example =
    parse_rule-short_entry (codes "a:007") b'a' [] short_parsed refl (omega arith) (ground arith)
