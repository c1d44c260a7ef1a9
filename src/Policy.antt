-- ===== src/Policy.antt =====
-- policy.go: the policy file, its checks and how its settings are used; main.go: `loadAllowlist`.
pub mod Checks
pub mod Apply
pub mod Rules
pub mod Spelling
mod Tests
use curimata.Common.{
  ℕ, suc, ◌+◌, ◌≡◌, Bool, true, false, not, ◌&&◌, ◌||◌, List, [], ◌∷◌, ◌++◌, map, Option, none,
  some, if◌then◌else◌, Bytes, codes, bytes_eq, ◌==◌, Result, ok, err, ◌>>=◌, ◌>>◌,
}
use curimata.Common.Int.{ℤ, pos, ltb_ℤ}
use curimata.Text.Number.{itoa_ℤ, atoi}
use curimata.Netguard.Allowlist.{Allowlist, AllowError, split_host_port, parse_allowlist}
use curimata.Limits.{Limits}

pub record AllowEntry : Type 0 where
  pub host : Bytes
  pub ports : List ℤ

pub record PolicyNet : Type 0 where
  pub allow : List AllowEntry

-- A pointer is an option.
pub record PolicyLimits (F : Type 0) : Type 0 where
  pub memory_mib : Option ℤ
  pub pids : Option ℤ
  pub cpus : Option F

pub record Policy (F : Type 0) : Type 0 where
  pub image : Bytes
  pub limits : Option (PolicyLimits F)
  pub network : Option PolicyNet

pub data EntryError : Type 0 where
  bad_json : EntryError
  expected_host_port : Bytes → EntryError
  bad_port : Bytes → Bytes → EntryError

pub data PolicyError : Type 0 where
  unreadable : PolicyError
  bad_document : PolicyError
  more_documents : PolicyError
  no_host : ℕ → PolicyError
  port_range : ℕ → ℤ → PolicyError

-- The decoders of encoding/json that the code calls, which refuse unknown fields: of a string, of an entry
-- without its own method, and of a policy, which calls back for the entries. What is
-- left behind the policy comes with it.
pub record Json (F : Type 0) : Type 0 where
  pub decode_string : Bytes → Option Bytes
  pub decode_plain : Bytes → Option AllowEntry
  pub decode_policy : (Bytes → Result EntryError AllowEntry) → Bytes → Option (Policy F × Bytes)

-- The short spelling of `UnmarshalJSON`: the port, and the whole text.
unfoldable pub port_entry : Bytes → Bytes → Bytes → Result EntryError AllowEntry
port_entry short host port =
    if bytes_eq port (codes "*")
    then ok (record { host = host; ports = [] })
    else elim (atoi port) [
      | none ↦ err (bad_port short port)
      | some n ↦ ok (record { host = host; ports = n ∷ [] })
    ]

unfoldable pub short_entry : Bytes → Result EntryError AllowEntry
unfolding port_entry
short_entry short = elim (split_host_port short) [
  | none ↦ err (expected_host_port short)
  | some (host, port) ↦ port_entry short host port
]

abbrev is_string : Bytes → Bool
is_string [] = false
is_string (c ∷ raw) = c == b'"'

module _ {F : Type 0} (json : Json F) where
  unfoldable pub unmarshal_entry : Bytes → Result EntryError AllowEntry
  unfolding short_entry
  unmarshal_entry raw =
      if is_string raw
      then elim (json.decode_string raw) [ none ↦ err bad_json | some short ↦ short_entry short ]
      else elim (json.decode_plain raw) [ none ↦ err bad_json | some e ↦ ok e ]

-- The texts of one entry.
unfoldable pub entry_specs : AllowEntry → List Bytes
unfolding itoa_ℤ
entry_specs e = elim e.ports [
  | [] ↦ (e.host ++ codes ":*") ∷ []
  | p ∷ ports ↦ map (λ port. e.host ++ (codes ":" ++ itoa_ℤ port)) (p ∷ ports)
]

unfoldable pub entries_specs : List AllowEntry → List Bytes
unfolding entry_specs
entries_specs [] = []
entries_specs (e ∷ entries) = entry_specs e ++ entries_specs entries

unfoldable pub specs : Option PolicyNet → List Bytes
unfolding entries_specs
specs none = []
specs (some n) = entries_specs n.allow

-- The loops of `loadPolicy` over the ports of an entry, and over the entries from number `i`.
unfoldable pub check_ports : ℕ → List ℤ → Result PolicyError (Unit {0})
check_ports i [] = ok tt
check_ports i (p ∷ ports) =
    let rest = check_ports i ports in
    if ltb_ℤ p (pos 1) || ltb_ℤ (pos 65535) p then err (port_range i p) else rest

unfoldable pub check_entries : ℕ → List AllowEntry → Result PolicyError (Unit {0})
unfolding check_ports
check_entries i [] = ok tt
check_entries i (e ∷ entries) =
    let rest = check_entries (suc i) entries in
    if bytes_eq e.host [] then err (no_host i) else check_ports i e.ports >> rest

unfoldable pub check_network : Option PolicyNet → Result PolicyError (Unit {0})
unfolding check_entries
check_network none = ok tt
check_network (some n) = check_entries 1 n.allow

-- The white space of JSON.
unfoldable pub is_blank : ℕ → Bool
is_blank c = c == 32 || (c == 9 || (c == 13 || c == 10))

-- `Decoder.More`: something follows, and it does not begin with a closing bracket.
unfoldable pub more : Bytes → Bool
unfolding is_blank
more [] = false
more (c ∷ rest) =
    let later = more rest in if is_blank c then later else not (c == b']' || c == b'}')

module _ {F : Type 0} (json : Json F) where
  -- `read` is what `os.ReadFile` gives.
  unfoldable pub load_policy : Option Bytes → Result PolicyError (Policy F)
  unfolding check_network unmarshal_entry more
  load_policy none = err unreadable
  load_policy (some data_) = elim (json.decode_policy (unmarshal_entry json) data_) [
    | none ↦ err bad_document
    | some (p, left) ↦ if more left then err more_documents else (check_network p.network >> ok p)
  ]

-- What `apply` changes: the image, and the limits.
pub record Settings (F : Type 0) : Type 0 where
  pub image : Bytes
  pub lim : Limits F

unfoldable pub apply_limits : {F : Type 0} → PolicyLimits F → (Bytes → Bool) → Limits F → Limits F
apply_limits p set lim = record {
  memory_mib = elim p.memory_mib [
    | none ↦ lim.memory_mib
    | some m ↦ if not (set (codes "memory")) then m else lim.memory_mib
  ];
  pids = elim p.pids [
    | none ↦ lim.pids
    | some n ↦ if not (set (codes "pids")) then n else lim.pids
  ];
  cpus = elim p.cpus [
    | none ↦ lim.cpus
    | some c ↦ if not (set (codes "cpus")) then c else lim.cpus
  ];
  no_systemd = lim.no_systemd;
}

-- `set` tells the flags that the command line gives.
unfoldable pub apply : {F : Type 0} → Option (Policy F) → (Bytes → Bool) → Settings F → Settings F
unfolding apply_limits
apply none set s = s
apply (some p) set s =
    let image =
      if not (bytes_eq p.image []) && not (set (codes "image")) then p.image else s.image in
    elim p.limits [
      | none ↦ record { image = image; lim = s.lim }
      | some l ↦ record { image = image; lim = apply_limits l set s.lim }
    ]

unfoldable pub rule_specs : {F : Type 0} → List Bytes → Option (Policy F) → List Bytes
unfolding specs
rule_specs flags none = flags
rule_specs flags (some p) = specs p.network ++ flags

unfoldable pub parse_some : List Bytes → Result AllowError (Option Allowlist)
parse_some [] = ok none
parse_some (s ∷ rules) = parse_allowlist (s ∷ rules) >>= λ a. ok (some a)

-- `loadAllowlist`
unfoldable pub load_allowlist :
    {F : Type 0} → List Bytes → Option (Policy F) → Result AllowError (Option Allowlist)
unfolding rule_specs parse_some
load_allowlist flags p = parse_some (rule_specs flags p)
