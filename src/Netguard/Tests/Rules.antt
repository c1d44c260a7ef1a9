-- ===== src/Netguard/Tests/Rules.antt =====
-- netguard.go: the allowlist at concrete rules.
use curimata.Common.{
  ◌≡◌, ◌≢◌, ◌↔◌, refl, true, false, List, [], ◌∷◌, map, some, arith, Bytes, codes, All, Any, ok,
  err,
}
use curimata.Text.Trim.{trim_suffix, is_space, lower}
use curimata.Text.Number.{itoa}
use curimata.Text.Search.{cut_prefix}
use curimata.Text.Split.{join_host_port}
use curimata.Netguard.Allowlist.{
  Rule, Allowlist, expected_host_port, empty_host, bad_port, no_rules, canonical_host, host_rule,
  split_host_port, parse_allowlist, permits, rule_text, allowlist_text, target_of, bad_target_port,
}
use curimata.Netguard.Allowlist.Matching.{Allows, permits_iff}
use curimata.Netguard.Allowlist.Parsing.{IsValid, parse_allowlist-IsValid}
use curimata.Netguard.Allowlist.RoundTrip.{parse_allowlist-rule_text}
use curimata.Netguard.Allowlist.Advice.{permits-parse_allowlist}

abbrev example_rule : Rule
example_rule = record { host = codes "example.com"; wildcard = false; port = 443 }

abbrev pypi_rule : Rule
pypi_rule = record { host = codes "pypi.org"; wildcard = true; port = 0 }

abbrev rules : Allowlist
rules = record { rules = example_rule ∷ pypi_rule ∷ [] }

abbrev specs : List Bytes
specs = codes " Example.com.:443 " ∷ codes "# a comment" ∷ [] ∷ codes "*.pypi.org:*" ∷ []

parsed : parse_allowlist specs ≡ ok rules
unfolding parse_allowlist
parsed = refl

printed : allowlist_text rules ≡ codes "example.com:443 *.pypi.org:*"
unfolding allowlist_text
printed = refl

refusals :
    (parse_allowlist (codes "example.com" ∷ []) ≡ err (expected_host_port (codes "example.com")))
    × (parse_allowlist (codes "*..:80" ∷ []) ≡ err (empty_host (codes "*..:80")))
    × (parse_allowlist (codes "a:65536" ∷ []) ≡ err (bad_port (codes "a:65536") (codes "65536")))
    × (parse_allowlist (codes "#a:1" ∷ []) ≡ err no_rules)
unfolding parse_allowlist
refusals = (refl, refl, refl, refl)

-- A bare IPv6 address is split at its last colon.
bare_address : split_host_port (codes "fe80::1") ≡ some (codes "fe80:", codes "1")
unfolding split_host_port
bare_address = refl

targets :
    (target_of (codes "[::1]:8443") 443 ≡ ok (codes "::1", 8443))
    × (target_of (codes "Example.COM") 80 ≡ ok (codes "example.com", 80))
    × (target_of (codes "a:0") 80 ≡ err (bad_target_port (codes "a:0")))
unfolding target_of
targets = (refl, refl, refl)

permissions :
    (permits rules (codes "files.PyPI.org.") 8080 ≡ true)
    × (permits rules (codes "pypi.org") 1 ≡ true)
    × (permits rules (codes "xpypi.org") 1 ≡ false)
    × (permits rules (codes "example.com") 80 ≡ false)
unfolding permits
permissions = (refl, refl, refl, refl)

permits_iff_example :
    (permits rules (codes "files.PyPI.org.") 8080 ≡ true)
    ↔ Any (Allows (canonical_host (codes "files.PyPI.org.")) 8080) rules.rules
permits_iff_example = permits_iff rules (codes "files.PyPI.org.") 8080

parse_allowlist-IsValid_example : (rules.rules ≢ []) × All IsValid rules.rules
parse_allowlist-IsValid_example = parse_allowlist-IsValid specs parsed

parse_allowlist-rule_text_example :
    parse_allowlist (map rule_text (example_rule ∷ pypi_rule ∷ [])) ≡ ok rules
unfolding is_space lower trim_suffix cut_prefix
parse_allowlist-rule_text_example =
    parse_allowlist-rule_text example_rule (pypi_rule ∷ []) (ground arith)

permits-parse_allowlist_example :
    (a : Allowlist) × (parse_allowlist (join_host_port (codes "FE80::1") (itoa 443) ∷ []) ≡ ok a)
    × (permits a (codes "FE80::1") 443 ≡ true)
unfolding is_space canonical_host host_rule
permits-parse_allowlist_example =
    permits-parse_allowlist b'F' (codes "E80::1") 443 (ground arith) (omega arith) (omega arith)
      (omega arith) (cc) (omega arith) (omega arith)
