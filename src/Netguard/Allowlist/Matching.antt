-- ===== src/Netguard/Allowlist/Matching.antt =====
-- netguard.go: what `permits` decides.
use curimata.Common.{
  ℕ, ◌≡◌, ◌↔◌, ◌⊎◌, inl, inr, refl, ◌∙◌, Bool, true, ◌&&◌, ◌||◌, List, [], ◌∷◌, ◌++◌, arith, ◌==◌,
  Bytes, bytes_eq, bytes_eq_iff, bytes_eq_refl, Any, All, All-append, Bool-cases, sym,
}
use curimata.Text.Trim.{
  lower, to_lower, trim_suffix, trim_suffix-append, trim_space_id, NonSpace, is_space,
}
use curimata.Text.Search.{has_suffix, has_suffix→append, append→has_suffix}
use curimata.Netguard.Allowlist.{
  Rule, Allowlist, canonical_host, rule_permits, any_permits, permits,
}

-- What a rule means for a canonical host: the port is free or the same, and the host is the rule's
-- host, or for a wildcard a name with a dot and the rule's host at its end.
pub record Allows (host : Bytes) (port : ℕ) (r : Rule) : Type 0 where
  pub port_fits : (r.port ≡ 0) ⊎ (r.port ≡ port)
  pub host_fits :
      (r.host ≡ host) ⊎ ((r.wildcard ≡ true) × ((front : Bytes) × (host ≡ front ++ b'.' ∷ r.host)))

host_matches : Rule → Bytes → Bool
host_matches r host = bytes_eq r.host host || r.wildcard && has_suffix host (b'.' ∷ r.host)

host_matches_sound :
    (r : Rule) (host : Bytes)
    → host_matches r host ≡ true
    → (r.host ≡ host) ⊎ ((r.wildcard ≡ true) × ((front : Bytes) × (host ≡ front ++ b'.' ∷ r.host)))
unfolding host_matches
host_matches_sound r host h = elim (Bool-cases (bytes_eq r.host host)) [
  | inl e ↦ inl ((bytes_eq_iff r.host host).0 e)
  | inr e ↦ inr (ground arith, has_suffix→append host (b'.' ∷ r.host) (ground arith))
]

host_matches_complete :
    (r : Rule) (host : Bytes)
    → ((r.host ≡ host)
        ⊎ ((r.wildcard ≡ true) × ((front : Bytes) × (host ≡ front ++ b'.' ∷ r.host))))
    → host_matches r host ≡ true
unfolding host_matches
host_matches_complete r host (inl e) = rw (e, bytes_eq_refl host)
host_matches_complete r host (inr (w, (front, e))) =
    rw (w, e, append→has_suffix front (b'.' ∷ r.host)) (ground arith)

rule_permits_eq :
    (r : Rule) (host : Bytes) (port : ℕ)
    → rule_permits r host port ≡ ((r.port == 0 || r.port == port) && host_matches r host)
unfolding rule_permits host_matches
rule_permits_eq r host port = ground arith

rule_permits_iff :
    (r : Rule) (host : Bytes) (port : ℕ) → (rule_permits r host port ≡ true) ↔ Allows host port r
rule_permits_iff r host port = (
  λ h.
      let e = rule_permits_eq r host port in
      record { port_fits = ground arith; host_fits = host_matches_sound r host (ground arith) },
  λ a.
      let e = rule_permits_eq r host port in
      let p = a.port_fits in let m = host_matches_complete r host a.host_fits in ground arith,
)

any_permits_sound :
    (rules : List Rule) (host : Bytes) (port : ℕ)
    → any_permits rules host port ≡ true
    → Any (Allows host port) rules
unfolding any_permits
any_permits_sound [] host port h = cc
any_permits_sound (r ∷ rules) host port h = elim (Bool-cases (rule_permits r host port)) [
  | inl e ↦ inl ((rule_permits_iff r host port).0 e)
  | inr e ↦ inr (any_permits_sound rules host port (ground arith))
]

any_permits_complete :
    (rules : List Rule) (host : Bytes) (port : ℕ)
    → Any (Allows host port) rules
    → any_permits rules host port ≡ true
unfolding any_permits
any_permits_complete [] host port a = absurd a
any_permits_complete (r ∷ rules) host port (inl a) = rw ((rule_permits_iff r host port).1 a)
any_permits_complete (r ∷ rules) host port (inr a) =
    rw (any_permits_complete rules host port a) (ground arith)

-- The allowlist permits a host and port exactly when one of its rules allows the canonical form of
-- the host on that port.
pub permits_iff :
    (a : Allowlist) (host : Bytes) (port : ℕ)
    → (permits a host port ≡ true) ↔ Any (Allows (canonical_host host) port) a.rules
unfolding permits
permits_iff a host port = (
  any_permits_sound a.rules (canonical_host host) port,
  any_permits_complete a.rules (canonical_host host) port,
)

any_permits-append :
    (rs qs : List Rule) (host : Bytes) (port : ℕ)
    → any_permits (rs ++ qs) host port ≡ (any_permits rs host port || any_permits qs host port)
unfolding any_permits
any_permits-append [] qs host port = refl
any_permits-append (r ∷ rs) qs host port = rw (any_permits-append rs qs host port) (ground arith)

-- The rules of two lists together permit what one of the two permits.
pub permits-append :
    (rs qs : List Rule) (host : Bytes) (port : ℕ)
    → permits (record { rules = rs ++ qs }) host port
      ≡ (permits (record { rules = rs }) host port || permits (record { rules = qs }) host port)
unfolding permits
permits-append rs qs host port = any_permits-append rs qs (canonical_host host) port

trim_suffix-to_lower : (s : Bytes) → trim_suffix (to_lower s) b'.' ≡ to_lower (trim_suffix s b'.')
unfolding trim_suffix to_lower lower
trim_suffix-to_lower [] = refl
trim_suffix-to_lower (c ∷ []) = ground arith
trim_suffix-to_lower (c ∷ d ∷ s) = cc (trim_suffix-to_lower (d ∷ s))

canonical_host_of_NonSpace :
    (h : Bytes) → All NonSpace h → canonical_host h ≡ trim_suffix (to_lower h) b'.'
unfolding canonical_host
canonical_host_of_NonSpace h n = rw (trim_space_id h n, trim_suffix-to_lower h)

to_lower-append : (s t : Bytes) → to_lower (s ++ t) ≡ to_lower s ++ to_lower t
unfolding to_lower
to_lower-append [] t = refl
to_lower-append (c ∷ s) t = cc (to_lower-append s t)

canonical_host-append : (h : Bytes) → All NonSpace h → canonical_host (h ++ b'.' ∷ []) ≡ to_lower h
unfolding is_space to_lower
canonical_host-append h n =
    canonical_host_of_NonSpace (h ++ b'.' ∷ []) (All-append NonSpace h (b'.' ∷ []) n (refl, tt))
    ∙ rw (to_lower-append h (b'.' ∷ [])) (trim_suffix-append (to_lower h) b'.')

-- Two hosts without spaces that differ only in letter case are permitted alike, and so is the second
-- with one dot behind it, if it has none.
permits_same_name :
    (a : Allowlist) (h k : Bytes) (port : ℕ)
    → All NonSpace h
    → All NonSpace k
    → to_lower h ≡ to_lower k
    → trim_suffix k b'.' ≡ k
    → (permits a h port ≡ permits a k port) × (permits a h port ≡ permits a (k ++ b'.' ∷ []) port)
unfolding permits
permits_same_name a h k port nh nk e d =
    let same : canonical_host h ≡ canonical_host k =
      canonical_host_of_NonSpace h nh ∙ rw e (sym (canonical_host_of_NonSpace k nk)) in
    let dotted : canonical_host (k ++ b'.' ∷ []) ≡ canonical_host k =
      canonical_host-append k nk
      ∙ rw (canonical_host_of_NonSpace k nk, trim_suffix-to_lower k, d) in
    (rw same, rw (same, dotted))
