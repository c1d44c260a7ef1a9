-- ===== src/Policy/Checks.antt =====
-- policy.go: which policies `loadPolicy` accepts.
use curimata.Common.{
  ℕ, suc, ◌⊎◌, ◌≤◌, ◌≡◌, ◌≢◌, ◌↔◌, inl, inr, refl, true, false, ◌||◌, List, [], ◌∷◌, Option, none,
  some, arith, Bytes, bytes_eq, bytes_eq_iff, All, Bool-cases, ok, Result-cases, Option-cases, ◌==◌,
  ==_iff,
}
use curimata.Common.Int.{ℤ, pos, negsuc, ltb_ℤ}
use curimata.Policy.{
  AllowEntry, PolicyNet, Policy, Json, unmarshal_entry, check_ports, check_entries, check_network,
  load_policy, is_blank, more,
}

abbrev pub IsPort : ℤ → Type 0
IsPort (pos n) = (1 ≤ n) × (n ≤ 65535)
IsPort (negsuc n) = ⊥

pub record IsEntry (e : AllowEntry) : Type 0 where
  pub some_host : e.host ≢ []
  pub port_range : All IsPort e.ports

abbrev pub entries : Option PolicyNet → List AllowEntry
entries none = []
entries (some n) = n.allow

IsPort-test : (p : ℤ) → ((ltb_ℤ p (pos 1) || ltb_ℤ (pos 65535) p) ≡ false) ↔ IsPort p
IsPort-test (pos n) = (λ h. (ground arith, ground arith), λ (l, u). ground arith)
IsPort-test (negsuc n) = (λ h. absurd (ground arith), λ h. absurd h)

check_ports_iff : (i : ℕ) (ports : List ℤ) → (check_ports i ports ≡ ok tt) ↔ All IsPort ports
unfolding check_ports
check_ports_iff i [] = (λ h. tt, λ h. refl)
check_ports_iff i (p ∷ ports) = elim (Bool-cases (ltb_ℤ p (pos 1) || ltb_ℤ (pos 65535) p)) [
  | inl e ↦ (rw e (λ h. absurd (cc)), λ (h, _). absurd (let q = (IsPort-test p).1 h in cc))
  | inr e ↦ (
    rw e (λ h. ((IsPort-test p).0 e, (check_ports_iff i ports).0 h)),
    λ (h, hs). rw e ((check_ports_iff i ports).1 hs),
  )
]

check_entries_iff : (i : ℕ) (es : List AllowEntry) → (check_entries i es ≡ ok tt) ↔ All IsEntry es
unfolding check_entries
check_entries_iff i [] = (λ h. tt, λ h. refl)
check_entries_iff i (e ∷ es) = elim (Bool-cases (bytes_eq e.host [])) [
  | inl q ↦ (rw q (λ h. absurd (cc)), λ (h, _). absurd (h.some_host ((bytes_eq_iff e.host []).0 q)))
  | inr q ↦ elim (Result-cases (check_ports i e.ports)) [
    | inr (x, c) ↦ (
      rw (q, c) (λ h. absurd (cc)),
      λ (h, _). absurd (let g = (check_ports_iff i e.ports).1 h.port_range in cc),
    )
    | inl (u, c) ↦
        let some_host : e.host ≢ [] = λ z. absurd (let g = (bytes_eq_iff e.host []).1 z in cc) in
        (
          rw (q, c)
              (λ h. (
                record { some_host = some_host; port_range = (check_ports_iff i e.ports).0 c },
                (check_entries_iff (suc i) es).0 h,
              )),
          λ (h, hs). rw (q, c) ((check_entries_iff (suc i) es).1 hs),
        )
  ]
]

check_network_iff : (n : Option PolicyNet) → (check_network n ≡ ok tt) ↔ All IsEntry (entries n)
unfolding check_network
check_network_iff none = (λ h. tt, λ h. refl)
check_network_iff (some n) = check_entries_iff 1 n.allow

-- The text behind the document: white space, and then nothing or a closing bracket.
abbrev pub IsEnd : Bytes → Type 0
IsEnd [] = Unit
IsEnd (c ∷ rest) =
    ((is_blank c ≡ true) × IsEnd rest) ⊎ ((is_blank c ≡ false) × ((c ≡ b']') ⊎ (c ≡ b'}')))

more-IsEnd : (left : Bytes) → (more left ≡ false) ↔ IsEnd left
unfolding more
more-IsEnd [] = (λ h. tt, λ h. refl)
more-IsEnd (c ∷ rest) = elim (Bool-cases (is_blank c)) [
  | inl e ↦ (
    λ h. inl (e, (more-IsEnd rest).0 (rw e at h)),
    λ h. elim h [ inl (b, k) ↦ rw e ((more-IsEnd rest).1 k) | inr (b, k) ↦ absurd (cc) ],
  )
  | inr e ↦ (
    λ h. inr (
      e,
      let k = rw e at h in
          elim (Bool-cases (c == b']')) [
            | inl q ↦ inl ((==_iff c b']').0 q)
            | inr q ↦ inr (ground arith)
          ],
    ),
    λ h. elim h [
      | inl (b, k) ↦ absurd (cc)
      | inr (b, inl k) ↦ rw e (ground arith)
      | inr (b, inr k) ↦ rw e (ground arith)
    ],
  )
]

-- A file gives a policy if and only if that policy is decoded from its front, behind which there is white space
-- and then nothing or a closing bracket, every allow rule of it names a host, and every port of a rule lies from 1
-- to 65535.
pub load_policy_iff :
    {F : Type 0} (json : Json F) (data_ : Bytes) (p : Policy F)
    → (load_policy json (some data_) ≡ ok p) ↔ (
        ((left : Bytes) × (json.decode_policy (unmarshal_entry json) data_ ≡ some (p, left))
          × IsEnd left)
        × All IsEntry (entries p.network))
unfolding load_policy
load_policy_iff {F} json data_ p =
    elim (Option-cases (json.decode_policy (unmarshal_entry json) data_)) [
      | inl e ↦ (rw (e, load_policy) (λ h. absurd (cc)), λ ((left, h, _), _). absurd (cc))
      | inr ((q, left), e) ↦ elim (Bool-cases (more left)) [
        | inl m ↦ (
          rw (e, m, load_policy) (λ h. absurd (cc)),
          λ ((l, h, k), _). absurd (let same : left ≡ l = cc in let g = (more-IsEnd l).1 k in cc),
        )
        | inr m ↦ elim (Result-cases (check_network q.network)) [
          | inr (x, c) ↦ (
            rw (e, m, c, load_policy) (λ h. absurd (cc)),
            λ ((l, h, k), v). absurd (let g = (check_network_iff p.network).1 v in cc),
          )
          | inl (u, c) ↦ (
            rw (e, m, c, load_policy)
                (λ h.
                  let same : q ≡ p = cc in
                  (
                    (left, rw same refl, (more-IsEnd left).0 m),
                    rw same at ((check_network_iff q.network).0 c),
                  )),
            λ ((l, h, k), v). rw (e, m, c, load_policy) (cc),
          )
        ]
      ]
    ]
