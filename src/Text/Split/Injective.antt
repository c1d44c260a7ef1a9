-- ===== src/Text/Split/Injective.antt =====
-- `net.JoinHostPort` tells different hosts and ports apart.
use curimata.Common.{
  ℕ, ◌≤◌, ◌≡◌, sym, ◌∙◌, ap, inl, inr, true, false, [], ◌∷◌, ◌++◌, arith, if◌then◌else◌, Bytes,
  All-mono, Lacks, Bool-cases, length, take-length-append, drop-suc-length-append, append_assoc,
}
use curimata.Text.Search.{contains, last_index, last_index-append}
use curimata.Text.Number.{itoa, atoi, atoi-itoa, max_int, itoa-IsDigit, IsDigit}
use curimata.Text.Split.{join_host_port}

-- Texts that are cut at the last `b` have one cut.
append_last :
    (xs ys p q : Bytes) (b : ℕ)
    → Lacks b p
    → Lacks b q
    → xs ++ b ∷ p ≡ ys ++ b ∷ q
    → (xs ≡ ys) × (p ≡ q)
append_last xs ys p q b hp hq e =
    let long : length xs ≡ length ys = cc (
      last_index-append xs p b hp,
      last_index-append ys q b hq,
      ap (λ (s : Bytes). last_index s b) e,
    ) in
    (
      cc (take-length-append xs (b ∷ p), take-length-append ys (b ∷ q), long, e),
      cc (drop-suc-length-append xs b p, drop-suc-length-append ys b q, long, e),
    )

contains-append : (s t : Bytes) (b : ℕ) → contains s b ≡ true → contains (s ++ t) b ≡ true
unfolding contains
contains-append [] t b h = cc
contains-append (c ∷ s) t b h = ground (arith, contains-append s t b)

-- The host as it stands before the colon of the port.
bracketed : Bytes → Bytes
bracketed h = if contains h b':' then b'[' ∷ (h ++ b']' ∷ []) else h

join_bracketed : (h p : Bytes) → join_host_port h p ≡ bracketed h ++ b':' ∷ p
unfolding join_host_port bracketed
join_bracketed h p = elim (Bool-cases (contains h b':')) [
  | inl e ↦ rw e (rw append_assoc)
  | inr e ↦ rw e
]

append_one : (s t : Bytes) (b : ℕ) → s ++ b ∷ [] ≡ t ++ b ∷ [] → s ≡ t
append_one s t b e = (append_last s t [] [] b tt tt e).0

cons_inv : (c : ℕ) (s t : Bytes) → c ∷ s ≡ c ∷ t → s ≡ t
cons_inv c s t e = cc

-- A host in brackets holds a colon, so it is no host without one.
bracketed_mixed :
    (h k : Bytes)
    → contains h b':' ≡ true
    → contains k b':' ≡ false
    → b'[' ∷ (h ++ b']' ∷ []) ≡ k
    → ⊥
bracketed_mixed h k hh hk e =
    let colon : contains (b'[' ∷ (h ++ b']' ∷ [])) b':' ≡ true =
      unfold contains in contains-append h (b']' ∷ []) b':' hh in
    let same = ap (λ (s : Bytes). contains s b':') e in cc

bracketed_inj : (h k : Bytes) → bracketed h ≡ bracketed k → h ≡ k
unfolding bracketed
bracketed_inj h k e = elim (Bool-cases (contains h b':')) [
  | inl hh ↦ elim (Bool-cases (contains k b':')) [
    | inl kk ↦ append_one h k b']' (cons_inv b'[' _ _ (rw (hh, kk) at e))
    | inr kk ↦ absurd (bracketed_mixed h k hh kk (rw (hh, kk) at e))
  ]
  | inr hh ↦ elim (Bool-cases (contains k b':')) [
    | inl kk ↦ absurd (bracketed_mixed k h kk hh (sym (rw (hh, kk) at e)))
    | inr kk ↦ rw (hh, kk) at e
  ]
]

itoa-Lacks : (n : ℕ) → Lacks b':' (itoa n)
itoa-Lacks n = All-mono IsDigit (λ c. c ≡ b':' → ⊥) (λ c d. omega arith) (itoa n) (itoa-IsDigit n)

-- Two joined texts with ports that fit an `int` are equal only for the same host and port.
pub join_host_port_inj :
    (h k : Bytes) (p q : ℕ)
    → p ≤ max_int
    → q ≤ max_int
    → join_host_port h (itoa p) ≡ join_host_port k (itoa q)
    → (h ≡ k) × (p ≡ q)
join_host_port_inj h k p q hp hq e =
    let cut =
      append_last (bracketed h) (bracketed k) (itoa p) (itoa q) b':' (itoa-Lacks p) (itoa-Lacks q)
        (sym (join_bracketed h (itoa p)) ∙ e ∙ join_bracketed k (itoa q)) in
    (bracketed_inj h k cut.0, cc (atoi-itoa p hp, atoi-itoa q hq, ap atoi cut.1))
