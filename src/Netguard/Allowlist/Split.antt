-- ===== src/Netguard/Allowlist/Split.antt =====
-- netguard.go: what `splitHostPort` does to texts of each form, `net.JoinHostPort`'s included.
use native.Mathlib.Numerals.{towards_suc, sub-one}
use curimata.Common.{
  ℕ, suc, ◌≡◌, ◌≢◌, refl, ◌∙◌, true, [], ◌∷◌, ◌++◌, some, arith, Bytes, length, drop, Lacks,
  Bool-cases, inl, inr, length-append, take-length-append, drop-suc-length-append,
}
use curimata.Text.Search.{contains, index-append, last_index-append}
use curimata.Text.Split.{join_host_port}
use curimata.Netguard.Allowlist.{byte_is, split_bracketed, split_last_colon, split_host_port}

-- The text begins with another byte than `b`, or is empty.
abbrev pub HeadIsNot : ℕ → Bytes → Type 0
HeadIsNot b [] = Unit {0}
HeadIsNot b (c ∷ s) = c ≢ b

split_unbracketed :
    (c : ℕ) (s : Bytes) → c ≢ b'[' → split_host_port (c ∷ s) ≡ split_last_colon (c ∷ s)
unfolding split_host_port
split_unbracketed c s h = ground arith

split_last_colon-append :
    (c : ℕ) (s : Bytes) (d : ℕ) (t : Bytes)
    → Lacks b':' (d ∷ t)
    → split_last_colon ((c ∷ s) ++ b':' ∷ d ∷ t) ≡ some (c ∷ s, d ∷ t)
unfolding split_last_colon
split_last_colon-append c s d t h =
    rw (last_index-append (c ∷ s) (d ∷ t) b':' h, split_last_colon)
      (rw (take-length-append s (b':' ∷ d ∷ t), drop-suc-length-append s b':' (d ∷ t))
        (ground (arith, length-append s (b':' ∷ d ∷ t))))

-- The split is at the last colon.
pub split_host_port-append :
    (c : ℕ) (s : Bytes) (d : ℕ) (t : Bytes)
    → c ≢ b'['
    → Lacks b':' (d ∷ t)
    → split_host_port ((c ∷ s) ++ b':' ∷ d ∷ t) ≡ some (c ∷ s, d ∷ t)
split_host_port-append c s d t hc h =
    split_unbracketed c (s ++ b':' ∷ d ∷ t) hc ∙ split_last_colon-append c s d t h

byte_is-length-append :
    (s : Bytes) (b d : ℕ) (t : Bytes) → byte_is (s ++ b ∷ d ∷ t) (suc (length s)) d ≡ true
unfolding byte_is
byte_is-length-append s b d t = rw (drop-suc-length-append s b (d ∷ t), byte_is) (ground arith)

drop_two : (s : Bytes) (b d : ℕ) (t : Bytes) → drop (suc (suc (length s))) (s ++ b ∷ d ∷ t) ≡ t
drop_two [] b d t = refl
drop_two (c ∷ s) b d t = drop_two s b d t

-- A bracketed host keeps its colons, and any text may follow as the port.
split_host_port_bracketed :
    (h p : Bytes) → Lacks b']' h → split_host_port (b'[' ∷ (h ++ b']' ∷ b':' ∷ p)) ≡ some (h, p)
unfolding split_host_port split_bracketed
split_host_port_bracketed h p l =
    rw (index-append h (b':' ∷ p) b']' l, split_bracketed)
      (simp (towards_suc, sub-one, byte_is-length-append, drop_two, take-length-append)
        (ground (arith, length-append h (b']' ∷ b':' ∷ p))))

-- Splitting undoes `net.JoinHostPort`: for a host without brackets that is not empty, IPv6 addresses
-- included, and a port text without colons that is not empty.
pub split_host_port-join_host_port :
    (c : ℕ) (s : Bytes) (d : ℕ) (t : Bytes)
    → c ≢ b'['
    → Lacks b']' (c ∷ s)
    → Lacks b':' (d ∷ t)
    → split_host_port (join_host_port (c ∷ s) (d ∷ t)) ≡ some (c ∷ s, d ∷ t)
unfolding join_host_port
split_host_port-join_host_port c s d t hc hs ht = elim (Bool-cases (contains (c ∷ s) b':')) [
  | inl colon ↦ rw colon (split_host_port_bracketed (c ∷ s) (d ∷ t) hs)
  | inr plain ↦ rw plain (split_host_port-append c s d t hc ht)
]
