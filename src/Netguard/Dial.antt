-- ===== src/Netguard/Dial.antt =====
-- netguard.go: `deniedError` and `netguard.dial`.
use curimata.Common.{
  arith, Bool-cases, inl, inr, refl, ℕ, ◌≡◌, Bool, true, false, not, List, [], ◌∷◌, ◌++◌, Bytes,
  codes, if◌then◌else◌,
}
use curimata.Text.Number.{itoa}
use curimata.Text.Split.{join_host_port}
use curimata.Netguard.Allowlist.{Allowlist, permits, allowlist_text}

-- `netlogf` writes to the terminal and to the log, `netfilef` to the log alone.
pub data LogLine : Type 0 where
  deny : Bytes → LogLine
  fail : Bytes → LogLine
  allow : Bytes → LogLine
  https_needs_connect : Bytes → LogLine

pub record DeniedError : Type 0 where
  pub target : Bytes
  pub allowed : Bytes

-- `deniedError.Error`
unfoldable pub denied_message : DeniedError → Bytes
denied_message e =
    codes "curimata sandbox: "
    ++ (e.target
        ++ (codes " is not on the network allowlist. Allowed: "
            ++ (e.allowed
                ++ (codes ". To reach it, the user must start curimata again with: -allow "
                    ++ e.target))))

-- The results of `dial`: the allowlist refuses, the dialer fails, or there is a connection.
pub data Dialed : Type 0 where
  refused : DeniedError → Dialed
  unreachable : Bytes → Dialed
  connected : Bytes → Dialed

-- `reaches` is the dialer's answer for a target.
unfoldable pub dial : Allowlist → (Bytes → Bool) → Bytes → ℕ → Dialed
dial a reaches host port =
    let target = join_host_port host (itoa port) in
    if not (permits a host port)
    then refused (record { target = target; allowed = allowlist_text a })
    else if not (reaches target)
    then unreachable target
    else connected target

-- The line that `dial` logs.
unfoldable pub dial_log : Dialed → LogLine
dial_log (refused e) = deny e.target
dial_log (unreachable target) = fail target
dial_log (connected target) = allow target

-- The targets for which it asks the dialer.
unfoldable pub attempts : Dialed → List Bytes
attempts (refused e) = []
attempts (unreachable target) = target ∷ []
attempts (connected target) = target ∷ []

-- The target is that of a host and port that the allowlist permits.
pub record IsPermitted (a : Allowlist) (target : Bytes) : Type 0 where
  pub host : Bytes
  pub port : ℕ
  pub is_target : target ≡ join_host_port host (itoa port)
  pub is_permitted : permits a host port ≡ true

abbrev pub Respects : Allowlist → Bytes → ℕ → Dialed → Type 0
Respects a host port (refused e) =
    (permits a host port ≡ false)
    × (e.target ≡ join_host_port host (itoa port))
    × (e.allowed ≡ allowlist_text a)
Respects a host port (unreachable target) = IsPermitted a target
Respects a host port (connected target) = IsPermitted a target

-- A refusal names a target that is not permitted, and the dialer is asked only for one that is.
pub dial-Respects :
    (a : Allowlist) (reaches : Bytes → Bool) (host : Bytes) (port : ℕ)
    → Respects a host port (dial a reaches host port)
unfolding dial
dial-Respects a reaches host port =
    let target = join_host_port host (itoa port) in
    elim (Bool-cases (permits a host port)) [
      | inr no_rule ↦ rw (no_rule, dial) (no_rule, refl, refl)
      | inl allowed ↦
          let p : IsPermitted a target = record {
            host = host;
            port = port;
            is_target = refl;
            is_permitted = allowed;
          } in
          elim (Bool-cases (reaches target)) [
            | inl e ↦ rw (allowed, e, dial) p
            | inr e ↦ rw (allowed, e, dial) p
          ]
    ]

-- A connection is to the target of the host and port.
pub dial_connected :
    (a : Allowlist) (reaches : Bytes → Bool) (host : Bytes) (port : ℕ) {target : Bytes}
    → dial a reaches host port ≡ connected target
    → (target ≡ join_host_port host (itoa port)) × (permits a host port ≡ true)
unfolding dial
dial_connected a reaches host port h = ground arith
