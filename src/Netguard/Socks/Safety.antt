-- ===== src/Netguard/Socks/Safety.antt =====
-- netguard.go: `handleSocks` reaches only what the allowlist permits.
use curimata.Common.{
  ℕ, ◌+◌, ◌*◌, inl, inr, not, List, [], ◌∷◌, ◌++◌, map, ltb, ◌==◌, if◌then◌else◌, Bytes, All,
  All-append, All-if, Option-cases, length,
}
use curimata.Text.Address.{ip_text}
use curimata.Netguard.Allowlist.{Allowlist}
use curimata.Netguard.Dial.{
  Dialed, refused, unreachable, connected, dial_log, attempts, IsPermitted, Respects, dial-Respects,
}
use curimata.Netguard.Socks.{
  World, Action, log, attempt, to_client, to_server, splice, close_server, close_client, read_full,
  reading, byte_at, relay, serve_target, after_dial, socks_dial, socks_port, socks_ip, socks_domain,
  socks_address, socks_request, socks_methods, socks_greeting, handle_socks, socks_version,
}

-- A target is asked for, or gets the client's bytes, only if it is permitted.
abbrev pub IsSafe : Allowlist → Action → Type 0
IsSafe a (log l) = Unit {0}
IsSafe a (attempt target) = IsPermitted a target
IsSafe a (to_client s) = Unit {0}
IsSafe a (to_server target s) = IsPermitted a target
IsSafe a (splice target s) = IsPermitted a target
IsSafe a (close_server target) = IsPermitted a target
IsSafe a close_client = Unit {0}

reading-All :
    (P : Action → Type 0) (n : ℕ) (input : Bytes) (next : Bytes → Bytes → List Action)
    → ((raw rest : Bytes) → All P (next raw rest))
    → All P (reading n input next)
unfolding reading
reading-All P n input next h = elim (Option-cases (read_full n input)) [
  | inl e ↦ rw (e, reading) tt
  | inr ((raw, rest), e) ↦ rw (e, reading) (h raw rest)
]

module _ (a : Allowlist) (w : World) where
  relay-IsSafe :
      (target input : Bytes) → IsPermitted a target → All (IsSafe a) (relay w target input)
  unfolding relay
  relay-IsSafe target input p =
      let n = if ltb (length input) w.buffered then length input else w.buffered in
      All-if (IsSafe a) (n == 0) _ _ (p, (p, tt))
        (p, All-if (IsSafe a) w.relay_written _ _ (p, (p, tt)) (p, tt))

  serve_target-IsSafe :
      (target input : Bytes) → IsPermitted a target → All (IsSafe a) (serve_target w target input)
  unfolding serve_target
  serve_target-IsSafe target input p =
      (tt, All-if (IsSafe a) w.reply_written _ _ (relay-IsSafe target input p) (p, tt))

  dialed-IsSafe :
      (host : Bytes) (port : ℕ) (input : Bytes) (d : Dialed)
      → Respects a host port d
      → All (IsSafe a) (map attempt (attempts d) ++ (log (dial_log d) ∷ after_dial w input d))
  unfolding attempts after_dial
  dialed-IsSafe host port input (refused e) p = (tt, (tt, tt))
  dialed-IsSafe host port input (unreachable target) p = (p, (tt, (tt, tt)))
  dialed-IsSafe host port input (connected target) p = (p, (tt, serve_target-IsSafe target input p))

  socks_port-IsSafe : (host input : Bytes) → All (IsSafe a) (socks_port a w host input)
  unfolding socks_port socks_dial
  socks_port-IsSafe host input = reading-All (IsSafe a) 2 input _ λ raw rest.
      dialed-IsSafe host (byte_at raw 0 * 256 + byte_at raw 1) rest _
        (dial-Respects a w.reaches host _)

  socks_address-IsSafe : (kind : ℕ) (input : Bytes) → All (IsSafe a) (socks_address a w kind input)
  unfolding socks_address socks_ip socks_domain
  socks_address-IsSafe kind input =
      All-if (IsSafe a) (kind == 1) _ _
        (reading-All (IsSafe a) 4 input _ λ raw rest. socks_port-IsSafe (ip_text raw) rest)
        (All-if (IsSafe a) (kind == 4) _ _
          (reading-All (IsSafe a) 16 input _ λ raw rest. socks_port-IsSafe (ip_text raw) rest)
          (All-if (IsSafe a) (kind == 3) _ _
            (reading-All (IsSafe a) 1 input _ λ size rest.
              reading-All (IsSafe a) (byte_at size 0) rest _ λ raw more. socks_port-IsSafe raw more)
            (tt, tt)))

  socks_greeting-IsSafe : (input : Bytes) → All (IsSafe a) (socks_greeting a w input)
  unfolding socks_greeting socks_methods socks_request
  socks_greeting-IsSafe input = reading-All (IsSafe a) 2 input _ λ head rest.
      All-if (IsSafe a) (not (byte_at head 0 == socks_version)) _ _ tt (
        reading-All (IsSafe a) (byte_at head 1) rest _ λ _ more. (
          tt,
          All-if (IsSafe a) w.greeting_written _ _
              (reading-All (IsSafe a) 4 more _ λ req end.
                All-if (IsSafe a) (not (byte_at req 0 == socks_version)) _ _ tt (
                  All-if (IsSafe a) (not (byte_at req 1 == 1)) _ _ (tt, tt)
                    (socks_address-IsSafe (byte_at req 3) end)))
              tt,
        ))

  -- Whatever the client sends and however the writes and dials end, the handler asks the dialer only for
  -- targets of hosts and ports that the allowlist permits, and sends the client's bytes to no other.
  pub handle_socks-IsSafe : (input : Bytes) → All (IsSafe a) (handle_socks a w input)
  unfolding handle_socks socks_greeting
  handle_socks-IsSafe input =
      All-append (IsSafe a) (socks_greeting a w input) (close_client ∷ [])
        (socks_greeting-IsSafe input) (tt, tt)
