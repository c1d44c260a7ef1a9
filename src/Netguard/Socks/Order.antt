-- ===== src/Netguard/Socks/Order.antt =====
-- netguard.go: the order of `handleSocks`'s actions, as a state machine over its trace.
use curimata.Common.{
  ℕ, ◌+◌, ◌*◌, ◌≡◌, refl, inl, inr, ◌⊎◌, Bool, true, false, not, List, [], ◌∷◌, ◌++◌, map, ltb,
  ◌==◌, if◌then◌else◌, Bytes, Option-cases, length,
}
use curimata.Text.Address.{ip_text}
use curimata.Netguard.Allowlist.{Allowlist}
use curimata.Netguard.Dial.{Dialed, refused, unreachable, connected, dial, dial_log, attempts}
use curimata.Netguard.Socks.{
  World, Action, log, attempt, to_client, to_server, splice, close_server, close_client, read_full,
  reading, byte_at, reply, relay, serve_target, after_dial, socks_dial, socks_port, socks_ip,
  socks_domain, socks_address, socks_request, socks_methods, socks_greeting, handle_socks,
  socks_version,
}

pub data Phase : Type 0 where
  opening greeted dialing answered serving closed : Phase

-- What may happen in a phase.
abbrev pub Fits : Phase → Action → Type 0
Fits opening (to_client s) = s ≡ 5 ∷ 0 ∷ []
Fits greeted (attempt target) = Unit {0}
Fits greeted (log l) = Unit {0}
Fits greeted (to_client s) = (s ≡ reply 2) ⊎ (s ≡ reply 7)
Fits dialing (log l) = Unit {0}
Fits dialing (to_client s) = (s ≡ reply 0) ⊎ (s ≡ reply 4)
Fits serving (to_server target s) = Unit {0}
Fits serving (splice target s) = Unit {0}
Fits serving (close_server target) = Unit {0}
Fits closed x = ⊥
Fits dialing close_client = ⊥
Fits p close_client = Unit {0}
Fits p x = ⊥

abbrev pub after : Phase → Action → Phase
after opening (to_client s) = greeted
after greeted (attempt target) = dialing
after greeted (to_client s) = answered
after dialing (to_client (v ∷ code ∷ s)) = if code == 0 then serving else answered
after p close_client = closed
after p x = p

-- A trace that fits from phase to phase and ends with the client's connection closed.
abbrev pub Follows : Phase → List Action → Type 0
Follows closed [] = Unit {0}
Follows p [] = ⊥
Follows p (x ∷ xs) = Fits p x × Follows (after p x) xs

reading-Follows :
    (p : Phase) (n : ℕ) (input : Bytes) (next : Bytes → Bytes → List Action)
    → Follows p (close_client ∷ [])
    → ((raw rest : Bytes) → Follows p (next raw rest ++ (close_client ∷ [])))
    → Follows p (reading n input next ++ (close_client ∷ []))
unfolding reading
reading-Follows p n input next e h = elim (Option-cases (read_full n input)) [
  | inl short ↦ rw (short, reading) e
  | inr ((raw, rest), full) ↦ rw (full, reading) (h raw rest)
]

if-Follows :
    (p : Phase) (b : Bool) (xs ys : List Action)
    → Follows p (xs ++ (close_client ∷ []))
    → Follows p (ys ++ (close_client ∷ []))
    → Follows p ((if b then xs else ys) ++ (close_client ∷ []))
if-Follows p true xs ys hx hy = hx
if-Follows p false xs ys hx hy = hy

module _ (a : Allowlist) (w : World) where
  relay-Follows :
      (target input : Bytes) → Follows serving (relay w target input ++ (close_client ∷ []))
  unfolding relay
  relay-Follows target input =
      let n = if ltb (length input) w.buffered then length input else w.buffered in
      if-Follows serving (n == 0) _ _ (tt, (tt, (tt, tt)))
        (tt, if-Follows serving w.relay_written _ _ (tt, (tt, (tt, tt))) (tt, (tt, tt)))

  dialed-Follows :
      (input : Bytes) (d : Dialed)
      → Follows greeted (
          (map attempt (attempts d) ++ (log (dial_log d) ∷ after_dial w input d))
          ++ (close_client ∷ []))
  unfolding attempts after_dial serve_target
  dialed-Follows input (refused e) = (tt, (inl refl, (tt, tt)))
  dialed-Follows input (unreachable target) = (tt, (tt, (inr refl, (tt, tt))))
  dialed-Follows input (connected target) = (
    tt,
    (
      tt,
      (
        inl refl,
        if-Follows serving w.reply_written _ _ (relay-Follows target input) (tt, (tt, tt)),
      ),
    ),
  )

  socks_port-Follows :
      (host input : Bytes) → Follows greeted (socks_port a w host input ++ (close_client ∷ []))
  unfolding socks_port socks_dial
  socks_port-Follows host input =
      reading-Follows greeted 2 input _ (tt, tt)
        λ raw rest.
          dialed-Follows rest (dial a w.reaches host (byte_at raw 0 * 256 + byte_at raw 1))

  socks_address-Follows :
      (kind : ℕ) (input : Bytes)
      → Follows greeted (socks_address a w kind input ++ (close_client ∷ []))
  unfolding socks_address socks_ip socks_domain
  socks_address-Follows kind input =
      if-Follows greeted (kind == 1) _ _
        (reading-Follows greeted 4 input _ (tt, tt)
          λ raw rest. socks_port-Follows (ip_text raw) rest)
        (if-Follows greeted (kind == 4) _ _
          (reading-Follows greeted 16 input _ (tt, tt)
            λ raw rest. socks_port-Follows (ip_text raw) rest)
          (if-Follows greeted (kind == 3) _ _
            (reading-Follows greeted 1 input _ (tt, tt)
              λ size rest.
                reading-Follows greeted (byte_at size 0) rest _ (tt, tt)
                  λ raw more. socks_port-Follows raw more)
            (inr refl, (tt, tt))))

  socks_request-Follows :
      (input : Bytes) → Follows greeted (socks_request a w input ++ (close_client ∷ []))
  unfolding socks_request
  socks_request-Follows input =
      reading-Follows greeted 4 input _ (tt, tt)
        λ req rest.
          if-Follows greeted (not (byte_at req 0 == socks_version)) _ _ (tt, tt)
            (if-Follows greeted (not (byte_at req 1 == 1)) _ _ (inr refl, (tt, tt))
              (socks_address-Follows (byte_at req 3) rest))

  -- Every run closes the client's connection last. Before that it writes at most the greeting and one
  -- reply: "not allowed" or "command not supported" with no dial, "unreachable" or success after one, and
  -- a server gets bytes only after the success reply.
  pub handle_socks-Follows : (input : Bytes) → Follows opening (handle_socks a w input)
  unfolding handle_socks socks_greeting socks_methods
  handle_socks-Follows input =
      reading-Follows opening 2 input _ (tt, tt)
        λ head rest.
          if-Follows opening (not (byte_at head 0 == socks_version)) _ _ (tt, tt)
            (reading-Follows opening (byte_at head 1) rest _ (tt, tt)
              λ _ more. (
                refl,
                if-Follows greeted w.greeting_written _ _ (socks_request-Follows more) (tt, tt),
              ))
