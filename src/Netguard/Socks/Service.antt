-- ===== src/Netguard/Socks/Service.antt =====
-- netguard.go: what `handleSocks` does for a complete CONNECT request by name.
use curimata.Common.{
  ℕ, ◌+◌, ◌*◌, ◌≡◌, refl, ◌∙◌, inl, inr, true, false, not, List, [], ◌∷◌, ◌++◌, ltb, ◌==◌, arith,
  if◌then◌else◌, Bytes, Bool-cases, length, take-append-drop, take-length-append,
  drop-length-append, length-append, append-nil,
}
use curimata.Text.Number.{itoa}
use curimata.Text.Split.{join_host_port}
use curimata.Netguard.Allowlist.{Allowlist, permits}
use curimata.Netguard.Dial.{dial, dial_log, attempts}
use curimata.Netguard.Socks.{
  World, Action, attempt, to_client, to_server, splice, close_client, read_full, reading, byte_at,
  reply, relay, serve_target, after_dial, socks_dial, socks_port, socks_domain, socks_address,
  socks_request, socks_methods, socks_greeting, handle_socks, socks_version,
}

-- The bytes that a run writes to the client, and those that it hands to a server.
pub client_bytes : List Action → Bytes
client_bytes [] = []
client_bytes (to_client s ∷ as') = s ++ client_bytes as'
client_bytes (_ ∷ as') = client_bytes as'

pub server_bytes : List Action → Bytes
server_bytes [] = []
server_bytes (to_server target s ∷ as') = s ++ server_bytes as'
server_bytes (splice target s ∷ as') = s ++ server_bytes as'
server_bytes (_ ∷ as') = server_bytes as'

pub attempted : List Action → List Bytes
attempted [] = []
attempted (attempt target ∷ as') = target ∷ attempted as'
attempted (_ ∷ as') = attempted as'

-- The greeting with a list of methods, and a CONNECT request by name.
abbrev pub connect_request : Bytes → Bytes → ℕ → ℕ → Bytes → Bytes
connect_request methods host high low rest =
    5 ∷ length methods ∷ (methods ++ 5 ∷ 1 ∷ 0 ∷ 3 ∷ length host ∷ (host ++ high ∷ low ∷ rest))

reading-length :
    (xs ys : Bytes) (next : Bytes → Bytes → List Action)
    → reading (length xs) (xs ++ ys) next ≡ next xs ys
unfolding reading read_full
reading-length xs ys next =
    let fits : ltb (length (xs ++ ys)) (length xs) ≡ false = ground (arith, length-append xs ys) in
    rw (fits, reading, read_full) (rw (take-length-append xs ys, drop-length-append xs ys))

module _ (a : Allowlist) (w : World) where
  socks_port_lem :
      (host : Bytes) (high low : ℕ) (rest : Bytes)
      → socks_port a w host (high ∷ low ∷ rest) ≡ socks_dial a w host (high * 256 + low) rest
  unfolding socks_port byte_at
  socks_port_lem host high low rest =
      reading-length (high ∷ low ∷ []) rest
        (λ raw more. socks_dial a w host (byte_at raw 0 * 256 + byte_at raw 1) more)

  socks_domain_lem :
      (host : Bytes) (high low : ℕ) (rest : Bytes)
      → socks_domain a w (length host ∷ (host ++ high ∷ low ∷ rest))
        ≡ socks_dial a w host (high * 256 + low) rest
  unfolding socks_domain byte_at
  socks_domain_lem host high low rest =
      let input = host ++ high ∷ low ∷ rest in
      reading-length (length host ∷ []) input
        (λ size more. reading (byte_at size 0) more λ raw end. socks_port a w raw end)
      ∙ reading-length host (high ∷ low ∷ rest) (λ raw more. socks_port a w raw more)
      ∙ socks_port_lem host high low rest

  socks_request_lem :
      (host : Bytes) (high low : ℕ) (rest : Bytes)
      → socks_request a w (5 ∷ 1 ∷ 0 ∷ 3 ∷ length host ∷ (host ++ high ∷ low ∷ rest))
        ≡ socks_dial a w host (high * 256 + low) rest
  unfolding socks_request socks_address byte_at
  socks_request_lem host high low rest =
      reading-length (5 ∷ 1 ∷ 0 ∷ 3 ∷ []) (length host ∷ (host ++ high ∷ low ∷ rest)) (λ req more.
        if not (byte_at req 0 == socks_version)
        then []
        else if not (byte_at req 1 == 1)
        then to_client (reply 7) ∷ []
        else socks_address a w (byte_at req 3) more)
      ∙ socks_domain_lem host high low rest

  socks_greeting_lem :
      (methods input : Bytes)
      → socks_greeting a w (5 ∷ length methods ∷ (methods ++ input))
        ≡ to_client (5 ∷ 0 ∷ []) ∷ (if w.greeting_written then socks_request a w input else [])
  unfolding socks_greeting socks_methods byte_at
  socks_greeting_lem methods input =
      reading-length (5 ∷ length methods ∷ []) (methods ++ input) (λ head rest.
        if not (byte_at head 0 == socks_version)
        then []
        else socks_methods a w (byte_at head 1) rest)
      ∙ reading-length methods input (λ _ rest.
        to_client (5 ∷ 0 ∷ []) ∷ (if w.greeting_written then socks_request a w rest else []))

  -- A run on a complete request by name is the greeting, the dial and what follows from its result.
  handle_socks_connect :
      (methods host : Bytes) (high low : ℕ) (rest : Bytes)
      → w.greeting_written ≡ true
      → handle_socks a w (connect_request methods host high low rest)
        ≡ to_client (5 ∷ 0 ∷ [])
          ∷ (socks_dial a w host (high * 256 + low) rest ++ (close_client ∷ []))
  unfolding handle_socks
  handle_socks_connect methods host high low rest written =
      rw (socks_greeting_lem methods (5 ∷ 1 ∷ 0 ∷ 3 ∷ length host ∷ (host ++ high ∷ low ∷ rest)))
        (simp (written, socks_request_lem host high low rest))

  relay_bytes :
      (target input : Bytes)
      → w.relay_written ≡ true
      → (server_bytes (relay w target input ++ (close_client ∷ [])) ≡ input)
        × (client_bytes (relay w target input ++ (close_client ∷ [])) ≡ [])
        × (attempted (relay w target input ++ (close_client ∷ [])) ≡ [])
  unfolding relay server_bytes client_bytes attempted
  relay_bytes target input ok =
      let n = if ltb (length input) w.buffered then length input else w.buffered in
      elim (Bool-cases (n == 0)) [
        | inl e ↦ (rw (e, append-nil), rw e, rw e)
        | inr e ↦ (rw (e, ok, append-nil) (take-append-drop n input), rw (e, ok), rw (e, ok))
      ]

  -- A client sends a complete request to CONNECT to a host by name, the allowlist permits the target, the dialer reaches it and all writes succeed: the
  -- client gets the greeting and one success reply, the dialer is asked for that target alone, and the
  -- server gets exactly the bytes behind the request, in order, however many were buffered.
  pub handle_socks_served :
      (methods host : Bytes) (high low : ℕ) (rest : Bytes)
      → w.greeting_written ≡ true
      → w.reply_written ≡ true
      → w.relay_written ≡ true
      → permits a host (high * 256 + low) ≡ true
      → w.reaches (join_host_port host (itoa (high * 256 + low))) ≡ true
      → let target = join_host_port host (itoa (high * 256 + low)) in
        let run = handle_socks a w (connect_request methods host high low rest) in
        (client_bytes run ≡ 5 ∷ 0 ∷ reply 0)
        × (attempted run ≡ target ∷ [])
        × (server_bytes run ≡ rest)
  unfolding socks_dial dial attempts dial_log after_dial serve_target client_bytes server_bytes
      attempted
  handle_socks_served methods host high low rest greeted replied relayed allowed reached =
      let target = join_host_port host (itoa (high * 256 + low)) in
      let (sent, silent, quiet) = relay_bytes target rest relayed in
      rw (handle_socks_connect methods host high low rest greeted, socks_dial, allowed, reached)
        (simp replied (rw silent, rw quiet, rw sent))

  -- A client sends a complete request to CONNECT to a host by name, its greeting is answered, and the
  -- allowlist does not permit the target: the client gets the greeting and the reply "not allowed",
  -- the dialer is not asked for anything, and no server gets a byte.
  handle_socks_denied :
      (methods host : Bytes) (high low : ℕ) (rest : Bytes)
      → w.greeting_written ≡ true
      → permits a host (high * 256 + low) ≡ false
      → let run = handle_socks a w (connect_request methods host high low rest) in
        (client_bytes run ≡ 5 ∷ 0 ∷ reply 2) × (attempted run ≡ []) × (server_bytes run ≡ [])
  unfolding socks_dial dial attempts dial_log after_dial client_bytes server_bytes attempted
  handle_socks_denied methods host high low rest greeted refusal =
      rw (handle_socks_connect methods host high low rest greeted, socks_dial, refusal)
        (refl, refl, refl)
