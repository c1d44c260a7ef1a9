-- ===== src/Netguard/Http/Sending.antt =====
-- netguard.go: what the HTTP proxy does over one open connection touches permitted targets alone.
use curimata.Common.{
  ℕ, ◌≤◌, ◌≡◌, inl, inr, Bool, true, false, List, [], ◌∷◌, Option, none, some, ◌==◌, arith, Bytes,
  All, Any, Bool-cases, Option-cases, ok,
}
use curimata.Text.Number.{itoa}
use curimata.Text.Split.{join_host_port}
use curimata.Netguard.Allowlist.{Allowlist, permits, target_of, port_number, split_host_port}
use curimata.Netguard.Allowlist.Parsing.{port_number_range}
use curimata.Netguard.Dial.{
  Dialed, refused, unreachable, connected, attempts, IsPermitted, Respects,
}
use curimata.Netguard.Message.{
  Request, Response, World, Action, attempt, send, to_server, splice, bad_gateway, forbidden,
  dial_error, dial_actions,
}
use curimata.Netguard.Http.{
  Step, close_old, request_target, expects_continue, forwarded, is_interim, copy_to_server,
  copy_to_client, finish_response, read_responses, exchange, with_continue,
}

-- The target is that of a permitted host and a port number.
pub record IsServer (a : Allowlist) (target : Bytes) : Type 0 where
  pub host : Bytes
  pub port : ℕ
  pub port_range : port ≤ 65535
  pub is_target : target ≡ join_host_port host (itoa port)
  pub is_permitted : permits a host port ≡ true

-- What was sent to a target is the forwarded form of a request, and the target is the request's own:
-- its host and port, which the allowlist permits.
pub record Sends (a : Allowlist) (target : Bytes) (sent request : Request) : Type 0 where
  pub is_forwarded : sent ≡ forwarded request
  pub host : Bytes
  pub port : ℕ
  pub is_own : target_of (request_target request) 80 ≡ ok (host, port)
  pub is_target : target ≡ join_host_port host (itoa port)
  pub is_permitted : permits a host port ≡ true

abbrev pub IsSafe : Allowlist → List Request → Action → Type 0
IsSafe a requests (attempt target) = IsPermitted a target
IsSafe a requests (send target sent) = Any (Sends a target sent) requests
IsSafe a requests (to_server target s) = IsPermitted a target
IsSafe a requests (splice target) = IsPermitted a target
IsSafe a requests x = Unit {0}

IsServer-IsPermitted : (a : Allowlist) (target : Bytes) → IsServer a target → IsPermitted a target
IsServer-IsPermitted a target s = record {
  host = s.host;
  port = s.port;
  is_target = s.is_target;
  is_permitted = s.is_permitted;
}

abbrev pub OpenTo : Allowlist → Option Bytes → Type 0
OpenTo a none = Unit {0}
OpenTo a (some target) = IsServer a target

pub target_of_range :
    (s : Bytes) (fallback : ℕ) {host : Bytes} {port : ℕ}
    → fallback ≤ 65535
    → target_of s fallback ≡ ok (host, port)
    → port ≤ 65535
unfolding target_of
target_of_range [] fallback low h = cc
target_of_range (c ∷ s) fallback low h = elim (Option-cases (split_host_port (c ∷ s))) [
  | inl e ↦ ground arith
  | inr ((front, text), e) ↦ elim (Option-cases (port_number text)) [
    | inl n ↦ ground arith
    | inr (p, n) ↦ ground (arith, port_number_range text n)
  ]
]

module _ (a : Allowlist) (requests : List Request) where
  pub close_old-IsSafe : (server : Option Bytes) → All (IsSafe a requests) (close_old server)
  unfolding close_old
  close_old-IsSafe none = tt
  close_old-IsSafe (some target) = (tt, tt)

  pub dial_actions-IsSafe :
      (host : Bytes) (port : ℕ) (text : Bytes) (d : Dialed)
      → Respects a host port d
      → All (IsSafe a requests) (dial_actions text d)
  unfolding dial_actions dial_error attempts bad_gateway forbidden
  dial_actions-IsSafe host port text (refused e) p = (tt, (tt, tt))
  dial_actions-IsSafe host port text (unreachable target) p = (p, (tt, (tt, tt)))
  dial_actions-IsSafe host port text (connected target) p = (p, (tt, tt))

  module _ (w : World) (request : Request) (target : Bytes) (s : IsServer a target) where
    abbrev pub IsGood : Step → Type 0
    IsGood step = All (IsSafe a requests) step.actions × OpenTo a step.server

    copy_to_server-IsGood :
        (rest : Bytes) (written : Bool) → IsGood (copy_to_server target rest written)
    unfolding copy_to_server
    copy_to_server-IsGood [] written = ((IsServer-IsPermitted a target s, tt), tt)
    copy_to_server-IsGood (b ∷ rest) false = ((IsServer-IsPermitted a target s, tt), s)
    copy_to_server-IsGood (b ∷ rest) true =
        let p = IsServer-IsPermitted a target s in ((p, (p, tt)), tt)

    copy_to_client-IsGood :
        (rest : Bytes) (written : Bool) (next : Step)
        → IsGood next
        → IsGood (copy_to_client target rest written next)
    unfolding copy_to_client
    copy_to_client-IsGood [] written next h = h
    copy_to_client-IsGood (b ∷ rest) false next h = ((tt, tt), s)
    copy_to_client-IsGood (b ∷ rest) true next (h, k) = ((tt, h), k)

    finish_response-IsGood :
        (r : Response) (written : Bool) → IsGood (finish_response w request target r written)
    unfolding finish_response
    finish_response-IsGood r written =
        let (h, k) =
          copy_to_client-IsGood w.server_rest w.copied_to_client
            (copy_to_server target w.client_rest w.copied_to_server)
            (copy_to_server-IsGood w.client_rest w.copied_to_server) in
        elim (Bool-cases written) [
          | inr e ↦ rw e ((tt, tt), s)
          | inl e ↦ elim (Bool-cases (r.status == 101)) [
            | inr f ↦ rw (e, f) ((tt, tt), s)
            | inl f ↦ rw (e, f) ((tt, h), k)
          ]
        ]

    read_responses-IsGood :
        (first : Bool) (rs : List (Response × Bool))
        → IsGood (read_responses w request target first rs)
    unfolding read_responses bad_gateway
    read_responses-IsGood true [] = ((tt, tt), s)
    read_responses-IsGood false [] = (tt, s)
    read_responses-IsGood first ((r, written) ∷ more) =
        let rest = read_responses-IsGood false more in
        elim (Bool-cases (is_interim r)) [
          | inr e ↦ rw e (finish_response-IsGood r written)
          | inl e ↦ elim (Bool-cases written) [
            | inl f ↦ rw (e, f) ((tt, rest.0), rest.1)
            | inr f ↦ rw (e, f) ((tt, tt), s)
          ]
        ]

    exchange-IsGood :
        Any (Sends a target (forwarded request)) requests → IsGood (exchange w request target)
    unfolding exchange
    exchange-IsGood sent =
        let rest = read_responses-IsGood true w.responses in
        elim (Bool-cases w.request_written) [
          | inl e ↦ simp e ((sent, rest.0), rest.1)
          | inr e ↦ simp e ((sent, tt), s)
        ]

    pub with_continue-IsGood :
        Any (Sends a target (forwarded request)) requests → IsGood (with_continue w request target)
    unfolding with_continue
    with_continue-IsGood sent =
        let rest = exchange-IsGood sent in
        elim (Bool-cases (expects_continue request)) [
          | inr e ↦ simp e rest
          | inl e ↦ elim (Bool-cases w.continue_written) [
            | inl f ↦ simp (e, f) ((tt, rest.0), rest.1)
            | inr f ↦ simp (e, f) ((tt, tt), s)
          ]
        ]
