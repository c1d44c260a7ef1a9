-- ===== src/Netguard/Http/Safety.antt =====
-- netguard.go: what a whole run of `handleHTTP` reaches.
use curimata.Common.{
  ℕ, inl, inr, List, [], ◌∷◌, map, Option, none, ltb, ◌==◌, if◌then◌else◌, Bytes, All, All-append,
  All-if, All-mono, Bool-cases, length, Result-cases,
}
use curimata.Netguard.Allowlist.{Allowlist, target_of}
use curimata.Netguard.Dial.{Dialed, refused, unreachable, connected, dial, Respects, dial-Respects}
use curimata.Netguard.Message.{Request, World, bad_request}
use curimata.Netguard.Http.{
  tunnel_to, connect_to, handle_connect, forward_request, finish, serve_requests, handle_http,
}
use curimata.Netguard.Http.Sending.{IsSafe, OpenTo, close_old-IsSafe, dial_actions-IsSafe}
use curimata.Netguard.Http.Forward.{IsListed, forward_request-safe}

module _ (a : Allowlist) (requests : List Request) where
  connect_to-IsSafe :
      (w : World) (host : Bytes) (port : ℕ) (d : Dialed)
      → Respects a host port d
      → All (IsSafe a requests) (connect_to w d)
  unfolding connect_to tunnel_to
  connect_to-IsSafe w host port (refused e) r = tt
  connect_to-IsSafe w host port (unreachable target) r = tt
  connect_to-IsSafe w host port (connected target) r =
      let n = if ltb (length w.tunnel) w.buffered then length w.tunnel else w.buffered in
      elim (Bool-cases w.established_written) [
        | inr e ↦ rw e (tt, (tt, (tt, tt)))
        | inl e ↦ elim (Bool-cases (n == 0)) [
          | inl f ↦ rw (e, f) (tt, (r, tt))
          | inr f ↦ elim (Bool-cases w.relay_written) [
            | inl g ↦ rw (e, f, g) (tt, (r, (r, tt)))
            | inr g ↦ rw (e, f, g) (tt, (r, (tt, (tt, tt))))
          ]
        ]
      ]

  handle_connect-IsSafe :
      (w : World) (request : Request) → All (IsSafe a requests) (handle_connect a w request)
  unfolding handle_connect bad_request
  handle_connect-IsSafe w request = elim (Result-cases (target_of request.host 443)) [
    | inr (x, e) ↦ rw (e, handle_connect) (tt, tt)
    | inl ((host, port), e) ↦
        let r = dial-Respects a w.reaches host port in
        rw (e, handle_connect)
          (All-append (IsSafe a requests) _ _
            (dial_actions-IsSafe a requests host port w.error_text (dial a w.reaches host port) r)
            (connect_to-IsSafe w host port (dial a w.reaches host port) r))
  ]

  finish-IsSafe : (server : Option Bytes) → All (IsSafe a requests) (finish server)
  unfolding finish
  finish-IsSafe server =
      All-append (IsSafe a requests) _ _ (close_old-IsSafe a requests server) (tt, tt)

  serve_requests-IsSafe :
      (items : List (Request × World)) (server : Option Bytes)
      → All (λ item. IsListed a requests item.0) items
      → OpenTo a server
      → All (IsSafe a requests) (serve_requests a server items)
  unfolding serve_requests
  serve_requests-IsSafe [] server listed o = finish-IsSafe server
  serve_requests-IsSafe ((request, w) ∷ more) server (here, listed) o =
      let step = forward_request a w server request in
      let s = forward_request-safe a requests w request here server o in
      let rest = serve_requests-IsSafe more step.server listed s.1 in
      elim (Bool-cases request.is_connect) [
        | inl e ↦ simp e (
            All-append (IsSafe a requests) _ _ (close_old-IsSafe a requests server)
              (All-append (IsSafe a requests) _ _ (handle_connect-IsSafe w request) (tt, tt)))
        | inr e ↦ simp e (elim (Bool-cases step.keep_open) [
          | inl k ↦ rw k (All-append (IsSafe a requests) _ _ s.0 rest)
          | inr k ↦ rw k (All-append (IsSafe a requests) _ _ s.0 (finish-IsSafe step.server))
        ])
      ]

-- The requests of a run.
abbrev pub requests_of : List (Request × World) → List Request
requests_of items = map (λ item. item.0) items

requests_of-IsListed :
    (a : Allowlist) (items : List (Request × World))
    → All (λ item. IsListed a (requests_of items) item.0) items
requests_of-IsListed a [] = tt
requests_of-IsListed a ((request, w) ∷ more) = (
  λ target sent s. inl s,
  All-mono (λ item. IsListed a (requests_of more) item.0)
      (λ item. IsListed a (request ∷ requests_of more) item.0)
      (λ item h target sent s. inr (h target sent s)) more (requests_of-IsListed a more),
)

-- Whatever requests a client sends on one connection and however the world answers, the HTTP proxy asks
-- the dialer for no target, moves no bytes to one and splices with none that the allowlist does not
-- permit. What it sends to a server is the forwarded form of one of the requests, and goes to that
-- request's own host and port, which the allowlist permits.
pub handle_http-IsSafe :
    (a : Allowlist) (items : List (Request × World))
    → All (IsSafe a (requests_of items)) (handle_http a items)
unfolding handle_http
handle_http-IsSafe a [] = (tt, tt)
handle_http-IsSafe a ((request, w) ∷ more) =
    let items = (request, w) ∷ more in
    All-if (IsSafe a (requests_of items)) request.is_connect _ _
      (handle_connect-IsSafe a (requests_of items) w request)
      (serve_requests-IsSafe a (requests_of items) items none (requests_of-IsListed a items) tt)
