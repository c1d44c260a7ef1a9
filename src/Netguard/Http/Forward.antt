-- ===== src/Netguard/Http/Forward.antt =====
-- netguard.go: each request that the HTTP proxy forwards goes to its own host, and the allowlist permits
-- that host.
use curimata.Common.{
  ℕ, ◌≤◌, ◌≡◌, refl, sym, inl, inr, true, List, Option, none, some, arith, Bytes, bytes_eq,
  bytes_eq_iff, codes, All, All-append, Any, Bool-cases, ok, Result-cases,
}
use curimata.Text.Number.{itoa}
use curimata.Text.Split.{join_host_port}
use curimata.Text.Split.Injective.{join_host_port_inj}
use curimata.Netguard.Allowlist.{Allowlist, permits, target_of}
use curimata.Netguard.Dial.{
  Dialed, refused, unreachable, connected, dial, Respects, dial-Respects, dial_connected,
}
use curimata.Netguard.Message.{Request, World, Action, bad_request}
use curimata.Netguard.Http.{
  Step, close_old, request_target, request_scheme, forwarded, is_open, after_dial, with_server,
  forward_request,
}
use curimata.Netguard.Http.Sending.{
  IsServer, Sends, IsSafe, OpenTo, target_of_range, close_old-IsSafe, dial_actions-IsSafe,
  with_continue-IsGood,
}

is_open_eq :
    (server : Option Bytes) (target : Bytes) → is_open server target ≡ true → server ≡ some target
unfolding is_open
is_open_eq none target h = cc
is_open_eq (some t) target h = let e = (bytes_eq_iff t target).0 h in cc

module _ (a : Allowlist) (requests : List Request) where
  -- The request is one of those that the trace is about.
  abbrev pub IsListed : Request → Type 0
  IsListed request =
      (target : Bytes) (sent : Request)
      → Sends a target sent request
      → Any (Sends a target sent) requests

  abbrev pub IsSafeStep : Step → Type 0
  IsSafeStep step = All (IsSafe a requests) step.actions × OpenTo a step.server

  module _ (w : World) (request : Request) (listed : IsListed request) where
    own-IsServer :
        (server : Option Bytes) (host : Bytes) (port : ℕ) (target : Bytes)
        → OpenTo a server
        → server ≡ some target
        → target ≡ join_host_port host (itoa port)
        → port ≤ 65535
        → IsServer a target × (permits a host port ≡ true)
    own-IsServer none host port target o e q range = cc
    own-IsServer (some t) host port target o e q range =
        let same : t ≡ target = cc e in
        let joined : join_host_port o.host (itoa o.port) ≡ join_host_port host (itoa port) =
          cc (o.is_target) in
        let range' = o.port_range in
        let (h, p) =
          join_host_port_inj o.host host o.port port (omega arith) (omega arith) joined in
        (rw (← same) o, cc (o.is_permitted, h, p))

    Sends-own :
        (host : Bytes) (port : ℕ)
        → target_of (request_target request) 80 ≡ ok (host, port)
        → permits a host port ≡ true
        → Any (Sends a (join_host_port host (itoa port)) (forwarded request)) requests
    Sends-own host port own allowed = listed _ _ (record {
      is_forwarded = refl;
      host = host;
      port = port;
      is_own = own;
      is_target = refl;
      is_permitted = allowed;
    })

    after_dial-safe :
        (closing : List Action) (host : Bytes) (port : ℕ) (d : Dialed)
        → All (IsSafe a requests) closing
        → target_of (request_target request) 80 ≡ ok (host, port)
        → port ≤ 65535
        → d ≡ dial a w.reaches host port
        → Respects a host port d
        → IsSafeStep (after_dial w request closing d)
    unfolding after_dial
    after_dial-safe closing host port (refused e) c own range q r = (
      All-append (IsSafe a requests) closing _ c
          (dial_actions-IsSafe a requests host port w.error_text (refused e) r),
      tt,
    )
    after_dial-safe closing host port (unreachable target) c own range q r = (
      All-append (IsSafe a requests) closing _ c
          (dial_actions-IsSafe a requests host port w.error_text (unreachable target) r),
      tt,
    )
    after_dial-safe closing host port (connected target) c own range q r =
        let (e, allowed) = dial_connected a w.reaches host port (sym q) in
        let s : IsServer a target = record {
          host = host;
          port = port;
          port_range = range;
          is_target = e;
          is_permitted = allowed;
        } in
        let rest =
          with_continue-IsGood a requests w request target s
            (rw e (Sends-own host port own allowed)) in
        let dialed = dial_actions-IsSafe a requests host port w.error_text (connected target) r in
        (
          All-append (IsSafe a requests) closing _ c
              (All-append (IsSafe a requests) _ _ dialed rest.0),
          rest.1,
        )

    with_server-safe :
        (server : Option Bytes) (host : Bytes) (port : ℕ)
        → OpenTo a server
        → target_of (request_target request) 80 ≡ ok (host, port)
        → port ≤ 65535
        → IsSafeStep (with_server a w server request host port)
    unfolding with_server
    with_server-safe server host port o own range =
        let target = join_host_port host (itoa port) in
        elim (Bool-cases (is_open server target)) [
          | inl e ↦
              let (s, allowed) =
                own-IsServer server host port target o (is_open_eq server target e) refl range in
              rw e (
                with_continue-IsGood a requests w request target s
                  (Sends-own host port own allowed))
          | inr e ↦ rw e (
              after_dial-safe (close_old server) host port (dial a w.reaches host port)
                (close_old-IsSafe a requests server) own range refl
                (dial-Respects a w.reaches host port))
        ]

    pub forward_request-safe :
        (server : Option Bytes) → OpenTo a server → IsSafeStep (forward_request a w server request)
    unfolding forward_request bad_request
    forward_request-safe server o =
        elim (Bool-cases (bytes_eq (request_scheme request) (codes "https"))) [
          | inl e ↦ rw e ((tt, (tt, tt)), o)
          | inr e ↦ elim (Result-cases (target_of (request_target request) 80)) [
            | inr (x, f) ↦ rw (e, f, forward_request) ((tt, tt), o)
            | inl ((host, port), f) ↦
                rw (e, f, forward_request)
                  (with_server-safe server host port o f
                    (target_of_range (request_target request) 80 (omega arith) f))
          ]
        ]
