-- ===== src/Netguard/Http/Connections.antt =====
-- netguard.go: the HTTP proxy's connections to servers, as a state machine over its trace.
use curimata.Common.{
  ℕ, ◌≡◌, refl, ap, inl, inr, Bool, true, false, List, [], ◌∷◌, Option, none, some, ltb, ◌==◌,
  if◌then◌else◌, Bytes, codes, bytes_eq, bytes_eq_iff, Bool-cases, length, Result-cases,
}
use curimata.Text.Number.{itoa}
use curimata.Text.Split.{join_host_port}
use curimata.Netguard.Allowlist.{Allowlist, target_of}
use curimata.Netguard.Dial.{Dialed, refused, unreachable, connected, dial}
use curimata.Netguard.Message.{
  Request, Response, World, close_client, bad_request, bad_gateway, dial_actions,
}
use curimata.Netguard.Http.{
  Step, tunnel_to, connect_to, handle_connect, close_old, request_target, request_scheme,
  expects_continue, is_interim, copy_to_server, copy_to_client, finish_response, read_responses,
  exchange, with_continue, is_open, after_dial, with_server, forward_request, serve_requests,
  handle_http,
}
use curimata.Netguard.Http.Trace.{
  Leads, Leads-append, Leads-if, close_old-Leads, finish-Leads, after_dialed, dial_actions-Leads,
}

module _ (w : World) where
  connect_to-Leads : (d : Dialed) → Leads (after_dialed d) (connect_to w d) none
  unfolding connect_to tunnel_to
  connect_to-Leads (refused e) = refl
  connect_to-Leads (unreachable target) = refl
  connect_to-Leads (connected target) =
      let n = if ltb (length w.tunnel) w.buffered then length w.tunnel else w.buffered in
      elim (Bool-cases w.established_written) [
        | inr e ↦ rw e (tt, (refl, (tt, refl)))
        | inl e ↦ elim (Bool-cases (n == 0)) [
          | inl f ↦ rw (e, f) (tt, (refl, refl))
          | inr f ↦ elim (Bool-cases w.relay_written) [
            | inl g ↦ rw (e, f, g) (tt, (refl, (refl, refl)))
            | inr g ↦ rw (e, f, g) (tt, (refl, (refl, (tt, refl))))
          ]
        ]
      ]

  module _ (request : Request) (target : Bytes) where
    abbrev LeadsOn : Step → Type 0
    LeadsOn step = Leads (some target) step.actions step.server

    copy_to_server-Leads :
        (rest : Bytes) (written : Bool) → LeadsOn (copy_to_server target rest written)
    unfolding copy_to_server
    copy_to_server-Leads [] written = (refl, refl)
    copy_to_server-Leads (b ∷ rest) false = (refl, refl)
    copy_to_server-Leads (b ∷ rest) true = (refl, (refl, refl))

    copy_to_client-Leads :
        (rest : Bytes) (written : Bool) (next : Step)
        → LeadsOn next
        → LeadsOn (copy_to_client target rest written next)
    unfolding copy_to_client
    copy_to_client-Leads [] written next h = h
    copy_to_client-Leads (b ∷ rest) false next h = (tt, refl)
    copy_to_client-Leads (b ∷ rest) true next h = (tt, h)

    finish_response-Leads :
        (r : Response) (written : Bool) → LeadsOn (finish_response w request target r written)
    unfolding finish_response
    finish_response-Leads r written =
        let h =
          copy_to_client-Leads w.server_rest w.copied_to_client
            (copy_to_server target w.client_rest w.copied_to_server)
            (copy_to_server-Leads w.client_rest w.copied_to_server) in
        elim (Bool-cases written) [
          | inr e ↦ rw e (tt, refl)
          | inl e ↦ elim (Bool-cases (r.status == 101)) [
            | inr f ↦ rw (e, f) (tt, refl)
            | inl f ↦ rw (e, f) (tt, h)
          ]
        ]

    read_responses-Leads :
        (first : Bool) (rs : List (Response × Bool))
        → LeadsOn (read_responses w request target first rs)
    unfolding read_responses bad_gateway
    read_responses-Leads true [] = (tt, refl)
    read_responses-Leads false [] = refl
    read_responses-Leads first ((r, written) ∷ more) =
        let rest = read_responses-Leads false more in
        elim (Bool-cases (is_interim r)) [
          | inr e ↦ rw e (finish_response-Leads r written)
          | inl e ↦ elim (Bool-cases written) [
            | inl f ↦ rw (e, f) (tt, rest)
            | inr f ↦ rw (e, f) (tt, refl)
          ]
        ]

    exchange-Leads : LeadsOn (exchange w request target)
    unfolding exchange
    exchange-Leads =
        let rest = read_responses-Leads true w.responses in
        elim (Bool-cases w.request_written) [
          | inl e ↦ simp e (refl, rest)
          | inr e ↦ simp e (refl, refl)
        ]

    with_continue-Leads : LeadsOn (with_continue w request target)
    unfolding with_continue
    with_continue-Leads =
        let rest = exchange-Leads in
        elim (Bool-cases (expects_continue request)) [
          | inr e ↦ simp e rest
          | inl e ↦ elim (Bool-cases w.continue_written) [
            | inl f ↦ simp (e, f) (tt, rest)
            | inr f ↦ simp (e, f) (tt, refl)
          ]
        ]

  module _ (request : Request) (server : Option Bytes) where
    after_dial-Leads :
        (d : Dialed)
        → Leads server
            (after_dial w request (close_old server) d).actions
            (after_dial w request (close_old server) d).server
    unfolding after_dial
    after_dial-Leads (refused e) =
        Leads-append server none none (close_old server) _ (close_old-Leads server)
          (dial_actions-Leads w.error_text (refused e))
    after_dial-Leads (unreachable target) =
        Leads-append server none none (close_old server) _ (close_old-Leads server)
          (dial_actions-Leads w.error_text (unreachable target))
    after_dial-Leads (connected target) =
        Leads-append server none _ (close_old server) _ (close_old-Leads server) (
          Leads-append none (some target) _ (dial_actions w.error_text (connected target)) _
            (dial_actions-Leads w.error_text (connected target))
            (with_continue-Leads request target))

    with_server-Leads :
        (a : Allowlist) (host : Bytes) (port : ℕ)
        → let step = with_server a w server request host port in
          Leads server step.actions step.server
    unfolding with_server
    with_server-Leads a host port =
        let target = join_host_port host (itoa port) in
        elim (Bool-cases (is_open server target)) [
          | inr e ↦ rw e (after_dial-Leads (dial a w.reaches host port))
          | inl e ↦ rw (e, is_open_some server target e) (with_continue-Leads request target)
        ]
      where
        is_open_some :
            (s : Option Bytes) (target : Bytes) → is_open s target ≡ true → s ≡ some target
        is_open_some none target h = unfold is_open in cc h
        is_open_some (some t) target h =
            ap (λ (t : Bytes). some t) ((bytes_eq_iff t target).0 (unfold is_open in h))

    forward_request-Leads :
        (a : Allowlist)
        → let step = forward_request a w server request in Leads server step.actions step.server
    unfolding forward_request bad_request
    forward_request-Leads a =
        elim (Bool-cases (bytes_eq (request_scheme request) (codes "https"))) [
          | inl e ↦ rw e (tt, (tt, refl))
          | inr e ↦ elim (Result-cases (target_of (request_target request) 80)) [
            | inr (x, f) ↦ rw (e, f, forward_request) (tt, refl)
            | inl ((host, port), f) ↦ rw (e, f, forward_request) (with_server-Leads a host port)
          ]
        ]

module _ (a : Allowlist) where
  handle_connect-Leads :
      (w : World) (request : Request) → Leads none (handle_connect a w request) none
  unfolding handle_connect bad_request
  handle_connect-Leads w request = elim (Result-cases (target_of request.host 443)) [
    | inr (x, e) ↦ rw (e, handle_connect) (tt, refl)
    | inl ((host, port), e) ↦
        let d = dial a w.reaches host port in
        rw (e, handle_connect)
          (Leads-append none (after_dialed d) none (dial_actions w.error_text d) (connect_to w d)
            (dial_actions-Leads w.error_text d) (connect_to-Leads w d))
  ]

  serve_requests-Leads :
      (items : List (Request × World)) (server : Option Bytes)
      → Leads server (serve_requests a server items) none
  unfolding serve_requests
  serve_requests-Leads [] server = finish-Leads server
  serve_requests-Leads ((request, w) ∷ more) server =
      let step = forward_request a w server request in
      let s = forward_request-Leads w request server a in
      let rest = serve_requests-Leads more step.server in
      elim (Bool-cases request.is_connect) [
        | inl e ↦ simp e (
            Leads-append server none none (close_old server) _ (close_old-Leads server) (
              Leads-append none none none (handle_connect a w request) (close_client ∷ [])
                (handle_connect-Leads w request) (tt, refl)))
        | inr e ↦ simp e (elim (Bool-cases step.keep_open) [
          | inl k ↦ rw k (Leads-append server step.server none step.actions _ s rest)
          | inr k ↦
              rw k
                (Leads-append server step.server none step.actions _ s (finish-Leads step.server))
        ])
      ]

  -- At any time the HTTP proxy has at most one connection to a server open. It sends, writes and splices
  -- only over the open one, and when the run is over each connection has been closed or spliced.
  pub handle_http-Leads : (items : List (Request × World)) → Leads none (handle_http a items) none
  unfolding handle_http
  handle_http-Leads [] = (tt, refl)
  handle_http-Leads ((request, w) ∷ more) =
      Leads-if none none request.is_connect _ _ (handle_connect-Leads w request)
        (serve_requests-Leads ((request, w) ∷ more) none)
