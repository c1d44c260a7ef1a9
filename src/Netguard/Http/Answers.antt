-- ===== src/Netguard/Http/Answers.antt =====
-- netguard.go: what the HTTP proxy changes in a request, when it uses a connection again, and how it
-- answers a refusal.
use curimata.Common.{
  ℕ, ◌≡◌, ◌∙◌, inl, inr, Bool, true, false, ◌&&◌, ◌||◌, List, [], ◌∷◌, some, ◌==◌, arith,
  if◌then◌else◌, Bytes, codes, bytes_eq, bytes_eq_iff, bytes_eq_refl, Bool-cases, ok, All,
}
use curimata.Text.Number.{itoa}
use curimata.Text.Split.{join_host_port}
use curimata.Netguard.Allowlist.{Allowlist, target_of, allowlist_text}
use curimata.Netguard.Dial.{deny, Dialed, refused}
use curimata.Netguard.Message.{
  Header, header_del, Request, Response, World, Action, log, attempt, close_server, bad_gateway,
  forbidden,
}
use curimata.Netguard.Http.{
  request_target, request_scheme, expects_continue, without_expect, forwarded, is_interim, Step,
  copy_to_server, copy_to_client, finish_response, read_responses, exchange, with_continue, is_open,
  with_server, forward_request,
}

-- All the values of a field, in their order; a field that is not there has none.
unfoldable pub header_values : Header → Bytes → List Bytes
unfolding bytes_eq
header_values [] k = []
header_values ((j, v) ∷ h) k =
    let rest = header_values h k in if bytes_eq j k then v ∷ rest else rest

header_values-header_del :
    (h : Header) (k j : Bytes)
    → header_values (header_del h k) j ≡ (if bytes_eq k j then [] else header_values h j)
unfolding header_values header_del
header_values-header_del [] k j = ground arith
header_values-header_del ((i, v) ∷ h) k j =
    ground
      (arith, header_values-header_del h k j, bytes_eq_iff i k, bytes_eq_iff i j, bytes_eq_iff k j)

-- The names of the fields that stay behind at the proxy.
abbrev pub is_dropped : Request → Bytes → Bool
is_dropped request k =
    bytes_eq (codes "Proxy-Authorization") k
    || (bytes_eq (codes "Proxy-Connection") k
        || expects_continue request && bytes_eq (codes "Expect") k)

without_expect_values :
    (request : Request) (k : Bytes)
    → header_values (without_expect request).header k ≡ (
        if expects_continue request && bytes_eq (codes "Expect") k
        then []
        else header_values request.header k)
unfolding without_expect
without_expect_values request k = elim (Bool-cases (expects_continue request)) [
  | inl e ↦ rw e (header_values-header_del request.header (codes "Expect") k)
  | inr e ↦ rw e
]

-- The forwarded request has no field of the two that are meant for the proxy, nor the "Expect: 100-continue" that
-- the proxy answers itself, and keeps all the values of every other field, in their order.
pub header_values-forwarded :
    (request : Request) (k : Bytes)
    → header_values (forwarded request).header k
      ≡ (if is_dropped request k then [] else header_values request.header k)
unfolding forwarded
header_values-forwarded request k =
    let h = (without_expect request).header in
    header_values-header_del (header_del h (codes "Proxy-Connection")) (codes "Proxy-Authorization")
      k
    ∙ rw (header_values-header_del h (codes "Proxy-Connection") k, without_expect_values request k)
        (ground arith)

-- An action over a connection that is already open.
abbrev pub IsExchange : Action → Type 0
IsExchange (log l) = ⊥
IsExchange (attempt target) = ⊥
IsExchange (close_server target) = ⊥
IsExchange x = Unit {0}

module _ (w : World) (request : Request) (target : Bytes) where
  copy_to_server-IsExchange :
      (rest : Bytes) (written : Bool) → All IsExchange (copy_to_server target rest written).actions
  unfolding copy_to_server
  copy_to_server-IsExchange [] written = (tt, tt)
  copy_to_server-IsExchange (b ∷ rest) false = (tt, tt)
  copy_to_server-IsExchange (b ∷ rest) true = (tt, (tt, tt))

  copy_to_client-IsExchange :
      (rest : Bytes) (written : Bool) (next : Step)
      → All IsExchange next.actions
      → All IsExchange (copy_to_client target rest written next).actions
  unfolding copy_to_client
  copy_to_client-IsExchange [] written next h = h
  copy_to_client-IsExchange (b ∷ rest) false next h = (tt, tt)
  copy_to_client-IsExchange (b ∷ rest) true next h = (tt, h)

  finish_response-IsExchange :
      (r : Response) (written : Bool)
      → All IsExchange (finish_response w request target r written).actions
  unfolding finish_response
  finish_response-IsExchange r written =
      let h =
        copy_to_client-IsExchange w.server_rest w.copied_to_client
          (copy_to_server target w.client_rest w.copied_to_server)
          (copy_to_server-IsExchange w.client_rest w.copied_to_server) in
      elim (Bool-cases written) [
        | inr e ↦ rw e (tt, tt)
        | inl e ↦ elim (Bool-cases (r.status == 101)) [
          | inr f ↦ rw (e, f) (tt, tt)
          | inl f ↦ rw (e, f) (tt, h)
        ]
      ]

  read_responses-IsExchange :
      (first : Bool) (rs : List (Response × Bool))
      → All IsExchange (read_responses w request target first rs).actions
  unfolding read_responses bad_gateway
  read_responses-IsExchange true [] = (tt, tt)
  read_responses-IsExchange false [] = tt
  read_responses-IsExchange first ((r, written) ∷ more) =
      let rest = read_responses-IsExchange false more in
      elim (Bool-cases (is_interim r)) [
        | inr e ↦ rw e (finish_response-IsExchange r written)
        | inl e ↦ elim (Bool-cases written) [
          | inl f ↦ rw (e, f) (tt, rest)
          | inr f ↦ rw (e, f) (tt, tt)
        ]
      ]

  with_continue-IsExchange : All IsExchange (with_continue w request target).actions
  unfolding with_continue exchange
  with_continue-IsExchange =
      let rest = read_responses-IsExchange true w.responses in
      elim (Bool-cases (expects_continue request)) [
        | inr e ↦ simp e (elim (Bool-cases w.request_written) [
          | inl f ↦ simp f (tt, rest)
          | inr f ↦ simp f (tt, tt)
        ])
        | inl e ↦ elim (Bool-cases w.continue_written) [
          | inl f ↦
              simp (e, f)
                (elim (Bool-cases w.request_written) [
                  | inl g ↦ simp g (tt, (tt, rest))
                  | inr g ↦ simp g (tt, (tt, tt))
                ])
          | inr f ↦ simp (e, f) (tt, tt)
        ]
      ]

-- A request for the host and port of the open connection, with a URL that is not https, uses that
-- connection: the proxy neither dials, logs nor closes it.
forward_request-IsExchange :
    (a : Allowlist) (w : World) (request : Request) (host : Bytes) (port : ℕ)
    → bytes_eq (request_scheme request) (codes "https") ≡ false
    → target_of (request_target request) 80 ≡ ok (host, port)
    → All IsExchange (forward_request a w (some (join_host_port host (itoa port))) request).actions
unfolding forward_request with_server is_open
forward_request-IsExchange a w request host port plain own =
    let target = join_host_port host (itoa port) in
    rw (plain, own, forward_request)
      (rw (bytes_eq_refl target) (with_continue-IsExchange w request target))

module _ (a : Allowlist) (w : World) (request : Request) (host : Bytes) (port : ℕ) where
  abbrev refusal : List Action
  refusal =
      let target = join_host_port host (itoa port) in
      log (deny target) ∷ forbidden (record { target = target; allowed = allowlist_text a }) ∷ []

  abbrev refused_dial : Dialed
  refused_dial =
      refused (record { target = join_host_port host (itoa port); allowed = allowlist_text a })
