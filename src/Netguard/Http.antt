-- ===== src/Netguard/Http.antt =====
-- netguard.go: `handleHTTP`, `handleConnect`, `handlePlainHTTP` and `forwardRequest`. `net/http` reads
-- the requests, so a run is a function from the requests and the world's answers beside each to the
-- list of the handler's actions, in order.
pub mod Sending
pub mod Forward
pub mod Safety
pub mod Trace
pub mod Connections
pub mod Answers
use curimata.Common.{
  ℕ, suc, ◌+◌, ◌≤◌, Bool, true, false, not, ◌&&◌, ◌||◌, List, [], ◌∷◌, ◌++◌, map, Option, none,
  some, ltb, leb, ◌==◌, if◌then◌else◌, Bytes, codes, bytes_eq, length, take, drop, Result, ok, err,
}
use curimata.Text.Trim.{to_lower}
use curimata.Text.Number.{itoa}
use curimata.Text.Split.{join_host_port}
use curimata.Netguard.Allowlist.{Allowlist, permits, allowlist_text, target_of}
use curimata.Netguard.Dial.{
  https_needs_connect, Dialed, refused, unreachable, connected, dial, dial_log, attempts,
}
use curimata.Netguard.Message.{
  Header, header_get, header_del, Url, Request, Response, World, Action, log, attempt, answer_error,
  answer_continue, answer_established, send, respond, to_client, to_server, splice, close_server,
  close_client, bad_request, bad_gateway, dial_error, dial_actions, target_message,
}

-- The end of a CONNECT: the bytes in the buffer go first.
unfoldable pub tunnel_to : World → Bytes → List Action
tunnel_to w target =
    let n = if ltb (length w.tunnel) w.buffered then length w.tunnel else w.buffered in
    if n == 0
    then splice target ∷ []
    else to_server target (take n w.tunnel)
      ∷ (if w.relay_written then splice target ∷ [] else close_server target ∷ close_client ∷ [])

unfoldable pub connect_to : World → Dialed → List Action
connect_to w (refused e) = []
connect_to w (unreachable target) = []
connect_to w (connected target) =
    answer_established
    ∷ (if w.established_written
        then tunnel_to w target
        else close_server target ∷ close_client ∷ [])

unfoldable pub handle_connect : Allowlist → World → Request → List Action
handle_connect a w request = elim (target_of request.host 443) [
  | err e ↦ bad_request (target_message e) ∷ []
  | ok (host, port) ↦
      let d = dial a w.reaches host port in dial_actions w.error_text d ++ connect_to w d
]

-- The connection to a server that is left behind a request, and whether the client may send another.
pub record Step : Type 0 where
  pub actions : List Action
  pub server : Option Bytes
  pub keep_open : Bool

unfoldable pub close_old : Option Bytes → List Action
close_old none = []
close_old (some target) = close_server target ∷ []

unfoldable pub request_target : Request → Bytes
request_target request = elim request.url [
  | none ↦ request.host
  | some u ↦ if bytes_eq u.host [] then request.host else u.host
]

unfoldable pub request_scheme : Request → Bytes
request_scheme request = elim request.url [ none ↦ [] | some u ↦ to_lower u.scheme ]

unfoldable pub expects_continue : Request → Bool
expects_continue request =
    bytes_eq (to_lower (header_get request.header (codes "Expect"))) (codes "100-continue")

unfoldable pub without_expect : Request → Request
without_expect request =
    if expects_continue request
    then record request { header = header_del request.header (codes "Expect") }
    else request

abbrev origin_url : Option Url → Option Url
origin_url none = none
origin_url (some u) = some (record { scheme = []; host = [] })

-- The request as it is written to the server.
unfoldable pub forwarded : Request → Request
forwarded request =
    let r = without_expect request in
    record r {
      request_uri = [];
      url = origin_url r.url;
      header =
          header_del (header_del r.header (codes "Proxy-Connection")) (codes "Proxy-Authorization");
    }

-- Between 100 and 199, but not 101.
unfoldable pub is_interim : Response → Bool
is_interim r = leb 100 r.status && (ltb r.status 200 && not (r.status == 101))

-- `copyBuffered` in both directions behind a switch of protocols, which writes only what there is, and the `splice`
-- that both connections are handed to.
unfoldable pub copy_to_server : Bytes → Bytes → Bool → Step
copy_to_server target [] written = record {
  actions = splice target ∷ [];
  server = none;
  keep_open = false;
}
copy_to_server target (b ∷ s) false = record {
  actions = to_server target (b ∷ s) ∷ [];
  server = some target;
  keep_open = false;
}
copy_to_server target (b ∷ s) true = record {
  actions = to_server target (b ∷ s) ∷ splice target ∷ [];
  server = none;
  keep_open = false;
}

unfoldable pub copy_to_client : Bytes → Bytes → Bool → Step → Step
copy_to_client target [] written next = next
copy_to_client target (b ∷ s) false next = record {
  actions = to_client (b ∷ s) ∷ [];
  server = some target;
  keep_open = false;
}
copy_to_client target (b ∷ s) true next = record next { actions = to_client (b ∷ s) ∷ next.actions }

-- The final response.
unfoldable pub finish_response : World → Request → Bytes → Response → Bool → Step
unfolding copy_to_client copy_to_server
finish_response w request target r written =
    let switched =
      copy_to_client target w.server_rest w.copied_to_client
        (copy_to_server target w.client_rest w.copied_to_server) in
    if not written
    then record { actions = respond r ∷ []; server = some target; keep_open = false }
    else if r.status == 101
    then record switched { actions = respond r ∷ switched.actions }
    else record {
      actions = respond r ∷ [];
      server = some target;
      keep_open = not request.closes && not r.closes;
    }

-- The loop over interim responses; `first` tells whether this is the first read.
unfoldable pub read_responses : World → Request → Bytes → Bool → List (Response × Bool) → Step
read_responses w request target first [] = record {
  actions = if first then bad_gateway (codes "read response: " ++ w.error_text) ∷ [] else [];
  server = some target;
  keep_open = false;
}
read_responses w request target first ((r, written) ∷ more) =
    let rest = read_responses w request target false more in
    if not (is_interim r)
    then finish_response w request target r written
    else if written
    then record rest { actions = respond r ∷ rest.actions }
    else record { actions = respond r ∷ []; server = some target; keep_open = false }

-- The request goes out over an open connection.
unfoldable pub exchange : World → Request → Bytes → Step
exchange w request target =
    let rest = read_responses w request target true w.responses in
    if w.request_written
    then record rest { actions = send target (forwarded request) ∷ rest.actions }
    else record {
      actions = send target (forwarded request) ∷ [];
      server = some target;
      keep_open = false;
    }

unfoldable pub with_continue : World → Request → Bytes → Step
with_continue w request target =
    let rest = exchange w request target in
    if not (expects_continue request)
    then rest
    else if w.continue_written
    then record rest { actions = answer_continue ∷ rest.actions }
    else record { actions = answer_continue ∷ []; server = some target; keep_open = false }

-- `*server != nil && (*server).target == hostPort`
unfoldable pub is_open : Option Bytes → Bytes → Bool
is_open none target = false
is_open (some t) target = bytes_eq t target

unfoldable pub after_dial : World → Request → List Action → Dialed → Step
after_dial w request closing (connected target) =
    let rest = with_continue w request target in
    record rest {
      actions = closing ++ (dial_actions w.error_text (connected target) ++ rest.actions);
    }
after_dial w request closing d = record {
  actions = closing ++ dial_actions w.error_text d;
  server = none;
  keep_open = false;
}

-- Takes the open connection, or closes it and dials.
unfoldable pub with_server : Allowlist → World → Option Bytes → Request → Bytes → ℕ → Step
with_server a w server request host port =
    let target = join_host_port host (itoa port) in
    if is_open server target
    then with_continue w request target
    else after_dial w request (close_old server) (dial a w.reaches host port)

unfoldable pub forward_request : Allowlist → World → Option Bytes → Request → Step
forward_request a w server request =
    let target = request_target request in
    if bytes_eq (request_scheme request) (codes "https")
    then record {
      actions =
          log (https_needs_connect target)
          ∷ bad_request (
              codes
                "this proxy serves https only through CONNECT; the client sent an absolute https URL")
          ∷ [];
      server = server;
      keep_open = false;
    }
    else elim (target_of target 80) [
      | err e ↦ record {
        actions = bad_request (target_message e) ∷ [];
        server = server;
        keep_open = false;
      }
      | ok (host, port) ↦ with_server a w server request host port
    ]

-- The deferred closes of `handlePlainHTTP`.
unfoldable pub finish : Option Bytes → List Action
finish server = close_old server ++ (close_client ∷ [])

-- The loop of `handlePlainHTTP`, from a request on; reading fails behind the last one.
unfoldable pub serve_requests : Allowlist → Option Bytes → List (Request × World) → List Action
serve_requests a server [] = finish server
serve_requests a server ((request, w) ∷ more) =
    let step = forward_request a w server request in
    let rest = serve_requests a step.server more in
    if request.is_connect
    then close_old server ++ (handle_connect a w request ++ (close_client ∷ []))
    else step.actions ++ (if step.keep_open then rest else finish step.server)

unfoldable pub handle_http : Allowlist → List (Request × World) → List Action
handle_http a [] = close_client ∷ []
handle_http a ((request, w) ∷ more) =
    if request.is_connect
    then handle_connect a w request
    else serve_requests a none ((request, w) ∷ more)
