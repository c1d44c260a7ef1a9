-- ===== src/Netguard/Message.antt =====
-- netguard.go: the HTTP messages that the proxy handles, its error answers (`httpError`, `dialError`,
-- `writeHTTPError`), and the actions of a run.
use curimata.Common.{
  ℕ, ◌+◌, Bool, List, [], ◌∷◌, ◌++◌, map, Option, if◌then◌else◌, Bytes, codes, bytes_eq, length,
}
use curimata.Text.Number.{itoa}
use curimata.Text.Quote.{quote}
use curimata.Text.Split.{concat}
use curimata.Netguard.Allowlist.{TargetError, no_target, bad_target_port}
use curimata.Netguard.Dial.{
  LogLine, DeniedError, Dialed, refused, unreachable, connected, denied_message, dial_log, attempts,
}

-- Header fields by their canonical names.
abbrev pub Header : Type 0
Header = List (Bytes × Bytes)

unfoldable pub header_get : Header → Bytes → Bytes
header_get [] k = []
header_get ((j, v) ∷ h) k = if bytes_eq j k then v else header_get h k

unfoldable pub header_del : Header → Bytes → Header
header_del [] k = []
header_del ((j, v) ∷ h) k =
    let rest = header_del h k in if bytes_eq j k then rest else (j, v) ∷ rest

pub record Url : Type 0 where
  pub scheme : Bytes
  pub host : Bytes

-- What the code reads of an `http.Request`; the method is only asked whether it is CONNECT.
pub record Request : Type 0 where
  pub is_connect : Bool
  pub host : Bytes
  pub url : Option Url
  pub request_uri : Bytes
  pub header : Header
  pub closes : Bool

pub record Response : Type 0 where
  pub status : ℕ
  pub closes : Bool

-- The world's answers while one request is served: the dialer's, the text of its errors, whether each write succeeds, the
-- responses of the server with whether each reaches the client (a read fails behind the last), and the
-- bytes that the client sends behind a CONNECT request, of which `buffered` lie in the reader; `server_rest` and
-- `client_rest` are what lies in the two readers when the protocol is switched.
pub record World : Type 0 where
  pub reaches : Bytes → Bool
  pub error_text : Bytes
  pub continue_written : Bool
  pub request_written : Bool
  pub responses : List (Response × Bool)
  pub established_written : Bool
  pub tunnel : Bytes
  pub buffered : ℕ
  pub relay_written : Bool
  pub server_rest : Bytes
  pub copied_to_client : Bool
  pub client_rest : Bytes
  pub copied_to_server : Bool

-- A write is listed whether or not it succeeds. `answer_error` also closes the client's connection, and
-- `splice` closes both connections when it is done.
pub data Action : Type 0 where
  log : LogLine → Action
  attempt : Bytes → Action
  answer_error : ℕ → Bytes → Action
  answer_continue answer_established : Action
  send : Bytes → Request → Action
  respond : Response → Action
  to_client : Bytes → Action
  to_server : Bytes → Bytes → Action
  splice : Bytes → Action
  close_server : Bytes → Action
  close_client : Action

abbrev line_end : Bytes
line_end = 13 ∷ 10 ∷ []

-- `writeHTTPError`; the length counts the message and the line feed behind it.
unfoldable pub http_error_text : ℕ → Bytes → Bytes → Bytes → Bytes
unfolding itoa bytes_eq concat
http_error_text code reason proxy_status message =
    let header =
      if bytes_eq proxy_status []
      then []
      else codes "Proxy-Status: " ++ (proxy_status ++ line_end) in
    concat (
      codes "HTTP/1.1 "
      ∷ itoa code
      ∷ codes " "
      ∷ reason
      ∷ line_end
      ∷ header
      ∷ codes "Content-Type: text/plain"
      ∷ line_end
      ∷ codes "Content-Length: "
      ∷ itoa (length message + 1)
      ∷ line_end
      ∷ codes "Connection: close"
      ∷ line_end
      ∷ line_end
      ∷ message
      ∷ (10 ∷ [])
      ∷ [])

-- `httpError` with the texts of `http.StatusText`.
unfoldable pub bad_request : Bytes → Action
unfolding http_error_text
bad_request message = answer_error 400 (http_error_text 400 (codes "Bad Request") [] message)

unfoldable pub bad_gateway : Bytes → Action
unfolding http_error_text
bad_gateway message = answer_error 502 (http_error_text 502 (codes "Bad Gateway") [] message)

unfoldable pub forbidden : DeniedError → Action
unfolding http_error_text denied_message quote
forbidden e = answer_error 403 (
    http_error_text 403 (codes "Blocked by curimata allowlist: " ++ e.target)
      (codes "curimata; error=http_request_denied; details=" ++ quote (denied_message e))
      (denied_message e))

-- `dialError`: nothing is answered to a dial that succeeded.
unfoldable pub dial_error : Bytes → Dialed → List Action
unfolding bad_gateway forbidden
dial_error text (refused e) = forbidden e ∷ []
dial_error text (unreachable target) = bad_gateway text ∷ []
dial_error text (connected target) = []

unfoldable pub dial_actions : Bytes → Dialed → List Action
dial_actions text d = map attempt (attempts d) ++ (log (dial_log d) ∷ dial_error text d)

unfoldable pub target_message : TargetError → Bytes
unfolding quote
target_message no_target = codes "no target host"
target_message (bad_target_port target) = codes "bad port in " ++ quote target
