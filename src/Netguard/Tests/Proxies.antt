-- ===== src/Netguard/Tests/Proxies.antt =====
-- netguard.go: runs of the two proxies, and the theorems about them at concrete inputs.
use curimata.Common.{
  ◌+◌, ◌*◌, ◌≡◌, refl, true, false, List, [], ◌∷◌, some, none, Bytes, codes, All, if◌then◌else◌,
}
use curimata.Text.Number.{itoa}
use curimata.Text.Split.{join_host_port}
use curimata.Netguard.Allowlist.{Allowlist, permits}
use curimata.Netguard.Dial.{dial, dial_log, attempts, allow}
use curimata.Netguard.Socks
use curimata.Netguard.Socks.{handle_socks, reply}
use curimata.Netguard.Socks.Safety.{handle_socks-IsSafe}
use curimata.Netguard.Socks.Safety
use curimata.Netguard.Socks.Order.{opening, Follows, handle_socks-Follows}
use curimata.Netguard.Socks.Service.{
  client_bytes, server_bytes, attempted, connect_request, handle_socks_served,
}
use curimata.Netguard.Message
use curimata.Netguard.Message.{Request, Response, log, send, close_server, close_client, respond}
use curimata.Netguard.Http.{handle_http, finish_response, forwarded}
use curimata.Netguard.Http.Sending.{IsSafe}
use curimata.Netguard.Http.Safety.{requests_of, handle_http-IsSafe}
use curimata.Netguard.Http.Trace.{Leads}
use curimata.Netguard.Http.Connections.{handle_http-Leads}
use curimata.Netguard.Http.Answers.{is_dropped, header_values, header_values-forwarded}

abbrev rules : Allowlist
rules = record { rules = record { host = codes "a.org"; wildcard = false; port = 80 } ∷ [] }

abbrev calm : Socks.World
calm = record {
  reaches = λ target. true;
  greeting_written = true;
  reply_written = true;
  buffered = 1;
  relay_written = true;
}

abbrev allowed_request : Bytes
allowed_request = connect_request (0 ∷ []) (codes "A.org") 0 80 (codes "GET")

abbrev denied_request : Bytes
denied_request = connect_request (0 ∷ []) (codes "b.org") 0 80 (codes "GET")

allowed_run :
    handle_socks rules calm allowed_request
    ≡ Socks.to_client (5 ∷ 0 ∷ [])
      ∷ Socks.attempt (codes "A.org:80")
      ∷ Socks.log (allow (codes "A.org:80"))
      ∷ Socks.to_client (reply 0)
      ∷ Socks.to_server (codes "A.org:80") (codes "G")
      ∷ Socks.splice (codes "A.org:80") (codes "ET")
      ∷ Socks.close_server (codes "A.org:80")
      ∷ Socks.close_client
      ∷ []
unfolding handle_socks Socks.socks_greeting Socks.socks_methods Socks.socks_request
    Socks.socks_address Socks.socks_domain Socks.socks_port Socks.socks_dial Socks.after_dial
    Socks.serve_target Socks.relay Socks.reading Socks.byte_at dial dial_log attempts permits
    join_host_port itoa
allowed_run = refl

handle_socks-IsSafe_example : All (Safety.IsSafe rules) (handle_socks rules calm allowed_request)
handle_socks-IsSafe_example = handle_socks-IsSafe rules calm allowed_request

handle_socks-Follows_example : Follows opening (handle_socks rules calm denied_request)
handle_socks-Follows_example = handle_socks-Follows rules calm denied_request

handle_socks_served_example :
    (client_bytes (handle_socks rules calm allowed_request) ≡ 5 ∷ 0 ∷ reply 0)
    × (attempted (handle_socks rules calm allowed_request)
        ≡ join_host_port (codes "A.org") (itoa (0 * 256 + 80)) ∷ [])
    × (server_bytes (handle_socks rules calm allowed_request) ≡ codes "GET")
unfolding permits
handle_socks_served_example =
    handle_socks_served rules calm (0 ∷ []) (codes "A.org") 0 80 (codes "GET") refl refl refl refl
      refl

abbrev fair : Message.World
fair = record {
  reaches = λ target. true;
  error_text = codes "lost";
  continue_written = true;
  request_written = true;
  responses =
      (record { status = 103; closes = false }, true)
      ∷ (record { status = 200; closes = false }, true)
      ∷ [];
  established_written = true;
  tunnel = codes "hello";
  buffered = 2;
  relay_written = true;
  server_rest = codes "S";
  copied_to_client = true;
  client_rest = codes "C";
  copied_to_server = true;
}

abbrev plain_request : Bytes → Request
plain_request name = record {
  is_connect = false;
  host = name;
  url = some (record { scheme = codes "http"; host = name });
  request_uri = codes "/";
  header = (codes "Proxy-Authorization", codes "secret") ∷ (codes "Accept", codes "text") ∷ [];
  closes = false;
}

abbrev switching : Response
switching = record { status = 101; closes = false }

-- A switch of protocols: what the readers hold is written first, and nothing goes on behind a write that fails.
switched :
    (finish_response fair (plain_request (codes "a.org")) (codes "t") switching true).actions
    ≡ respond switching
      ∷ Message.to_client (codes "S")
      ∷ Message.to_server (codes "t") (codes "C")
      ∷ Message.splice (codes "t")
      ∷ []
unfolding finish_response
switched = refl

switch_cut :
    (finish_response
      (record fair { copied_to_client = false })
      (plain_request (codes "a.org"))
      (codes "t")
      switching
      true).actions
    ≡ respond switching ∷ Message.to_client (codes "S") ∷ []
unfolding finish_response
switch_cut = refl

abbrev connect : Bytes → Request
connect name = record {
  is_connect = true;
  host = name;
  url = none;
  request_uri = name;
  header = [];
  closes = false;
}

-- Two requests to one server, and a CONNECT behind them.
abbrev session : List (Request × Message.World)
session =
    (plain_request (codes "a.org"), fair)
    ∷ (plain_request (codes "A.org:80"), fair)
    ∷ (connect (codes "a.org:80"), fair)
    ∷ []

handle_http-IsSafe_example : All (IsSafe rules (requests_of session)) (handle_http rules session)
handle_http-IsSafe_example = handle_http-IsSafe rules session

handle_http-Leads_example : Leads none (handle_http rules session) none
handle_http-Leads_example = handle_http-Leads rules session

header_values-forwarded_example :
    header_values (forwarded (plain_request (codes "a.org"))).header (codes "Accept") ≡ (
      if is_dropped (plain_request (codes "a.org")) (codes "Accept")
      then []
      else header_values (plain_request (codes "a.org")).header (codes "Accept"))
header_values-forwarded_example =
    header_values-forwarded (plain_request (codes "a.org")) (codes "Accept")
