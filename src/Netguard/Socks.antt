-- ===== src/Netguard/Socks.antt =====
-- netguard.go: `handleSocks` and `socksReply`. A run is a function from the bytes that the client
-- sends and from the world's answers to the list of the handler's actions, in order.
pub mod Safety
pub mod Order
pub mod Service
use curimata.Common.{
  ℕ, ◌+◌, ◌*◌, Bool, true, false, not, List, [], ◌∷◌, ◌++◌, Option, none, some, ltb, ◌==◌,
  if◌then◌else◌, Bytes, length, take, drop, map,
}
use curimata.Text.Address.{ip_text}
use curimata.Text.Number.{itoa}
use curimata.Text.Split.{join_host_port}
use curimata.Netguard.Allowlist.{Allowlist, permits, allowlist_text}
use curimata.Netguard.Dial.{
  LogLine, Dialed, refused, unreachable, connected, dial, dial_log, attempts,
}

abbrev pub socks_version : ℕ
socks_version = 5

abbrev pub socks_ok : ℕ
socks_ok = 0

abbrev pub socks_denied : ℕ
socks_denied = 2

abbrev pub socks_unreached : ℕ
socks_unreached = 4

abbrev pub socks_bad_cmd : ℕ
socks_bad_cmd = 7

-- `reaches` is the dialer's answer for a target. The next fields say whether the writes to the client
-- and to the server succeed, and `buffered` how many bytes lie in the reader when the splice begins.
pub record World : Type 0 where
  pub reaches : Bytes → Bool
  pub greeting_written : Bool
  pub reply_written : Bool
  pub buffered : ℕ
  pub relay_written : Bool

-- A write is listed whether or not it succeeds. `attempt` asks the dialer for a target, and `splice`
-- holds the bytes that the client sends from then on.
pub data Action : Type 0 where
  log : LogLine → Action
  attempt : Bytes → Action
  to_client : Bytes → Action
  to_server : Bytes → Bytes → Action
  splice : Bytes → Bytes → Action
  close_server : Bytes → Action
  close_client : Action

-- `io.ReadFull`: the bytes and the rest of the stream, or nothing if the stream ends before.
unfoldable pub read_full : ℕ → Bytes → Option (Bytes × Bytes)
read_full n input = if ltb (length input) n then none else some (take n input, drop n input)

-- Reads `n` bytes and goes on, or ends there.
unfoldable pub reading : ℕ → Bytes → (Bytes → Bytes → List Action) → List Action
unfolding read_full
reading n input next = elim (read_full n input) [ none ↦ [] | some (raw, rest) ↦ next raw rest ]

unfoldable pub byte_at : Bytes → ℕ → ℕ
byte_at s i = elim (drop i s) [ [] ↦ 0 | c ∷ _ ↦ c ]

abbrev pub reply : ℕ → Bytes
reply code = socks_version ∷ code ∷ 0 ∷ 1 ∷ 0 ∷ 0 ∷ 0 ∷ 0 ∷ 0 ∷ 0 ∷ []

-- The bytes in the buffer go first. `splice` closes both ends when it is done.
unfoldable pub relay : World → Bytes → Bytes → List Action
relay w target input =
    let n = if ltb (length input) w.buffered then length input else w.buffered in
    if n == 0
    then splice target input ∷ close_server target ∷ []
    else to_server target (take n input)
      ∷ (if w.relay_written
          then splice target (drop n input) ∷ close_server target ∷ []
          else close_server target ∷ [])

-- What follows a successful dial.
unfoldable pub serve_target : World → Bytes → Bytes → List Action
serve_target w target input =
    to_client (reply socks_ok)
    ∷ (if w.reply_written then relay w target input else close_server target ∷ [])

unfoldable pub after_dial : World → Bytes → Dialed → List Action
after_dial w input (refused e) = to_client (reply socks_denied) ∷ []
after_dial w input (unreachable target) = to_client (reply socks_unreached) ∷ []
after_dial w input (connected target) = serve_target w target input

unfoldable pub socks_dial : Allowlist → World → Bytes → ℕ → Bytes → List Action
socks_dial a w host port input =
    let d = dial a w.reaches host port in
    map attempt (attempts d) ++ (log (dial_log d) ∷ after_dial w input d)

unfoldable pub socks_port : Allowlist → World → Bytes → Bytes → List Action
socks_port a w host input =
    reading 2 input λ raw rest. socks_dial a w host (byte_at raw 0 * 256 + byte_at raw 1) rest

unfoldable pub socks_ip : Allowlist → World → ℕ → Bytes → List Action
socks_ip a w size input = reading size input λ raw rest. socks_port a w (ip_text raw) rest

unfoldable pub socks_domain : Allowlist → World → Bytes → List Action
socks_domain a w input =
    reading 1 input λ size rest. reading (byte_at size 0) rest λ raw more. socks_port a w raw more

-- The switch on the type of the address.
unfoldable pub socks_address : Allowlist → World → ℕ → Bytes → List Action
socks_address a w kind input =
    if kind == 1
    then socks_ip a w 4 input
    else if kind == 4
    then socks_ip a w 16 input
    else if kind == 3
    then socks_domain a w input
    else to_client (reply socks_bad_cmd) ∷ []

unfoldable pub socks_request : Allowlist → World → Bytes → List Action
socks_request a w input = reading 4 input λ req rest.
    if not (byte_at req 0 == socks_version)
    then []
    else if not (byte_at req 1 == 1)
    then to_client (reply socks_bad_cmd) ∷ []
    else socks_address a w (byte_at req 3) rest

unfoldable pub socks_methods : Allowlist → World → ℕ → Bytes → List Action
socks_methods a w n input = reading n input λ _ rest.
    to_client (socks_version ∷ 0 ∷ []) ∷ (if w.greeting_written then socks_request a w rest else [])

unfoldable pub socks_greeting : Allowlist → World → Bytes → List Action
socks_greeting a w input = reading 2 input λ head rest.
    if not (byte_at head 0 == socks_version) then [] else socks_methods a w (byte_at head 1) rest

-- The client's connection is closed on every way out.
unfoldable pub handle_socks : Allowlist → World → Bytes → List Action
handle_socks a w input = socks_greeting a w input ++ (close_client ∷ [])
