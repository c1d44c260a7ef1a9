-- ===== src/Netguard/Http/Trace.antt =====
-- netguard.go: the open connection to a server, as a state that each action of a trace changes.
use curimata.Common.{
  ◌≡◌, refl, Bool, true, false, List, [], ◌∷◌, ◌++◌, Option, none, some, if◌then◌else◌, Bytes,
}
use curimata.Netguard.Dial.{allow, Dialed, refused, unreachable, connected, dial_log, attempts}
use curimata.Netguard.Message.{
  Action, log, send, to_server, splice, close_server, close_client, bad_gateway, forbidden,
  dial_error, dial_actions,
}
use curimata.Netguard.Http.{close_old, finish}

-- The server whose connection is open, before and after an action. The log line of a successful dial
-- opens one; `splice` ends with both connections closed.
abbrev pub Allowed : Option Bytes → Action → Type 0
Allowed now (log (allow target)) = now ≡ none
Allowed now (log l) = Unit {0}
Allowed now (send target r) = now ≡ some target
Allowed now (to_server target s) = now ≡ some target
Allowed now (splice target) = now ≡ some target
Allowed now (close_server target) = now ≡ some target
Allowed now x = Unit {0}

abbrev pub opened : Option Bytes → Action → Option Bytes
opened now (log (allow target)) = some target
opened now (splice target) = none
opened now (close_server target) = none
opened now x = now

-- The trace leads from one open server to the other.
abbrev pub Leads : Option Bytes → List Action → Option Bytes → Type 0
Leads s [] t = s ≡ t
Leads s (x ∷ xs) t = Allowed s x × Leads (opened s x) xs t

pub Leads-append :
    (s t u : Option Bytes) (xs ys : List Action)
    → Leads s xs t
    → Leads t ys u
    → Leads s (xs ++ ys) u
Leads-append s t u [] ys e l = rw e l
Leads-append s t u (x ∷ xs) ys (h, k) l = (h, Leads-append (opened s x) t u xs ys k l)

pub Leads-if :
    (s t : Option Bytes) (b : Bool) (xs ys : List Action)
    → Leads s xs t
    → Leads s ys t
    → Leads s (if b then xs else ys) t
Leads-if s t true xs ys hx hy = hx
Leads-if s t false xs ys hx hy = hy

pub close_old-Leads : (server : Option Bytes) → Leads server (close_old server) none
unfolding close_old
close_old-Leads none = refl
close_old-Leads (some target) = (refl, refl)

pub finish-Leads : (server : Option Bytes) → Leads server (finish server) none
unfolding finish
finish-Leads server =
    Leads-append server none none (close_old server) (close_client ∷ []) (close_old-Leads server)
      (tt, refl)

abbrev pub after_dialed : Dialed → Option Bytes
after_dialed (connected target) = some target
after_dialed d = none

pub dial_actions-Leads :
    (text : Bytes) (d : Dialed) → Leads none (dial_actions text d) (after_dialed d)
unfolding dial_actions dial_error attempts dial_log bad_gateway forbidden
dial_actions-Leads text (refused e) = (tt, (tt, refl))
dial_actions-Leads text (unreachable target) = (tt, (tt, (tt, refl)))
dial_actions-Leads text (connected target) = (tt, (refl, refl))
