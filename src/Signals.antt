-- ===== src/Signals.antt =====
-- signals.go: the signals that are caught, the loop of `forwardTo` as a relation on what it receives and
-- does, and `exitCodeOf`.
pub mod Forward
pub mod Exit
mod Tests
use curimata.Common.{
  ℕ, ◌+◌, ◌-◌, ◌*◌, ◌/◌, ◌%◌, ◌≡◌, Bool, true, false, not, ◌&&◌, ◌||◌, List, [], ◌∷◌, ◌++◌, Option,
  none, some, ltb, ◌==◌, if◌then◌else◌, length,
}
use curimata.Common.Int.{ℤ, pos, negsuc}

abbrev pub sighup : ℕ
sighup = 1

abbrev pub sigint : ℕ
sigint = 2

abbrev pub sigquit : ℕ
sigquit = 3

abbrev pub sigkill : ℕ
sigkill = 9

abbrev pub sigusr1 : ℕ
sigusr1 = 10

abbrev pub sigusr2 : ℕ
sigusr2 = 12

abbrev pub sigterm : ℕ
sigterm = 15

abbrev pub forwarded_signals : List ℕ
forwarded_signals = sigterm ∷ sigint ∷ sighup ∷ sigquit ∷ sigusr1 ∷ sigusr2 ∷ []

unfoldable pub is_one_of : ℕ → List ℕ → Bool
is_one_of n [] = false
is_one_of n (s ∷ signals) = (n == s) || is_one_of n signals

unfoldable pub is_stop_signal : ℕ → Bool
is_stop_signal n = (n == sigterm) || ((n == sigint) || (n == sighup))

-- The capacity of the channel `received`.
abbrev pub received_capacity : ℕ
received_capacity = 16

-- `catchSignals`: the channel with a further signal. One that is not caught does not come in, and one that
-- comes to a full channel is lost.
unfoldable pub caught : List ℕ → ℕ → List ℕ
unfolding is_one_of
caught channel n =
    if is_one_of n forwarded_signals && ltb (length channel) received_capacity
    then channel ++ (n ∷ [])
    else channel

unfoldable pub catch_signals : List ℕ → List ℕ → List ℕ
unfolding caught
catch_signals channel [] = channel
catch_signals channel (n ∷ signals) = catch_signals (caught channel n) signals

-- `killTimer`: nil, then a timer that runs, then one that has sent its only value.
pub data KillTimer : Type 0 where
  never running expired : KillTimer

-- The variables of the loop.
pub record Forwarder : Type 0 where
  pub kill_timer : KillTimer
  pub stop_requested : Bool

abbrev pub start : Forwarder
start = record { kill_timer = never; stop_requested = false }

-- What the `select` takes.
pub data Event : Type 0 where
  received : ℕ → Event
  timer : Event
  done : Event

pub data Notice : Type 0 where
  second_stop stopping : ℕ → Notice
  still_running : Notice

pub data Action : Type 0 where
  notice : Notice → Action
  signal : ℕ → Action

-- The branch for a received signal, with the variables after it.
unfoldable pub on_signal : Forwarder → ℕ → List Action × Forwarder
on_signal f n =
    if not (is_stop_signal n)
    then (signal n ∷ [], f)
    else if f.stop_requested
    then (notice (second_stop n) ∷ signal sigkill ∷ [], f)
    else (
      notice (stopping n) ∷ signal n ∷ [],
      record { kill_timer = running; stop_requested = true },
    )

-- The branch for the timer.
unfoldable pub on_timer : Forwarder → List Action × Forwarder
on_timer f = (notice still_running ∷ signal sigkill ∷ [], record f { kill_timer = expired })

-- The loop takes these events and does these actions; it waits for another event, or has returned. A timer
-- is received from only while it runs: a nil channel sends nothing, and a timer sends once.
pub data ForwardTo : Forwarder → List Event → List Action → Type 0 where
  waits : {f : Forwarder} → ForwardTo f [] []
  returns : {f : Forwarder} → ForwardTo f (done ∷ []) []
  on_received :
      {f : Forwarder} (n : ℕ) {events : List Event} {actions : List Action}
      → ForwardTo (on_signal f n).1 events actions
      → ForwardTo f (received n ∷ events) ((on_signal f n).0 ++ actions)
  on_expired :
      {f : Forwarder} {events : List Event} {actions : List Action}
      → f.kill_timer ≡ running
      → ForwardTo (on_timer f).1 events actions
      → ForwardTo f (timer ∷ events) ((on_timer f).0 ++ actions)

-- `exitCodeOf`, on the status word of Linux: the low 7 bits are the signal, 0 for an exit and 127 for a
-- stop, and the next byte is the exit code.
unfoldable pub exit_code_of : ℕ → ℤ
exit_code_of status =
    let number = status % 128 in
    if not (number == 0) && not (number == 127)
    then pos (128 + number)
    else if number == 0
    then pos (status / 256 % 256)
    else negsuc 0
