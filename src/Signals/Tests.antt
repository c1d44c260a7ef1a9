-- ===== src/Signals/Tests.antt =====
-- signals.go at concrete signals.
use curimata.Common.{◌+◌, ◌-◌, ◌≤◌, ◌≡◌, refl, List, [], ◌∷◌, arith}
use curimata.Common.Int.{pos}
use curimata.Signals.{
  sigint, sigkill, sigterm, sigusr1, is_stop_signal, exit_code_of, start, Event, received, timer,
  done, Action, notice, signal, second_stop, stopping, still_running, on_signal, on_timer,
  ForwardTo, waits, returns, on_received, on_expired,
}
use curimata.Signals.Forward.{
  sent, signals_of, stops, kills, timers, forward_to_kills, forward_to_expires,
}

abbrev events : List Event
events = received sigusr1 ∷ received sigterm ∷ received sigint ∷ timer ∷ done ∷ []

abbrev actions : List Action
actions =
    signal sigusr1
    ∷ notice (stopping sigterm)
    ∷ signal sigterm
    ∷ notice (second_stop sigint)
    ∷ signal sigkill
    ∷ notice still_running
    ∷ signal sigkill
    ∷ []

run : ForwardTo start events actions
unfolding on_signal on_timer is_stop_signal
run = on_received sigusr1 (on_received sigterm (on_received sigint (on_expired refl returns)))

stopped : ForwardTo start (received sigterm ∷ []) (notice (stopping sigterm) ∷ signal sigterm ∷ [])
unfolding on_signal is_stop_signal
stopped = on_received sigterm waits

forward_to_kills_example :
    (kills (sent actions) ≡ (stops (signals_of events) - 1) + timers events)
    × (timers events ≤ 1)
    × (timers events ≤ stops (signals_of events))
unfolding signals_of
forward_to_kills_example = forward_to_kills run (ground arith)

forward_to_expires_example :
    ForwardTo start
      (received sigterm ∷ timer ∷ [])
      (notice (stopping sigterm) ∷ signal sigterm ∷ notice still_running ∷ signal sigkill ∷ [])
unfolding signals_of stops is_stop_signal timers
forward_to_expires_example = forward_to_expires stopped (ground arith) refl (omega arith)

killed_codes :
    (exit_code_of 9 ≡ pos 137) × (exit_code_of (15 + 128) ≡ pos 143) × (exit_code_of 256 ≡ pos 1)
unfolding exit_code_of
killed_codes = (refl, refl, refl)
