-- ===== src/Signals/Forward.antt =====
-- signals.go: when `forwardTo` passes a signal on, and when it kills.
use curimata.Common.{
  ℕ, suc, ◌+◌, ◌-◌, ◌≤◌, ◌≡◌, ◌≢◌, ◌⊎◌, refl, true, false, List, [], ◌∷◌, ◌++◌, append_assoc, ◌==◌,
  All, arith, Bool-cases, inl, inr, if◌then◌else◌,
}
use curimata.Signals.{
  sigkill, is_stop_signal, KillTimer, still_running, never, running, expired, Forwarder, start,
  Event, received, timer, done, Action, notice, signal, on_signal, on_timer, ForwardTo, waits,
  returns, on_received, on_expired,
}

-- The signals that the actions send to the process.
unfoldable pub sent : List Action → List ℕ
sent [] = []
sent (notice _ ∷ actions) = sent actions
sent (signal n ∷ actions) = n ∷ sent actions

unfoldable pub signals_of : List Event → List ℕ
signals_of [] = []
signals_of (received n ∷ events) = n ∷ signals_of events
signals_of (timer ∷ events) = signals_of events
signals_of (done ∷ events) = signals_of events

unfoldable pub stops : List ℕ → ℕ
stops [] = 0
stops (n ∷ signals) = if is_stop_signal n then suc (stops signals) else stops signals

unfoldable pub kills : List ℕ → ℕ
kills [] = 0
kills (n ∷ signals) = if n == sigkill then suc (kills signals) else kills signals

unfoldable pub timers : List Event → ℕ
timers [] = 0
timers (received n ∷ events) = timers events
timers (timer ∷ events) = suc (timers events)
timers (done ∷ events) = timers events

-- The signals other than SIGKILL.
unfoldable pub without_kill : List ℕ → List ℕ
without_kill [] = []
without_kill (n ∷ signals) = if n == sigkill then without_kill signals else n ∷ without_kill signals

-- The signals other than a stop signal.
unfoldable pub without_stop : List ℕ → List ℕ
without_stop [] = []
without_stop (n ∷ signals) =
    if is_stop_signal n then without_stop signals else n ∷ without_stop signals

-- The signals without the stop signals after the first.
unfoldable pub first_stop : List ℕ → List ℕ
first_stop [] = []
first_stop (n ∷ signals) =
    if is_stop_signal n then n ∷ without_stop signals else n ∷ first_stop signals

-- The first stop signal is still to come.
abbrev fresh : Forwarder → ℕ → ℕ
fresh f n = if f.stop_requested then 0 else (if n == 0 then 0 else 1)

abbrev armed : KillTimer → ℕ
armed never = 0
armed running = 1
armed expired = 0

is_stop_signal_kill : (n : ℕ) → is_stop_signal n ≡ true → n ≢ sigkill
unfolding is_stop_signal
is_stop_signal_kill n h = ground arith

kills_counted :
    {f : Forwarder} {events : List Event} {actions : List Action}
    → ForwardTo f events actions
    → All (λ n. n ≢ sigkill) (signals_of events)
    → kills (sent actions) + fresh f (stops (signals_of events))
      ≡ stops (signals_of events) + timers events
unfolding kills sent stops signals_of timers on_timer on_signal
kills_counted (waits {f}) h = ground arith
kills_counted (returns {f}) h = ground arith
kills_counted (on_received {f} n {events} run) (hn, h) = elim (Bool-cases (is_stop_signal n)) [
  | inr e ↦ let ih = kills_counted run h in ground arith
  | inl e ↦
      let ih = kills_counted run h in
      elim (Bool-cases f.stop_requested) [ inl q ↦ ground arith | inr q ↦ ground arith ]
]
kills_counted (on_expired {f} e run) h = let ih = kills_counted run h in ground arith

timers_bounded :
    {f : Forwarder} {events : List Event} {actions : List Action}
    → ForwardTo f events actions
    → timers events ≤ armed f.kill_timer + fresh f (stops (signals_of events))
unfolding stops signals_of timers on_timer on_signal
timers_bounded (waits {f}) = ground arith
timers_bounded (returns {f}) = ground arith
timers_bounded (on_received {f} n run) =
    let ih = timers_bounded run in
    elim (Bool-cases (is_stop_signal n)) [
      | inr e ↦ ground arith
      | inl e ↦ elim (Bool-cases f.stop_requested) [ inl q ↦ ground arith | inr q ↦ ground arith ]
    ]
timers_bounded (on_expired {f} e run) = let ih = timers_bounded run in ground arith

passed_on :
    {f : Forwarder} {events : List Event} {actions : List Action}
    → ForwardTo f events actions
    → All (λ n. n ≢ sigkill) (signals_of events)
    → without_kill (sent actions) ≡ (
        if f.stop_requested
        then without_stop (signals_of events)
        else first_stop (signals_of events))
unfolding without_kill without_stop first_stop sent signals_of on_timer on_signal
passed_on (waits {f}) h = ground arith
passed_on (returns {f}) h = ground arith
passed_on (on_received {f} n {events} run) (hn, h) =
    let ih = passed_on run h in
    elim (Bool-cases (is_stop_signal n)) [
      | inr e ↦ ground arith
      | inl e ↦ elim (Bool-cases f.stop_requested) [ inl q ↦ ground arith | inr q ↦ ground arith ]
    ]
passed_on (on_expired {f} e run) h = passed_on run h

passed_unchanged :
    {f : Forwarder} {events : List Event} {actions : List Action}
    → ForwardTo f events actions
    → f.kill_timer ≡ never
    → stops (signals_of events) ≡ 0
    → sent actions ≡ signals_of events
unfolding stops sent signals_of on_timer on_signal
passed_unchanged (waits {f}) t h = refl
passed_unchanged (returns {f}) t h = refl
passed_unchanged (on_received {f} n {events} run) t h = elim (Bool-cases (is_stop_signal n)) [
  | inl e ↦ absurd (ground arith)
  | inr e ↦ let ih = passed_unchanged run in ground arith
]
passed_unchanged (on_expired {f} e run) t h = absurd (cc)

abbrev last : List Action
last = notice still_running ∷ signal sigkill ∷ []

-- The timer runs, or a first stop signal among `s` of them will start it.
abbrev IsDue : Forwarder → ℕ → Type 0
IsDue f s = (f.kill_timer ≡ running) ⊎ ((f.stop_requested ≡ false) × (1 ≤ s))

on_signal-IsDue :
    (f : Forwarder) (n : ℕ) (signals : List ℕ)
    → IsDue f (stops (n ∷ signals))
    → IsDue (on_signal f n).1 (stops signals)
unfolding stops on_signal
on_signal-IsDue f n signals d = elim (Bool-cases (is_stop_signal n)) [
  | inr e ↦ rw e (elim d [ inl r ↦ inl r | inr (q, h) ↦ inr (q, ground arith) ])
  | inl e ↦ elim (Bool-cases f.stop_requested) [
    | inr q ↦ inl (rw (e, q))
    | inl q ↦ elim d [ inl r ↦ inl (rw (e, q) r) | inr (q2, h) ↦ absurd (cc) ]
  ]
]

expires :
    {f : Forwarder} {events : List Event} {actions : List Action}
    → ForwardTo f events actions
    → All (λ e. e ≢ done) events
    → timers events ≡ 0
    → IsDue f (stops (signals_of events))
    → ForwardTo f (events ++ (timer ∷ [])) (actions ++ last)
unfolding stops signals_of timers on_timer
expires (waits {f}) h none_yet (inl r) = on_expired r waits
expires (waits {f}) h none_yet (inr (_, s)) = absurd (omega arith)
expires (returns {f}) (h, _) none_yet r = absurd (h refl)
expires (on_received {f} n {events} run) (_, h) none_yet r =
    let ih = expires run h none_yet (on_signal-IsDue f n (signals_of events) r) in
    rw append_assoc (on_received n ih)
expires (on_expired {f} e run) h none_yet r = absurd (omega arith)

-- In a run of the loop in which nobody sends SIGKILL to curimata itself, the container gets one SIGKILL for
-- each stop signal after the first and one for the expiry of the timer, which happens at most once, and only
-- after a stop signal.
pub forward_to_kills :
    {events : List Event} {actions : List Action}
    → ForwardTo start events actions
    → All (λ n. n ≢ sigkill) (signals_of events)
    → (kills (sent actions) ≡ (stops (signals_of events) - 1) + timers events)
      × (timers events ≤ 1)
      × (timers events ≤ stops (signals_of events))
forward_to_kills {events} run h =
    let k = kills_counted run h in
    let t = timers_bounded run in (ground arith, ground arith, ground arith)

-- When nobody sends SIGKILL to curimata itself, the container gets, apart from SIGKILL, the received signals
-- in their order, all of them except the stop signals after the first.
forward_to_passed :
    {events : List Event} {actions : List Action}
    → ForwardTo start events actions
    → All (λ n. n ≢ sigkill) (signals_of events)
    → without_kill (sent actions) ≡ first_stop (signals_of events)
forward_to_passed run h = passed_on run h

-- Without a stop signal the loop sends exactly what it received: it never kills on its own.
forward_to_no_stop :
    {events : List Event} {actions : List Action}
    → ForwardTo start events actions
    → stops (signals_of events) ≡ 0
    → sent actions ≡ signals_of events
forward_to_no_stop run h = passed_unchanged run refl h

-- After a stop signal, as long as the forwarder has not been stopped and the timer has not expired, the loop
-- can receive the expiry, and kills the container then.
pub forward_to_expires :
    {events : List Event} {actions : List Action}
    → ForwardTo start events actions
    → All (λ e. e ≢ done) events
    → timers events ≡ 0
    → 1 ≤ stops (signals_of events)
    → ForwardTo start
        (events ++ (timer ∷ []))
        (actions ++ (notice still_running ∷ signal sigkill ∷ []))
forward_to_expires run h t s = expires run h t (inr (refl, s))
