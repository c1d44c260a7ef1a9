-- ===== src/Agent/Order.antt =====
-- main.go: the order of the steps of a run.
use curimata.Common.{
  ◌≡◌, refl, ◌∙◌, inl, inr, Bool, true, false, not, ◌&&◌, ◌||◌, List, [], ◌∷◌, ◌++◌, Option, none,
  some, if◌then◌else◌, Bool-cases, Option-cases,
}
use curimata.Agent.{
  Resource, box_lock, holder, container, signals, netlog, guard, terminal, Action, acquire, release,
  start_container, forward_signals, exec_command, wait_command, open_sockets, close_child,
  open_console, close_console, close_parent, RunError, no_log, no_holder, no_container, NewTerminal,
  terminal_failed, no_terminal, has_terminal, Attach, not_received, not_taken_over, attached, World,
  Run, fail, holding, run_command, with_attach, with_terminal, with_guard, start,
  unless_bad_terminal, with_container, with_holder, start_agent_environment,
}

unfoldable pub is_same : Resource → Resource → Bool
is_same box_lock box_lock = true
is_same holder holder = true
is_same container container = true
is_same signals signals = true
is_same netlog netlog = true
is_same guard guard = true
is_same terminal terminal = true
is_same _ _ = false

unfoldable pub holds : Resource → List Resource → Bool
unfolding is_same
holds x [] = false
holds x (y ∷ held) = is_same x y || holds x held

-- Gives up the resource that was acquired last.
unfoldable pub give_up : Resource → List Resource → Option (List Resource)
unfolding is_same
give_up x [] = none
give_up x (y ∷ held) = if is_same x y then some held else none

-- The sockets of `newTerminal` and the console of the container, by which of them are open.
pub data Console : Type 0 where
  unopened both_sockets parent_only with_console console_closed all_closed : Console

unfoldable pub step_console : Action → Console → Option Console
step_console open_sockets unopened = some both_sockets
step_console close_child both_sockets = some parent_only
step_console open_console parent_only = some with_console
step_console close_console with_console = some console_closed
step_console close_parent console_closed = some all_closed
step_console _ _ = none

abbrev pub Held : Type 0
Held = List Resource × Console

abbrev pub keep : Option (List Resource) → Console → Option Held
keep none k = none
keep (some held) k = some (held, k)

abbrev pub turn : List Resource → Option Console → Option Held
turn held none = none
turn held (some k) = some (held, k)

-- One action with what is held, the last first. The container starts only under the lock, with the signals caught,
-- and the command runs only when the proxies do that an allowlist needs.
unfoldable pub act : Bool → Action → Held → Option Held
unfolding holds give_up step_console
act allow (acquire x) (held, k) = some (x ∷ held, k)
act allow (release x) (held, k) = keep (give_up x held) k
act allow start_container (held, k) =
    if holds box_lock held && holds signals held then some (held, k) else none
act allow forward_signals (held, k) = if holds signals held then some (held, k) else none
act allow exec_command (held, k) =
    if not allow || (holds guard held && holds holder held) then some (held, k) else none
act allow wait_command (held, k) = some (held, k)
act allow open_sockets (held, k) = turn held (step_console open_sockets k)
act allow close_child (held, k) = turn held (step_console close_child k)
act allow open_console (held, k) = turn held (step_console open_console k)
act allow close_console (held, k) = turn held (step_console close_console k)
act allow close_parent (held, k) = turn held (step_console close_parent k)

unfoldable pub act_all : Bool → List Action → Held → Option Held
unfolding act
act_all allow [] h = some h
act_all allow (a ∷ actions) h = elim (act allow a h) [
  | none ↦ none
  | some next ↦ act_all allow actions next
]

-- What is open behind `newTerminal`, and behind the run, by whether `attach` is reached and how it ends.
unfoldable pub console_opened : NewTerminal → Console
console_opened terminal_failed = unopened
console_opened no_terminal = unopened
console_opened has_terminal = both_sockets

unfoldable pub attach_left : Attach → Console
attach_left not_received = parent_only
attach_left not_taken_over = with_console
attach_left attached = all_closed

unfoldable pub console_left : NewTerminal → Bool → Attach → Console
unfolding attach_left
console_left terminal_failed reached a = unopened
console_left no_terminal reached a = unopened
console_left has_terminal false a = both_sockets
console_left has_terminal true a = attach_left a

-- The calls before `newTerminal` succeed, and those between it and `attach`.
abbrev pub is_created : World → Bool → Bool
is_created w allow = w.container_created && (not allow || w.holder_started)

abbrev pub is_attaching : World → Bool → Bool
is_attaching w allow = w.container_started && (not allow || w.log_opened)

unfoldable pub left_open : World → Bool → Console
unfolding console_left
left_open w allow =
    if is_created w allow
    then console_left w.new_terminal (is_attaching w allow) w.attach
    else unopened

act_all-append :
    (allow : Bool) (xs ys : List Action) (h mid : Held)
    → act_all allow xs h ≡ some mid
    → act_all allow (xs ++ ys) h ≡ act_all allow ys mid
unfolding act_all
act_all-append allow [] ys h mid e = let same : h ≡ mid = cc in rw same refl
act_all-append allow (a ∷ xs) ys h mid e = elim (Option-cases (act allow a h)) [
  | inl q ↦ let bad = rw (q, act_all) at e in cc
  | inr (next, q) ↦ rw (q, act_all) (act_all-append allow xs ys next mid (rw (q, act_all) at e))
]

is_same_refl : (x : Resource) → is_same x x ≡ true
unfolding is_same
is_same_refl box_lock = refl
is_same_refl holder = refl
is_same_refl container = refl
is_same_refl signals = refl
is_same_refl netlog = refl
is_same_refl guard = refl
is_same_refl terminal = refl

-- The actions go through, give up all that they acquire, and turn the first console into the second.
abbrev IsOrdered : Bool → List Resource → Console → Console → Run → Type 0
IsOrdered allow held k l r = act_all allow r.actions (held, k) ≡ some (held, l)

released :
    (allow : Bool) (x : Resource) (held : List Resource) (k : Console)
    → act_all allow (release x ∷ []) (x ∷ held, k) ≡ some (held, k)
unfolding act_all
released allow x held k = rw (is_same_refl x, act_all) refl

fail-IsOrdered :
    (allow : Bool) (e : RunError) (held : List Resource) (k : Console)
    → IsOrdered allow held k k (fail e)
unfolding act_all
fail-IsOrdered allow e held k = refl

module _ (allow : Bool) where
  holding-IsOrdered :
      (x : Resource) (held : List Resource) (k l : Console) (r : Run)
      → IsOrdered allow (x ∷ held) k l r
      → IsOrdered allow held k l (holding x r)
  unfolding holding act_all
  holding-IsOrdered x held k l r h =
      act_all-append allow r.actions (release x ∷ []) (x ∷ held, k) (x ∷ held, l) h
      ∙ released allow x held l

  run_command-IsOrdered :
      (w : World) (held : List Resource) (k : Console)
      → (not allow || (holds guard held && holds holder held)) ≡ true
      → IsOrdered allow held k k (run_command w)
  unfolding run_command act_all
  run_command-IsOrdered w held k h = elim (Bool-cases w.execs) [
    | inl e ↦ rw (e, run_command, h, act_all) refl
    | inr e ↦ rw (e, run_command) refl
  ]

  with_attach-IsOrdered :
      (a : Attach) (held : List Resource) (r : Run)
      → IsOrdered allow (terminal ∷ held) with_console with_console r
      → IsOrdered allow held both_sockets (attach_left a) (with_attach a r)
  unfolding with_attach attach_left act_all
  with_attach-IsOrdered not_received held r h = refl
  with_attach-IsOrdered not_taken_over held r h = refl
  with_attach-IsOrdered attached held r h =
      act_all-append allow (holding terminal r).actions (close_console ∷ close_parent ∷ [])
        (held, with_console) (held, with_console)
        (holding-IsOrdered terminal held with_console with_console r h)

  with_terminal-IsOrdered :
      (w : World) (t : NewTerminal) (held : List Resource)
      → (not allow || (holds guard held && holds holder held)) ≡ true
      → IsOrdered allow held (console_opened t) (console_left t true w.attach) (with_terminal w t)
  unfolding with_terminal console_opened console_left act_all
  with_terminal-IsOrdered w terminal_failed held h = refl
  with_terminal-IsOrdered w no_terminal held h = run_command-IsOrdered w held unopened h
  with_terminal-IsOrdered w has_terminal held h =
      with_attach-IsOrdered w.attach held (run_command w)
        (run_command-IsOrdered w (terminal ∷ held) with_console h)

-- What is open when `attach` is not reached.
not_reached : (t : NewTerminal) (a : Attach) → console_left t false a ≡ console_opened t
unfolding console_left console_opened
not_reached terminal_failed a = refl
not_reached no_terminal a = refl
not_reached has_terminal a = refl

module _ (w : World) where
  with_guard-IsOrdered :
      (allow : Bool) (held : List Resource)
      → (not allow || holds holder held) ≡ true
      → IsOrdered allow held
          (console_opened w.new_terminal)
          (console_left w.new_terminal (not allow || w.log_opened) w.attach)
          (with_guard w allow)
  unfolding with_guard holds
  with_guard-IsOrdered false held h = with_terminal-IsOrdered false w w.new_terminal held refl
  with_guard-IsOrdered true held h = elim (Bool-cases w.log_opened) [
    | inr e ↦
        rw (e, not_reached w.new_terminal w.attach)
          (fail-IsOrdered true no_log held (console_opened w.new_terminal))
    | inl e ↦
        let inner = with_terminal w w.new_terminal in
        let k = console_opened w.new_terminal in
        let l = console_left w.new_terminal true w.attach in
        rw e (
          holding-IsOrdered true netlog held k l (holding guard inner) (
            holding-IsOrdered true guard (netlog ∷ held) k l inner
              (with_terminal-IsOrdered true w w.new_terminal (guard ∷ netlog ∷ held) h)))
  ]

  start-IsOrdered :
      (allow : Bool) (held : List Resource)
      → holds box_lock held ≡ true
      → (not allow || holds holder held) ≡ true
      → IsOrdered allow
          (signals ∷ container ∷ held)
          (console_opened w.new_terminal)
          (console_left w.new_terminal (is_attaching w allow) w.attach)
          (start w allow)
  unfolding start holds act_all
  start-IsOrdered allow held b h = elim (Bool-cases w.container_started) [
    | inr e ↦ rw (e, start, not_reached w.new_terminal w.attach) refl
    | inl e ↦ rw (e, start, b, act_all) (with_guard-IsOrdered allow (signals ∷ container ∷ held) h)
  ]

  unless_bad_terminal-IsOrdered :
      (t : NewTerminal) (allow reached : Bool) (held : List Resource) (r : Run)
      → IsOrdered allow held (console_opened t) (console_left t reached w.attach) r
      → IsOrdered allow held unopened (console_left t reached w.attach) (unless_bad_terminal t r)
  unfolding console_left console_opened act_all
  unless_bad_terminal-IsOrdered terminal_failed allow reached held r h = refl
  unless_bad_terminal-IsOrdered no_terminal allow reached held r h = h
  unless_bad_terminal-IsOrdered has_terminal allow reached held r h = h

  with_container-IsOrdered :
      (allow : Bool) (held : List Resource)
      → holds box_lock held ≡ true
      → (not allow || holds holder held) ≡ true
      → (not allow || w.holder_started) ≡ true
      → IsOrdered allow held unopened (left_open w allow) (with_container w allow)
  unfolding with_container left_open
  with_container-IsOrdered allow held b h s = elim (Bool-cases w.container_created) [
    | inr e ↦ rw e (fail-IsOrdered allow no_container held unopened)
    | inl e ↦
        let inner = unless_bad_terminal w.new_terminal (start w allow) in
        let l = console_left w.new_terminal (is_attaching w allow) w.attach in
        rw (e, s)
          (holding-IsOrdered allow container held unopened l (holding signals inner) (
            holding-IsOrdered allow signals (container ∷ held) unopened l inner (
              unless_bad_terminal-IsOrdered w.new_terminal allow (is_attaching w allow)
                (signals ∷ container ∷ held) (start w allow) (start-IsOrdered allow held b h))))
  ]

  not_started-left : w.holder_started ≡ false → left_open w true ≡ unopened
  unfolding left_open
  not_started-left h = elim (Bool-cases w.container_created) [
    | inl e ↦ rw (e, h) refl
    | inr e ↦ rw e refl
  ]

  held-IsOrdered :
      (started : Bool)
      → w.holder_started ≡ started
      → IsOrdered true
          (box_lock ∷ [])
          unopened
          (left_open w true)
          (if started then holding holder (with_container w true) else fail no_holder)
  unfolding holds
  held-IsOrdered false s =
      rw (not_started-left s) (fail-IsOrdered true no_holder (box_lock ∷ []) unopened)
  held-IsOrdered true s =
      holding-IsOrdered true holder (box_lock ∷ []) unopened (left_open w true)
        (with_container w true) (with_container-IsOrdered true (holder ∷ box_lock ∷ []) refl refl s)

  with_holder-IsOrdered :
      (allow : Bool)
      → IsOrdered allow (box_lock ∷ []) unopened (left_open w allow) (with_holder w allow)
  unfolding with_holder holds
  with_holder-IsOrdered false = with_container-IsOrdered false (box_lock ∷ []) refl refl refl
  with_holder-IsOrdered true = held-IsOrdered w.holder_started refl

  -- Whatever fails, a run gives up what it defers the release of, the last first and so the lock of the name at the
  -- very end; the container starts under that lock with the signals caught; and with an allowlist the command is
  -- released only while the proxies and the helper of the network run. The sockets of `newTerminal` are the exception:
  -- they are closed, with the console of the container, behind an `attach` that succeeds; but both stay open when
  -- the container does not start or the log is not opened, and one of them when `attach` fails, with the console if
  -- it was received.
  pub start_agent_environment-IsOrdered :
      (allow : Bool)
      → w.parsed ≡ some allow
      → act_all allow (start_agent_environment w).actions ([], unopened)
        ≡ some ([], left_open w allow)
  unfolding start_agent_environment left_open
  start_agent_environment-IsOrdered allow e =
      rw (e, start_agent_environment)
        (holding-IsOrdered allow box_lock [] unopened (left_open w allow) (with_holder w allow)
          (with_holder-IsOrdered allow))
