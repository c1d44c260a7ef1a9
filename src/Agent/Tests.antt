-- ===== src/Agent/Tests.antt =====
-- main.go: runs with and without an allowlist, and the commands of `main`.
use curimata.Common.{◌≡◌, refl, true, false, [], ◌∷◌, some, codes, ok, err}
use curimata.Agent.{
  box_lock, holder, container, signals, netlog, guard, acquire, release, start_container,
  forward_signals, exec_command, wait_command, no_terminal, has_terminal, not_taken_over, attached,
  World, not_started, no_log, start_agent_environment, run_agent, usage, command_of, exit_code,
}
use curimata.Agent.Order.{
  unopened, both_sockets, with_console, all_closed, act_all, left_open,
  start_agent_environment-IsOrdered,
}

abbrev fine : World
fine = record {
  parsed = some true;
  holder_started = true;
  container_created = true;
  new_terminal = no_terminal;
  container_started = true;
  log_opened = true;
  attach = attached;
  execs = true;
  exit_code = some 3;
}

whole_run : start_agent_environment fine ≡ record {
  actions =
      acquire box_lock
      ∷ acquire holder
      ∷ acquire container
      ∷ acquire signals
      ∷ start_container
      ∷ forward_signals
      ∷ acquire netlog
      ∷ acquire guard
      ∷ exec_command
      ∷ wait_command
      ∷ release guard
      ∷ release netlog
      ∷ release signals
      ∷ release container
      ∷ release holder
      ∷ release box_lock
      ∷ [];
  result = ok 3;
}
unfolding start_agent_environment
whole_run = refl

log_fails : (start_agent_environment (record fine { log_opened = false })).result ≡ err no_log
unfolding start_agent_environment
log_fails = refl

-- At a terminal: the sockets are left open when the log is not opened, and closed behind a whole run.
abbrev at_terminal : World
at_terminal = record fine { new_terminal = has_terminal }

sockets_left : left_open (record at_terminal { log_opened = false }) true ≡ both_sockets
unfolding left_open
sockets_left = refl

received_left : left_open (record at_terminal { attach = not_taken_over }) true ≡ with_console
unfolding left_open
received_left = refl

terminal_run :
    act_all true (start_agent_environment at_terminal).actions ([], unopened)
    ≡ some ([], all_closed)
unfolding start_agent_environment act_all
terminal_run = refl

start_agent_environment-IsOrdered_example :
    act_all true
      (start_agent_environment (record at_terminal { log_opened = false })).actions
      ([], unopened)
    ≡ some ([], left_open (record at_terminal { log_opened = false }) true)
start_agent_environment-IsOrdered_example =
    start_agent_environment-IsOrdered (record at_terminal { log_opened = false }) true refl

commands :
    (command_of (codes "curimata" ∷ codes "run" ∷ codes "box" ∷ []) ≡ run_agent)
    × (command_of (codes "curimata" ∷ codes "ran" ∷ []) ≡ usage)
    × (exit_code usage (err not_started) ≡ 2)
unfolding command_of exit_code
commands = (refl, refl, refl)
