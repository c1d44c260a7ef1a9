-- ===== src/Agent.antt =====
-- main.go: the steps of `startAgentEnvironment` and what it defers, as the list of its actions from the answers of
-- the system; and the choice of `main` among the commands.
pub mod Order
mod Tests
use curimata.Common.{
  ℕ, Bool, true, false, not, ◌&&◌, ◌||◌, List, [], ◌∷◌, ◌++◌, Option, none, some, if◌then◌else◌,
  Bytes, codes, bytes_eq, Result, ok, err,
}

-- What the function holds until a deferred call gives it up; `terminal` is the raw mode of the host terminal.
pub data Resource : Type 0 where
  box_lock holder container signals netlog guard terminal : Resource

pub data Action : Type 0 where
  acquire release : Resource → Action
  start_container forward_signals exec_command wait_command : Action
  open_sockets close_child open_console close_console close_parent : Action

pub data RunError : Type 0 where
  bad_args no_holder no_container bad_terminal not_started : RunError
  no_log not_attached not_released not_waited : RunError

-- How `newTerminal` ends.
pub data NewTerminal : Type 0 where
  terminal_failed no_terminal has_terminal : NewTerminal

-- How `attach` ends: without the console of the container, with an error once it has the console, or well.
pub data Attach : Type 0 where
  not_received not_taken_over attached : Attach

-- The answers: `parsed` tells whether there is an allowlist, and `exit_code` is what the command ends with.
pub record World : Type 0 where
  pub parsed : Option Bool
  pub holder_started : Bool
  pub container_created : Bool
  pub new_terminal : NewTerminal
  pub container_started : Bool
  pub log_opened : Bool
  pub attach : Attach
  pub execs : Bool
  pub exit_code : Option ℕ

pub record Run : Type 0 where
  pub actions : List Action
  pub result : Result RunError ℕ

abbrev pub fail : RunError → Run
fail e = record { actions = []; result = err e }

abbrev pub after : Action → Run → Run
after a r = record { actions = a ∷ r.actions; result = r.result }

-- A resource with its deferred release, around the rest of the function.
unfoldable pub holding : Resource → Run → Run
holding x r = record { actions = acquire x ∷ (r.actions ++ (release x ∷ [])); result = r.result }

abbrev pub exit_of : Option ℕ → Result RunError ℕ
exit_of none = err not_waited
exit_of (some code) = ok code

abbrev pub unless_bad_terminal : NewTerminal → Run → Run
unless_bad_terminal terminal_failed r = fail bad_terminal
unless_bad_terminal no_terminal r = r
unless_bad_terminal has_terminal r = after open_sockets r

-- `attach`, which closes our copy of the container's socket first, and the deferred `close`, around the rest.
unfoldable pub with_attach : Attach → Run → Run
unfolding holding
with_attach not_received r = after close_child (fail not_attached)
with_attach not_taken_over r = after close_child (after open_console (fail not_attached))
with_attach attached r =
    let taken = holding terminal r in
    after close_child (
      after open_console
        (record taken { actions = taken.actions ++ (close_console ∷ close_parent ∷ []) }))

module _ (w : World) where
  unfoldable pub run_command : Run
  run_command =
      if w.execs
      then after exec_command (record { actions = wait_command ∷ []; result = exit_of w.exit_code })
      else fail not_released

  unfoldable pub with_terminal : NewTerminal → Run
  unfolding run_command with_attach
  with_terminal terminal_failed = fail bad_terminal
  with_terminal no_terminal = run_command
  with_terminal has_terminal = with_attach w.attach run_command

  unfoldable pub with_guard : Bool → Run
  unfolding with_terminal holding
  with_guard false = with_terminal w.new_terminal
  with_guard true =
      let guarded = holding netlog (holding guard (with_terminal w.new_terminal)) in
      if w.log_opened then guarded else fail no_log

  unfoldable pub start : Bool → Run
  unfolding with_guard
  start allow =
      if w.container_started
      then after start_container (after forward_signals (with_guard allow))
      else fail not_started

  unfoldable pub with_container : Bool → Run
  unfolding start holding
  with_container allow =
      let created =
        holding container (holding signals (unless_bad_terminal w.new_terminal (start allow))) in
      if w.container_created then created else fail no_container

  unfoldable pub with_holder : Bool → Run
  unfolding with_container holding
  with_holder false = with_container false
  with_holder true =
      let held = holding holder (with_container true) in
      if w.holder_started then held else fail no_holder

  unfoldable pub start_agent_environment : Run
  unfolding with_holder holding
  start_agent_environment = elim w.parsed [
    | none ↦ fail bad_args
    | some allow ↦ holding box_lock (with_holder allow)
  ]

-- The commands of `main` with the exit code of the program. An inner command that succeeds exits with 0.
pub data Command : Type 0 where
  usage : Command
  holder_stage1 holder_stage2 remove_stage1 remove_stage2 : Command
  remove_boxes run_agent : Command

unfoldable pub command_of : List Bytes → Command
unfolding bytes_eq
command_of [] = usage
command_of (program ∷ []) = usage
command_of (program ∷ c ∷ args) =
    if bytes_eq c (codes "netns-holder")
    then holder_stage1
    else if bytes_eq c (codes "netns-holder-run")
    then holder_stage2
    else if bytes_eq c (codes "remove-tree")
    then remove_stage1
    else if bytes_eq c (codes "remove-tree-run")
    then remove_stage2
    else if bytes_eq c (codes "rm")
    then remove_boxes
    else if bytes_eq c (codes "run")
    then run_agent
    else usage

-- The exit code, from how the command ends: a usage error is 2, any other error 1.
unfoldable pub exit_code : Command → Result RunError ℕ → ℕ
exit_code usage r = 2
exit_code holder_stage1 r = elim r [ err e ↦ 1 | ok code ↦ 0 ]
exit_code holder_stage2 r = elim r [ err e ↦ 1 | ok code ↦ 0 ]
exit_code remove_stage1 r = elim r [ err e ↦ 1 | ok code ↦ 0 ]
exit_code remove_stage2 r = elim r [ err e ↦ 1 | ok code ↦ 0 ]
exit_code remove_boxes r = elim r [ err e ↦ 1 | ok code ↦ 0 ]
exit_code run_agent r = elim r [ err e ↦ 1 | ok code ↦ code ]
