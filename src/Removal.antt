-- ===== src/Removal.antt =====
-- removetree.go: `removeTree` with its helper in a user namespace, whose two stages are runs of the program itself. A
-- run lists the actions of both processes in order, from the answers of the system.
pub mod Order
mod Tests
use curimata.Common.{
  ℕ, Bool, true, false, not, ◌&&◌, List, [], ◌∷◌, ◌++◌, Option, none, some, if◌then◌else◌, Bytes,
  codes, bytes_eq, Result, ok, err,
}
use curimata.Holder
use curimata.Holder.{HolderError, write_id_maps}
use curimata.Agent.{
  Command, usage, holder_stage1, holder_stage2, remove_stage1, remove_stage2, remove_boxes,
  run_agent, command_of,
}

-- `removal` is what the helper does, `own_removal` what the program tries itself.
pub data Action : Type 0 where
  own_removal removal : Bytes → Action
  start : List Bytes → Action
  open_pipe close_reader close_writer map_ids release kill wait : Action

pub data RemovalError : Type 0 where
  own_failed no_pipe not_started not_released helper_failed : RemovalError
  not_mapped : HolderError → RemovalError

-- How `os.RemoveAll` ends.
pub data Removed : Type 0 where
  all_removed no_permission removal_failed : Removed

pub record World : Type 0 where
  pub own : Removed
  pub piped : Bool
  pub started : Bool
  pub maps : Holder.World
  pub released : Bool
  pub executed : Bool
  pub inside : Removed

pub record Run : Type 0 where
  pub actions : List Action
  pub result : Result RemovalError (Unit {0})

abbrev pub remove_tree_command : Bytes
remove_tree_command = codes "remove-tree"

abbrev pub remove_tree_stage2 : Bytes
remove_tree_stage2 = codes "remove-tree-run"

-- The arguments behind the program and the command.
abbrev pub args_of : List Bytes → List Bytes
args_of [] = []
args_of (program ∷ []) = []
args_of (program ∷ c ∷ args) = args

-- `runRemoveTreeStage1`: the command line that it executes, once it has read the byte; none is an error.
unfoldable pub stage1 : Bool → Bool → List Bytes → Option (List Bytes)
stage1 ready executed (path ∷ []) =
    if ready && executed then some (codes "curimata" ∷ remove_tree_stage2 ∷ path ∷ []) else none
stage1 ready executed [] = none
stage1 ready executed (a ∷ b ∷ args) = none

-- `runRemoveTree`: the tree that it removes.
unfoldable pub stage2 : List Bytes → Option Bytes
stage2 (path ∷ []) = some path
stage2 [] = none
stage2 (a ∷ b ∷ args) = none

-- The program in its second stage, from its command line.
unfoldable pub by_stage2 : Command → List Bytes → Option Bytes
unfolding stage2
by_stage2 remove_stage2 args = stage2 args
by_stage2 usage args = none
by_stage2 holder_stage1 args = none
by_stage2 holder_stage2 args = none
by_stage2 remove_stage1 args = none
by_stage2 remove_boxes args = none
by_stage2 run_agent args = none

abbrev pub executes : Option (List Bytes) → Option Bytes
unfolding by_stage2 command_of bytes_eq
executes none = none
executes (some args) = by_stage2 (command_of args) (args_of args)

unfoldable pub by_stage1 : Command → Bool → Bool → List Bytes → Option Bytes
unfolding stage1 by_stage2 command_of bytes_eq
by_stage1 remove_stage1 ready executed args = executes (stage1 ready executed args)
by_stage1 usage ready executed args = none
by_stage1 holder_stage1 ready executed args = none
by_stage1 holder_stage2 ready executed args = none
by_stage1 remove_stage2 ready executed args = none
by_stage1 remove_boxes ready executed args = none
by_stage1 run_agent ready executed args = none

-- What the helper removes: `ready` tells whether the byte comes, and `executed` whether it becomes its second stage.
unfoldable pub helper_removes : Bool → Bool → List Bytes → Option Bytes
unfolding by_stage1 command_of bytes_eq
helper_removes ready executed args = by_stage1 (command_of args) ready executed (args_of args)

abbrev pub after : List Action → Run → Run
after actions r = record { actions = actions ++ r.actions; result = r.result }

abbrev pub ended : Removed → Result RemovalError (Unit {0})
ended all_removed = ok tt
ended no_permission = err helper_failed
ended removal_failed = err helper_failed

-- The wait for a helper that may go on.
unfoldable pub wait_for : World → Option Bytes → Run
wait_for w none = record { actions = wait ∷ []; result = err helper_failed }
wait_for w (some path) = record { actions = removal path ∷ wait ∷ []; result = ended w.inside }

abbrev pub killed : RemovalError → Run
killed e = record { actions = kill ∷ wait ∷ []; result = err e }

-- Behind the write of the go-ahead; `args` is the command line of the helper.
unfoldable pub by_release : Bool → World → List Bytes → Run
unfolding wait_for helper_removes
by_release true w args = after (release ∷ []) (wait_for w (helper_removes true w.executed args))
by_release false w args = killed not_released

unfoldable pub go_ahead : World → List Bytes → Run
unfolding by_release
go_ahead w args = after (map_ids ∷ []) (by_release w.released w args)

unfoldable pub guide : World → List Bytes → Option HolderError → Run
unfolding go_ahead
guide w args none = go_ahead w args
guide w args (some e) = killed (not_mapped e)

abbrev pub closing : Run → Run
closing r = record { actions = r.actions ++ (close_writer ∷ []); result = r.result }

-- Behind the start of the helper.
unfoldable pub by_start : Bool → World → List Bytes → Run
unfolding guide write_id_maps
by_start true w args = after (start args ∷ close_reader ∷ []) (guide w args (write_id_maps w.maps))
by_start false w args = record { actions = close_reader ∷ []; result = err not_started }

-- Behind the pipe, whose end for writing is closed by a deferred call.
unfoldable pub by_pipe : Bool → World → Bytes → Run
unfolding by_start
by_pipe true w path =
    after (open_pipe ∷ [])
      (closing (by_start w.started w (codes "/proc/self/exe" ∷ remove_tree_command ∷ path ∷ [])))
by_pipe false w path = record { actions = []; result = err no_pipe }

-- `removeTreeInUserNamespace`
unfoldable pub remove_tree_in_user_namespace : World → Bytes → Run
unfolding by_pipe
remove_tree_in_user_namespace w path = by_pipe w.piped w path

-- `removeTree`
unfoldable pub try_own : Removed → World → Bytes → Run
unfolding remove_tree_in_user_namespace
try_own all_removed w path = record { actions = []; result = ok tt }
try_own removal_failed w path = record { actions = []; result = err own_failed }
try_own no_permission w path = remove_tree_in_user_namespace w path

unfoldable pub remove_tree : World → Bytes → Run
unfolding try_own
remove_tree w path = after (own_removal path ∷ []) (try_own w.own w path)
