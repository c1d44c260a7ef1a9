-- ===== src/Holder.antt =====
-- netns.go: `startNetnsHolder`, `stop` and `writeIDMaps`, as the resources that they open and close, from the answers
-- of the system.
pub mod Open
mod Tests
use curimata.Common.{
  ℕ, zero, suc, Bool, true, false, not, ◌&&◌, List, [], ◌∷◌, ◌++◌, Option, none, some,
  if◌then◌else◌, Result, ok, err,
}

-- The two ends of the socket and of the pipe, the helper with its namespaces, a socket as it was received, and a
-- listener.
pub data Resource : Type 0 where
  parent_sock child_sock ready_reader ready_writer : Resource
  helper received listener : Resource

pub data Action : Type 0 where
  open_it close_it : Resource → Action

pub data HolderError : Type 0 where
  no_socket no_pipe not_started : HolderError
  no_map_args no_tool map_failed : HolderError
  not_released not_received not_adopted : HolderError

-- How one call of newuidmap or newgidmap ends.
pub data Mapped : Type 0 where
  mapped tool_missing tool_failed : Mapped

-- How the socket of one address comes.
pub data Received : Type 0 where
  adopted adoption_failed receipt_failed : Received

pub record World : Type 0 where
  pub paired : Bool
  pub piped : Bool
  pub started : Bool
  pub user_args : Bool
  pub group_args : Bool
  pub user_mapped : Mapped
  pub group_mapped : Mapped
  pub released : Bool
  pub sockets : List Received

pub record Run : Type 0 where
  pub actions : List Action
  pub result : Result HolderError (Unit {0})

abbrev pub after : List Action → Run → Run
after actions r = record { actions = actions ++ r.actions; result = r.result }

-- `writeIDMaps`: the error, if there is one. The group map is written only behind the user map.
abbrev pub map_step : Mapped → Option HolderError → Option HolderError
map_step mapped next = next
map_step tool_missing next = some no_tool
map_step tool_failed next = some map_failed

unfoldable pub write_id_maps : World → Option HolderError
write_id_maps w =
    if not (w.user_args && w.group_args)
    then some no_map_args
    else map_step w.user_mapped (map_step w.group_mapped none)

-- The listeners of a holder are closed one by one.
unfoldable pub close_listeners : ℕ → List Action → List Action
close_listeners zero rest = rest
close_listeners (suc n) rest = close_it listener ∷ close_listeners n rest

-- `stop` of a holder with `n` listeners; the helper is killed and waited for.
unfoldable pub stop : ℕ → List Action
unfolding close_listeners
stop n = close_listeners n (close_it ready_writer ∷ close_it helper ∷ [])

abbrev pub stopped : ℕ → HolderError → Run
stopped n e = record { actions = stop n; result = err e }

-- The loop over the addresses; `n` listeners are there.
unfoldable pub receive : ℕ → List Received → Run
unfolding stop
receive n [] = record { actions = []; result = ok tt }
receive n (receipt_failed ∷ more) = stopped n not_received
receive n (adoption_failed ∷ more) =
    after (open_it received ∷ close_it received ∷ []) (stopped n not_adopted)
receive n (adopted ∷ more) =
    after (open_it received ∷ open_it listener ∷ close_it received ∷ []) (receive (suc n) more)

unfoldable pub set_up : World → Option HolderError → Run
unfolding receive stop
set_up w (some e) = stopped 0 e
set_up w none =
    let sockets = receive 0 w.sockets in if w.released then sockets else stopped 0 not_released

-- Behind the socket pair: its own end is closed by a deferred call.
unfoldable pub start_helper : World → Run
unfolding set_up write_id_maps
start_helper w =
    let running =
      after (open_it helper ∷ close_it child_sock ∷ close_it ready_reader ∷ [])
        (set_up w (write_id_maps w)) in
    let unstarted : Run = record { actions = []; result = err not_started } in
    let piped =
      after (open_it ready_reader ∷ open_it ready_writer ∷ [])
        (if w.started then running else unstarted) in
    if w.piped then piped else record { actions = []; result = err no_pipe }

unfoldable pub start_netns_holder : World → Run
unfolding start_helper
start_netns_holder w =
    let r = start_helper w in
    if w.paired
    then record {
      actions =
          open_it parent_sock ∷ open_it child_sock ∷ (r.actions ++ (close_it parent_sock ∷ []));
      result = r.result;
    }
    else record { actions = []; result = err no_socket }
