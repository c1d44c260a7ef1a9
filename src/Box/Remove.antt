-- ===== src/Box/Remove.antt =====
-- box.go: `validateBoxName`, `removeBoxes`, `removeBox`, `clearStoppedContainer`, `removeLostState`; cgroup.go:
-- `stopLeftoverScope`; boxlock.go: `lockBox` as it is used here. A run is the list of its actions, in order,
-- with the error it ends in.
pub mod Safety
pub mod Locks
use curimata.Common.{
  ℕ, Bool, true, false, not, ◌&&◌, ◌||◌, List, [], ◌∷◌, ◌++◌, Option, none, some, ltb, leb, ◌==◌,
  if◌then◌else◌, Bytes, length,
}

unfoldable pub is_name_start : ℕ → Bool
is_name_start c =
    (leb b'A' c && leb c b'Z') || ((leb b'a' c && leb c b'z') || (leb b'0' c && leb c b'9'))

unfoldable pub is_name_byte : ℕ → Bool
unfolding is_name_start
is_name_byte c = is_name_start c || ((c == b'_') || ((c == b'.') || (c == b'-')))

unfoldable pub are_name_bytes : Bytes → Bool
unfolding is_name_byte
are_name_bytes [] = true
are_name_bytes (c ∷ s) = is_name_byte c && are_name_bytes s

-- `validateBoxName`: the pattern, and the length.
unfoldable pub is_box_name : Bytes → Bool
unfolding is_name_start are_name_bytes
is_box_name [] = false
is_box_name (c ∷ s) = (is_name_start c && are_name_bytes s) && not (ltb 64 (length (c ∷ s)))

-- What `loadContainer` finds.
pub data Loaded : Type 0 where
  no_state corrupt_state unreadable_state found_container : Loaded

-- What a look at a path finds.
pub data Found : Type 0 where
  there missing unknown : Found

-- How the write to cgroup.kill ends.
pub data Kill : Type 0 where
  kill_written kill_missing kill_failed : Kill

-- The answers of the system about one box: `is_stopped` is none when the status cannot be read.
pub record World : Type 0 where
  pub locked : Bool
  pub loaded : Loaded
  pub is_stopped : Option Bool
  pub container_destroyed : Bool
  pub state_directory : Found
  pub systemd : Bool
  pub manager : Bool
  pub scope_exists : Bool
  pub kill : Kill
  pub scope_destroyed : Bool
  pub state_removed : Bool
  pub box_directory : Found
  pub box_removed : Bool

pub data Action : Type 0 where
  lock unlock : Action
  kill_scope destroy_scope remove_state destroy_container remove_tree : Action

pub data RemoveError : Type 0 where
  invalid_name in_use no_names : RemoveError
  bad_state bad_status still_runs not_destroyed bad_scope not_cleaned : RemoveError
  no_box bad_box not_removed : RemoveError

-- `found` tells whether there was state.
pub record Cleared : Type 0 where
  pub actions : List Action
  pub found : Bool
  pub error : Option RemoveError

pub record Removed : Type 0 where
  pub actions : List Action
  pub error : Option RemoveError

-- An error unless the call succeeds.
abbrev pub failed : Bool → RemoveError → Option RemoveError
failed true e = none
failed false e = some e

-- `stopLeftoverScope`
unfoldable pub stop_leftover_scope : World → Removed
stop_leftover_scope w =
    let destroy = failed w.scope_destroyed bad_scope in
    if not w.systemd
    then record { actions = []; error = none }
    else if not w.manager
    then record { actions = []; error = some bad_scope }
    else if not w.scope_exists
    then record { actions = destroy_scope ∷ []; error = destroy }
    else elim w.kill [
      | kill_failed ↦ record { actions = kill_scope ∷ []; error = some bad_scope }
      | kill_written ↦ record { actions = kill_scope ∷ destroy_scope ∷ []; error = destroy }
      | kill_missing ↦ record { actions = kill_scope ∷ destroy_scope ∷ []; error = destroy }
    ]

-- The removal of the state directory, once the scope is stopped.
unfoldable pub after_scope : World → Removed → Cleared
after_scope w stopped = elim stopped.error [
  | some e ↦ record { actions = stopped.actions; found = true; error = some e }
  | none ↦ record {
    actions = stopped.actions ++ (remove_state ∷ []);
    found = true;
    error = failed w.state_removed not_cleaned;
  }
]

-- `removeLostState`
unfoldable pub remove_lost_state : World → Cleared
unfolding after_scope stop_leftover_scope
remove_lost_state w = elim w.state_directory [
  | missing ↦ record { actions = []; found = false; error = none }
  | unknown ↦ record { actions = []; found = false; error = some not_cleaned }
  | there ↦ after_scope w (stop_leftover_scope w)
]

-- The part of `clearStoppedContainer` for a container that could be loaded.
unfoldable pub clear_container : World → Cleared
clear_container w = elim w.is_stopped [
  | none ↦ record { actions = []; found = true; error = some bad_status }
  | some false ↦ record { actions = []; found = true; error = some still_runs }
  | some true ↦ record {
    actions = destroy_container ∷ [];
    found = true;
    error = failed w.container_destroyed not_destroyed;
  }
]

-- `clearStoppedContainer`
unfoldable pub clear_stopped_container : World → Cleared
unfolding remove_lost_state clear_container
clear_stopped_container w = elim w.loaded [
  | no_state ↦ remove_lost_state w
  | corrupt_state ↦ remove_lost_state w
  | unreadable_state ↦ record { actions = []; found = true; error = some bad_state }
  | found_container ↦ clear_container w
]

-- `removeBox` behind the clearing of the state.
unfoldable pub remove_directory : World → Cleared → Removed
remove_directory w cleared = elim cleared.error [
  | some e ↦ record { actions = cleared.actions; error = some e }
  | none ↦ elim w.box_directory [
    | missing ↦ record { actions = cleared.actions; error = failed cleared.found no_box }
    | unknown ↦ record { actions = cleared.actions; error = some bad_box }
    | there ↦ record {
      actions = cleared.actions ++ (remove_tree ∷ []);
      error = failed w.box_removed not_removed;
    }
  ]
]

unfoldable pub remove_box : World → Removed
unfolding remove_directory clear_stopped_container
remove_box w = remove_directory w (clear_stopped_container w)

unfoldable pub named : Bytes → List Action → List (Bytes × Action)
named name [] = []
named name (x ∷ actions) = (name, x) ∷ named name actions

-- The actions on one box under its lock, and those that follow.
unfoldable pub around : Bytes → List Action → List (Bytes × Action) → List (Bytes × Action)
unfolding named
around name actions rest = (name, lock) ∷ (named name actions ++ ((name, unlock) ∷ rest))

-- The loop of `removeBoxes`, over the names and the answers about each. The actions carry the name.
unfoldable pub remove_each : List (Bytes × World) → List (Bytes × Action) × Option RemoveError
unfolding is_box_name remove_box around
remove_each [] = ([], none)
remove_each ((name, w) ∷ more) =
    let removed = remove_box w in
    let rest = remove_each more in
    if not (is_box_name name)
    then ([], some invalid_name)
    else if not w.locked
    then ([], some in_use)
    else elim removed.error [
      | some e ↦ (around name removed.actions [], some e)
      | none ↦ (around name removed.actions rest.0, rest.1)
    ]

unfoldable pub remove_boxes : List (Bytes × World) → List (Bytes × Action) × Option RemoveError
unfolding remove_each
remove_boxes [] = ([], some no_names)
remove_boxes (b ∷ boxes) = remove_each (b ∷ boxes)
