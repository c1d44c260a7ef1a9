-- ===== src/Box/Tests.antt =====
-- box.go on boxes of the image alpine, where a tree is the name of its image.
use curimata.Common.{
  ◌≡◌, refl, true, false, [], ◌∷◌, ◌++◌, none, some, Bytes, codes, bytes_eq, All, err,
}
use curimata.Text.Trim.{trim_space}
use curimata.Box.{BoxDir, absent, directory, whole, partial, other_image, copy_failed, prepare_box}
use curimata.Box.Install.{IsSound, prepare_box-IsSound}
use curimata.Box.Chosen.{last_state, Holds}
use curimata.Box.Remove.{
  no_state, corrupt_state, found_container, there, missing, kill_written, still_runs, Action, lock,
  unlock, kill_scope, destroy_scope, remove_state, destroy_container, remove_tree, is_box_name,
  remove_box, remove_boxes,
}
use curimata.Box
use curimata.Box.Remove
use curimata.Box.Remove.Safety.{AreSafe, remove_box-IsSafe}
use curimata.Box.Remove.Locks.{remove_boxes-Holds}
use curimata.Box.Remove.Locks

abbrev alpine : Bytes
alpine = codes "alpine"

-- Everything succeeds, and the pull gives the image.
abbrev fine : Box.World Bytes
fine = record {
  pulled = some alpine;
  empty = [];
  made_directory = true;
  made_temporary = true;
  copied = whole;
  recorded = true;
  partial_record = none;
  renamed = true;
  cleaned = true;
}

abbrev no_box : BoxDir Bytes
no_box = record { rootfs = absent; image = none; temporary = [] }

abbrev debian_box : BoxDir Bytes
debian_box = record {
  rootfs = directory (codes "debian");
  image = some (codes "debian");
  temporary = [];
}

installed :
    last_state no_box (prepare_box fine alpine no_box true false).states
    ≡ record { rootfs = directory alpine; image = some (alpine ++ (10 ∷ [])); temporary = [] }
unfolding prepare_box bytes_eq
installed = refl

refusals :
    ((prepare_box fine alpine debian_box true false).result ≡ err other_image)
    × ((prepare_box (record fine { copied = partial false [] }) alpine no_box true false).result
        ≡ err copy_failed)
unfolding prepare_box bytes_eq trim_space
refusals = (refl, refl)

alpine_trimmed : trim_space (alpine ++ (10 ∷ [])) ≡ alpine
unfolding trim_space
alpine_trimmed = refl

pulls : (tree : Bytes) → fine.pulled ≡ some tree → tree ≡ alpine
pulls tree h = cc

prepare_box-IsSound_example :
    All (IsSound (λ t i. t ≡ i)) (prepare_box fine alpine no_box true false).states
prepare_box-IsSound_example =
    prepare_box-IsSound (λ t i. t ≡ i) fine alpine alpine_trimmed no_box true false pulls

-- A run that was killed left state that does not decode, and a scope.
abbrev killed : Box.Remove.World
killed = record {
  locked = true;
  loaded = corrupt_state;
  is_stopped = none;
  container_destroyed = false;
  state_directory = there;
  systemd = true;
  manager = true;
  scope_exists = true;
  kill = kill_written;
  scope_destroyed = true;
  state_removed = true;
  box_directory = there;
  box_removed = true;
}

removed : (remove_box killed).actions ≡ kill_scope ∷ destroy_scope ∷ remove_state ∷ remove_tree ∷ []
unfolding remove_box
removed = refl

kept :
    remove_box (record killed { loaded = found_container; is_stopped = some false })
    ≡ record { actions = []; error = some still_runs }
unfolding remove_box
kept = refl

remove_box-IsSafe_example : AreSafe killed [] (remove_box killed).actions
remove_box-IsSafe_example = remove_box-IsSafe killed

remove_boxes-Holds_example :
    Locks.Holds none (remove_boxes ((codes "a", killed) ∷ (codes ".b", killed) ∷ [])).0
remove_boxes-Holds_example = remove_boxes-Holds ((codes "a", killed) ∷ (codes ".b", killed) ∷ [])

valid : is_box_name (codes "web-1.2") ≡ true
unfolding is_box_name
valid = refl
