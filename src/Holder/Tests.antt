-- ===== src/Holder/Tests.antt =====
-- netns.go: the helper for the two addresses of the proxies.
use curimata.Common.{◌≡◌, refl, true, false, [], ◌∷◌, some, err}
use curimata.Holder.{
  child_sock, ready_reader, ready_writer, helper, listener, mapped, tool_missing, no_tool, adopted,
  adoption_failed, World, start_netns_holder,
}
use curimata.Holder.Open.{act_all, left, start_netns_holder-left}

abbrev fine : World
fine = record {
  paired = true;
  piped = true;
  started = true;
  user_args = true;
  group_args = true;
  user_mapped = mapped;
  group_mapped = mapped;
  released = true;
  sockets = adopted ∷ adopted ∷ [];
}

two_listeners :
    act_all (start_netns_holder fine).actions []
    ≡ some (listener ∷ listener ∷ helper ∷ ready_writer ∷ [])
unfolding start_netns_holder act_all
two_listeners = refl

second_fails :
    act_all
      (start_netns_holder (record fine { sockets = adopted ∷ adoption_failed ∷ [] })).actions
      []
    ≡ some []
unfolding start_netns_holder act_all
second_fails = refl

tool_is_missing :
    (start_netns_holder (record fine { group_mapped = tool_missing })).result ≡ err no_tool
unfolding start_netns_holder
tool_is_missing = refl

-- A helper that does not start leaves three descriptors.
not_started_leaves :
    act_all (start_netns_holder (record fine { started = false })).actions []
    ≡ some (ready_writer ∷ ready_reader ∷ child_sock ∷ [])
unfolding start_netns_holder act_all
not_started_leaves = refl

start_netns_holder-left_example : act_all (start_netns_holder fine).actions [] ≡ some (left fine)
start_netns_holder-left_example = start_netns_holder-left fine
