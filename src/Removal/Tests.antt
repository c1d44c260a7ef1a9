-- ===== src/Removal/Tests.antt =====
-- removetree.go at a tree that the user may not remove.
use curimata.Common.{◌≡◌, refl, true, [], ◌∷◌, Bytes, codes, ok, err, All, bytes_eq}
use curimata.Holder
use curimata.Holder.{mapped, tool_missing, no_tool, write_id_maps}
use curimata.Agent.{command_of}
use curimata.Removal.{
  own_removal, removal, start, open_pipe, close_reader, close_writer, map_ids, release, kill, wait,
  no_permission, all_removed, not_mapped, World, remove_tree,
}
use curimata.Removal.Order.{idle, follow, IsOver, IsOf, IsGone, remove_tree-IsOrdered}

abbrev maps : Holder.World
maps = record {
  paired = true;
  piped = true;
  started = true;
  user_args = true;
  group_args = true;
  user_mapped = mapped;
  group_mapped = mapped;
  released = true;
  sockets = [];
}

abbrev world : World
world = record {
  own = no_permission;
  piped = true;
  started = true;
  maps = maps;
  released = true;
  executed = true;
  inside = all_removed;
}

abbrev path : Bytes
path = codes "/b"

by_helper : remove_tree world path ≡ record {
  actions =
      own_removal path
      ∷ open_pipe
      ∷ start (codes "/proc/self/exe" ∷ codes "remove-tree" ∷ path ∷ [])
      ∷ close_reader
      ∷ map_ids
      ∷ release
      ∷ removal path
      ∷ wait
      ∷ close_writer
      ∷ [];
  result = ok tt;
}
unfolding remove_tree command_of bytes_eq
by_helper = refl

no_maps :
    remove_tree (record world { maps = record maps { group_mapped = tool_missing } }) path
    ≡ record {
      actions =
          own_removal path
          ∷ open_pipe
          ∷ start (codes "/proc/self/exe" ∷ codes "remove-tree" ∷ path ∷ [])
          ∷ close_reader
          ∷ kill
          ∷ wait
          ∷ close_writer
          ∷ [];
      result = err (not_mapped no_tool);
    }
unfolding remove_tree command_of bytes_eq write_id_maps
no_maps = refl

remove_tree-IsOrdered_example :
    let r = remove_tree world path in
    IsOver (follow r.actions idle) × All (IsOf path) r.actions × IsGone world path r
remove_tree-IsOrdered_example = remove_tree-IsOrdered world path
