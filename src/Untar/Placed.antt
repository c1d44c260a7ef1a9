-- ===== src/Untar/Placed.antt =====
-- image.go: an entry that is unpacked without an error stands at its target.
use curimata.Common.{ℕ, ◌≡◌, true, false, some}
use curimata.Files.{
  Mode, without, permissions, node, FilePath, below, Node, file, symlink, fifo, Files, is_directory,
}
use curimata.Untar.{
  SecureJoin, TypeFlag, type_dir, type_reg, type_symlink, type_link, type_fifo, type_char,
  type_block, type_other, Entry, perm, join_inside,
}

-- With every umask the permissions are those of the entry without the bits of the umask.
abbrev pub IsMasked : ℕ → Mode → Type 0
IsMasked mode m = (u : ℕ) → permissions u m ≡ without 9 (perm mode) u

-- What an entry leaves at its target `t`; `made` are the files once the directories above the target are there, in
-- which the text of a hard link is joined to `dir`.
unfoldable pub IsPlaced :
    SecureJoin → TypeFlag → FilePath → Entry → Files → FilePath → Files → Type 0
unfolding node below join_inside
IsPlaced secure_join type_dir dir e made t after = is_directory (node after t) ≡ true
IsPlaced secure_join type_reg dir e made t after =
    (m : Mode) × (node after t ≡ some (file m e.body)) × IsMasked e.mode m
IsPlaced secure_join type_symlink dir e made t after = node after t ≡ some (symlink e.link_name)
IsPlaced secure_join type_link dir e made t after =
    (s : FilePath) × (x : Node) × (join_inside secure_join made dir e.link_name ≡ some s)
    × (below dir s ≡ true)
    × (is_directory (some x) ≡ false)
    × (node made s ≡ some x)
    × (node after s ≡ some x)
    × (node after t ≡ some x)
IsPlaced secure_join type_fifo dir e made t after =
    (m : Mode) × (node after t ≡ some (fifo m)) × IsMasked e.mode m
IsPlaced secure_join type_char dir e made t after = Unit
IsPlaced secure_join type_block dir e made t after = Unit
IsPlaced secure_join type_other dir e made t after = Unit
