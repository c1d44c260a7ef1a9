-- ===== src/Locks/Tests.antt =====
-- boxlock.go: a lock that is free, one that is held and a directory that cannot be made.
use curimata.Common.{◌≡◌, refl, true, false, [], ◌∷◌, some, codes, ok, err}
use curimata.Locks.{
  lock_ex, lock_nb, granted, would_block, interrupted, ended, make_directory, open_file, flock,
  close_file, in_use, no_directory, World, lock_flags, lock_box,
}
use curimata.Locks.Held.{IsHeld, lock_box-IsHeld}

-- The call is interrupted once.
abbrev world : World
world = record {
  state = some (codes "s" ∷ []);
  made = true;
  opened = true;
  interrupts = 1;
  ends = would_block;
}

second_refused : lock_box world (codes "a") ≡ record {
  actions =
      make_directory (codes ".locks" ∷ codes "s" ∷ []) 448
      ∷ open_file (codes "a" ∷ codes ".locks" ∷ codes "s" ∷ []) lock_flags 384 true
      ∷ flock (lock_ex ∷ lock_nb ∷ []) interrupted
      ∷ flock (lock_ex ∷ lock_nb ∷ []) (ended would_block)
      ∷ close_file
      ∷ [];
  result = err in_use;
}
unfolding lock_box
second_refused = refl

lock_free :
    (lock_box (record world { ends = granted }) (codes "a")).result
    ≡ ok (codes "a" ∷ codes ".locks" ∷ codes "s" ∷ [])
unfolding lock_box
lock_free = refl

not_made : (lock_box (record world { made = false }) (codes "a")).result ≡ err no_directory
unfolding lock_box
not_made = refl

lock_box-IsHeld_example :
    IsHeld (codes "a" ∷ codes ".locks" ∷ codes "s" ∷ []) (lock_box world (codes "a"))
lock_box-IsHeld_example = lock_box-IsHeld world (codes "s" ∷ []) (codes "a") refl
