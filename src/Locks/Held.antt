-- ===== src/Locks/Held.antt =====
-- boxlock.go: what `lockBox` holds when it returns.
use curimata.Common.{
  ℕ, zero, suc, ◌≡◌, refl, ◌∙◌, Bool, true, false, List, [], ◌∷◌, ◌++◌, Option, none, some, Bytes,
  codes, Result, ok, err,
}
use curimata.Files.{FilePath}
use curimata.Locks.{
  LockError, o_rdwr, o_create, lock_ex, lock_nb, Ended, granted, would_block, failed, interrupted,
  ended, Action, make_directory, open_file, flock, close_file, World, Run, flock_loop, after_flock,
  lock_file, lock_in, lock_under, lock_box,
}

-- The file of the process: not there, open, refused by the kernel, or open with the exclusive lock.
pub data Lock : Type 0 where
  shut : Lock
  opened refused locked : FilePath → Lock

abbrev pub end_flock : Ended → FilePath → Lock
end_flock granted p = locked p
end_flock would_block p = refused p
end_flock failed p = refused p

-- A file is opened without being emptied or having to be new, is asked for its lock exclusively and without
-- waiting, and again only behind an interrupt; only one that is refused is closed.
unfoldable pub step : Action → Lock → Option Lock
step (make_directory d mode) shut = some shut
step (open_file p (o_rdwr ∷ o_create ∷ []) mode false) shut = some shut
step (open_file p (o_rdwr ∷ o_create ∷ []) mode true) shut = some (opened p)
step (flock (lock_ex ∷ lock_nb ∷ []) interrupted) (opened p) = some (opened p)
step (flock (lock_ex ∷ lock_nb ∷ []) (ended e)) (opened p) = some (end_flock e p)
step close_file (refused p) = some shut
step _ _ = none

unfoldable pub steps : List Action → Lock → Option Lock
unfolding step
steps [] k = some k
steps (a ∷ actions) k = elim (step a k) [ none ↦ none | some next ↦ steps actions next ]

-- What the caller has: a lock, or nothing.
abbrev pub held : Result LockError FilePath → Lock
held (ok p) = locked p
held (err e) = shut

flock_loop-steps :
    (n : ℕ) (e : Ended) (p : FilePath) (rest : List Action)
    → steps (flock_loop n e ++ rest) (opened p) ≡ steps rest (end_flock e p)
unfolding steps flock_loop
flock_loop-steps zero e p rest = refl
flock_loop-steps (suc n) e p rest = flock_loop-steps n e p rest

after_flock-steps :
    (e : Ended) (p : FilePath)
    → steps (after_flock e p).actions (end_flock e p) ≡ some (held (after_flock e p).result)
unfolding steps after_flock
after_flock-steps granted p = refl
after_flock-steps would_block p = refl
after_flock-steps failed p = refl

after_flock-path : (e : Ended) (p q : FilePath) → (after_flock e p).result ≡ ok q → q ≡ p
unfolding after_flock
after_flock-path granted p q h = cc
after_flock-path would_block p q h = cc
after_flock-path failed p q h = cc

-- The calls go through and leave what the result says; a lock is the one of the path.
abbrev pub IsHeld : FilePath → Run → Type 0
IsHeld path r =
    (steps r.actions shut ≡ some (held r.result)) × ((q : FilePath) → r.result ≡ ok q → q ≡ path)

module _ (w : World) where
  lock_file-IsHeld : (opens : Bool) (path : FilePath) → IsHeld path (lock_file opens w path)
  unfolding lock_file steps
  lock_file-IsHeld false path = (refl, λ q h. cc)
  lock_file-IsHeld true path = (
    flock_loop-steps w.interrupts w.ends path (after_flock w.ends path).actions
        ∙ after_flock-steps w.ends path,
    after_flock-path w.ends path,
  )

  lock_in-IsHeld :
      (made : Bool) (dir : FilePath) (name : Bytes) → IsHeld (name ∷ dir) (lock_in made w dir name)
  unfolding lock_in steps
  lock_in-IsHeld false dir name = (refl, λ q h. cc)
  lock_in-IsHeld true dir name = lock_file-IsHeld w.opened (name ∷ dir)

  lock_under-IsHeld :
      (state : Option FilePath) (dir : FilePath) (name : Bytes)
      → state ≡ some dir
      → IsHeld (name ∷ codes ".locks" ∷ dir) (lock_under state w name)
  unfolding lock_under
  lock_under-IsHeld none dir name e = absurd (let bad = e in cc)
  lock_under-IsHeld (some d) dir name e =
      let same : dir ≡ d = cc in rw same (lock_in-IsHeld w.made (codes ".locks" ∷ d) name)

  -- However often `Flock` is interrupted and however the calls end, `lockBox` returns: with a lock it holds the file of
  -- the name in ".locks" of the state directory, opened without emptying it and locked exclusively without waiting;
  -- with an error it holds no file, since it closes the one that it did not get the lock of. It calls `Flock` again
  -- only behind an interrupt, and deletes no lock file.
  pub lock_box-IsHeld :
      (dir : FilePath) (name : Bytes)
      → w.state ≡ some dir
      → IsHeld (name ∷ codes ".locks" ∷ dir) (lock_box w name)
  unfolding lock_box
  lock_box-IsHeld dir name e = lock_under-IsHeld w.state dir name e
