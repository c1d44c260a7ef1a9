-- ===== src/Locks.antt =====
-- boxlock.go: `lockBox`, as the calls that it makes and what it returns, from the answers of the system. What `Flock`
-- keeps away from other processes is a matter of the kernel.
pub mod Held
mod Tests
use curimata.Common.{
  ℕ, zero, suc, Bool, true, false, List, [], ◌∷◌, ◌++◌, Option, none, some, Bytes, codes, Result,
  ok, err,
}
use curimata.Files.{FilePath}

pub data LockError : Type 0 where
  no_state no_directory not_opened in_use lock_failed : LockError

-- Flags of `os.OpenFile` and `Flock`.
pub data OpenFlag : Type 0 where
  o_rdwr o_create o_excl o_trunc : OpenFlag

pub data LockFlag : Type 0 where
  lock_sh lock_ex lock_nb lock_un : LockFlag

-- How `Flock` ends: with EINTR, or with the lock, EWOULDBLOCK or another error.
pub data Ended : Type 0 where
  granted would_block failed : Ended

pub data Flock : Type 0 where
  interrupted : Flock
  ended : Ended → Flock

-- The calls with their answers. An opened file is known by its path.
pub data Action : Type 0 where
  make_directory : FilePath → ℕ → Action
  open_file : FilePath → List OpenFlag → ℕ → Bool → Action
  flock : List LockFlag → Flock → Action
  close_file : Action

-- The answers: `state` is the state directory, and `interrupts` is how often `Flock` is interrupted before it ends.
pub record World : Type 0 where
  pub state : Option FilePath
  pub made : Bool
  pub opened : Bool
  pub interrupts : ℕ
  pub ends : Ended

pub record Run : Type 0 where
  pub actions : List Action
  pub result : Result LockError FilePath

-- The loop, which calls again as long as the call is interrupted.
unfoldable pub flock_loop : ℕ → Ended → List Action
flock_loop zero e = flock (lock_ex ∷ lock_nb ∷ []) (ended e) ∷ []
flock_loop (suc n) e = flock (lock_ex ∷ lock_nb ∷ []) interrupted ∷ flock_loop n e

unfoldable pub after_flock : Ended → FilePath → Run
after_flock granted path = record { actions = []; result = ok path }
after_flock would_block path = record { actions = close_file ∷ []; result = err in_use }
after_flock failed path = record { actions = close_file ∷ []; result = err lock_failed }

abbrev pub lock_flags : List OpenFlag
lock_flags = o_rdwr ∷ o_create ∷ []

unfoldable pub lock_file : Bool → World → FilePath → Run
unfolding flock_loop after_flock
lock_file false w path = record {
  actions = open_file path lock_flags 384 false ∷ [];
  result = err not_opened;
}
lock_file true w path =
    let last = after_flock w.ends path in
    record {
      actions =
          open_file path lock_flags 384 true ∷ (flock_loop w.interrupts w.ends ++ last.actions);
      result = last.result;
    }

unfoldable pub lock_in : Bool → World → FilePath → Bytes → Run
unfolding lock_file
lock_in false w dir name = record {
  actions = make_directory dir 448 ∷ [];
  result = err no_directory;
}
lock_in true w dir name =
    let rest = lock_file w.opened w (name ∷ dir) in
    record { actions = make_directory dir 448 ∷ rest.actions; result = rest.result }

unfoldable pub lock_under : Option FilePath → World → Bytes → Run
unfolding lock_in
lock_under none w name = record { actions = []; result = err no_state }
lock_under (some dir) w name = lock_in w.made w (codes ".locks" ∷ dir) name

-- `lockBox` of a valid name.
unfoldable pub lock_box : World → Bytes → Run
unfolding lock_under
lock_box w name = lock_under w.state w name
