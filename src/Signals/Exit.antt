-- ===== src/Signals/Exit.antt =====
-- signals.go: what `exitCodeOf` and `catchSignals` promise.
use curimata.Common.{
  ℕ, ◌+◌, ◌*◌, ◌≤◌, ◌<◌, ◌≡◌, true, List, [], ◌∷◌, ◌++◌, append-nil, append_assoc, length,
  length-append, All, arith,
}
use curimata.Common.Int.{pos}
use curimata.Signals.{
  exit_code_of, caught, catch_signals, is_one_of, forwarded_signals, received_capacity,
}

-- A process that exits with a code below 256 gives that code, and one that is killed by a signal from 1 to
-- 126 gives 128 plus its number, whether it dumps core or not, which is below 256 too.
exit_code_of_ended :
    (code number core : ℕ)
    → code < 256
    → 1 ≤ number
    → number < 127
    → core ≤ 1
    → (exit_code_of (code * 256) ≡ pos code)
      × (exit_code_of (number + 128 * core) ≡ pos (128 + number))
      × (128 + number < 256)
unfolding exit_code_of
exit_code_of_ended code number core h l u c = (ground arith, ground arith, omega arith)

-- Signals of the caught kinds that arrive before anything receives from the channel are all kept, in order,
-- as long as the channel has room for them.
catch_signals_kept :
    (channel signals : List ℕ)
    → All (λ n. is_one_of n forwarded_signals ≡ true) signals
    → length channel + length signals ≤ received_capacity
    → catch_signals channel signals ≡ channel ++ signals
unfolding catch_signals
catch_signals_kept channel [] h room = rw append-nil
catch_signals_kept channel (n ∷ signals) (h, hs) room =
    let e : caught channel n ≡ channel ++ (n ∷ []) = unfold caught in ground arith in
    let l = length-append channel (n ∷ []) in
    rw (e, catch_signals_kept (channel ++ (n ∷ [])) signals hs (omega arith), append_assoc)
