-- ===== src/Mutex/Tests.antt =====
-- unique_lock: runs of the code, and the theorem at an input.
use io_uring_net_engine.Prelude.{ℕ, ◌≡◌, refl, Bool, true, false, List, [], ◌∷◌}
use io_uring_net_engine.Mutex.{
  Outcome, done, blocked, trap, mutex_lock, mutex_unlock, lock, try_lock, construct, destroy,
  move_construct, move_assign, Call, constructs, destroys, moves_to, tries, call, run, at_first,
}
use io_uring_net_engine.Mutex.Ownership.{Sound}
use io_uring_net_engine.Mutex.Calls.{run-Sound}

-- Two unique_locks of the mutex 7, the second of which has to wait; the first is moved away.
abbrev history : List Call
history =
    constructs 1 7
    ∷ constructs 2 7
    ∷ moves_to 3 1
    ∷ tries 2
    ∷ destroys 1
    ∷ destroys 3
    ∷ constructs 2 7
    ∷ []

abbrev locked_at : ℕ → Outcome → Bool
locked_at m (done w) = w.locked m
locked_at m blocked = false
locked_at m trap = false

taken_again : locked_at 7 (run history at_first) ≡ true
unfolding run call construct destroy move_assign move_construct lock try_lock mutex_lock
    mutex_unlock
taken_again = refl

run-Sound_example : Sound (run history at_first)
run-Sound_example = run-Sound history
