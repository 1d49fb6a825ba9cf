-- ===== src/Mutex/Calls.antt =====
-- engine-uring/src/sync/mutex.h: every call on a unique_lock.
use io_uring_net_engine.Prelude.{
  ℕ, ◌≡◌, refl, ◌∙◌, ap, subst, arith, false, none, some, List, [], ◌∷◌, ◌==◌, Bool-cases,
  Option-cases, inl, inr,
}
use io_uring_net_engine.Prelude.At.{at, at_else, at_twice}
use io_uring_net_engine.Mutex.{
  Lock, World, Outcome, done, blocked, trap, then_do, mutex_lock, mutex_unlock, detached, set_lock,
  holding, waiting, lock, unlock, try_lock, construct, destroy, move_construct, move_assign,
  release, Call, constructs, destroys, moves_to_new, moves_to, locks_it, unlocks_it, tries,
  releases, call, run, at_first,
}
use io_uring_net_engine.Mutex.Ownership.{Owned, emptied, taken, dropped, moved, Sound}

module _ (w : World) (o : Owned w) (i : ℕ) where
  lock-Sound : Sound (lock i w)
  unfolding lock mutex_lock
  lock-Sound = elim (Option-cases (waiting (w.locks i))) [
    | inl e ↦ rw (e, lock) o
    | inr (m, e) ↦ elim (Bool-cases (w.locked m)) [
      | inl f ↦ rw (e, f, lock, mutex_lock) tt
      | inr f ↦ rw (e, f, lock, mutex_lock) (taken w o i m f)
    ]
  ]

  -- An unlock that its test lets through, and then another unique_lock in its place.
  give_back :
      (l : Lock) (m : ℕ)
      → holding (w.locks i) ≡ some m
      → holding l ≡ none
      → Sound (then_do (mutex_unlock m w) (set_lock i l))
  unfolding mutex_unlock
  give_back l m mine e = rw (o.held i m mine, mutex_unlock) (dropped w o i l m mine e)

  unlock-Sound : Sound (unlock i w)
  unfolding unlock
  unlock-Sound = elim (Option-cases (holding (w.locks i))) [
    | inl e ↦ rw (e, unlock) o
    | inr (m, e) ↦ rw (e, unlock) (give_back (record { mtx = some m; owns = false }) m e refl)
  ]

  destroy-Sound : Sound (destroy i w)
  unfolding destroy
  destroy-Sound = elim (Option-cases (holding (w.locks i))) [
    | inl e ↦ rw (e, destroy) (emptied w o i detached refl)
    | inr (m, e) ↦ rw (e, destroy) (give_back detached m e refl)
  ]

  try_lock-Owned : Owned (try_lock i w).1
  unfolding try_lock
  try_lock-Owned = elim (Option-cases (waiting (w.locks i))) [
    | inl e ↦ rw (e, try_lock) o
    | inr (m, e) ↦ elim (Bool-cases (w.locked m)) [
      | inl f ↦ rw (e, f, try_lock) o
      | inr f ↦ rw (e, f, try_lock) (taken w o i m f)
    ]
  ]

  release-Owned : Owned (release i w).1
  unfolding release
  release-Owned = emptied w o i detached refl

  -- A mutex that is given back before another unique_lock's comes.
  handed :
      (j m : ℕ)
      → (i == j) ≡ false
      → holding (w.locks i) ≡ some m
      → Owned (move_construct i j (record w { locked = at w.locked m false }))
  unfolding move_construct
  handed j m e f =
      subst (λ k. Owned (record w { locked = at w.locked m false; locks = k })) same
        (moved (record w { locked = at w.locked m false; locks = at w.locks i detached })
          (dropped w o i detached m f refl) i j)
    where
      apart : (j == i) ≡ false
      apart = ground (arith, e)

      same :
          at (at (at w.locks i detached) i (at w.locks i detached j)) j detached
          ≡ at (at w.locks i (w.locks j)) j detached
      same =
          ap (λ l. at (at (at w.locks i detached) i l) j detached)
            (at_else w.locks i detached j apart)
          ∙ ap (λ k. at k j detached) (at_twice w.locks i detached (w.locks j))

  move_assign-Sound : (j : ℕ) → Sound (move_assign i j w)
  unfolding move_assign mutex_unlock
  move_assign-Sound j = elim (Bool-cases (i == j)) [
    | inl e ↦ rw (e, move_assign) o
    | inr e ↦ elim (Option-cases (holding (w.locks i))) [
      | inl f ↦ rw (e, f, move_assign) (moved w o i j)
      | inr (m, f) ↦ rw (e, f, o.held i m f, move_assign, mutex_unlock) (handed j m e f)
    ]
  ]

construct-Sound : (w : World) (i m : ℕ) → Owned w → Sound (construct i m w)
unfolding construct
construct-Sound w i m o =
    lock-Sound (set_lock i (record { mtx = some m; owns = false }) w)
      (emptied w o i (record { mtx = some m; owns = false }) refl) i

call-Sound : (c : Call) (w : World) → Owned w → Sound (call c w)
unfolding call
call-Sound (constructs i m) w o = construct-Sound w i m o
call-Sound (destroys i) w o = destroy-Sound w o i
call-Sound (moves_to_new i j) w o = moved w o i j
call-Sound (moves_to i j) w o = move_assign-Sound w o i j
call-Sound (locks_it i) w o = lock-Sound w o i
call-Sound (unlocks_it i) w o = unlock-Sound w o i
call-Sound (tries i) w o = try_lock-Owned w o i
call-Sound (releases i) w o = release-Owned w o i

run_from : (cs : List Call) (w : World) → Owned w → Sound (run cs w)
unfolding run
run_from [] w o = o
run_from (c ∷ cs) w o = go (λ w' s. run_from cs w' s) (call c w) (call-Sound c w o)
  where
    go :
        ((w' : World) → Owned w' → Sound (run cs w'))
        → (r : Outcome) → Sound r
        → Sound (elim r [ done w' ↦ run cs w' | blocked ↦ run cs w | trap ↦ trap ])
    go later (done w') s = later w' s
    go later blocked s = later w o
    go later trap s = s

-- In any history of calls on unique_locks, whatever threads make them, no LNX_CHECK fails: every
-- unlock is of a mutex that is locked. At the end each mutex that a unique_lock owns is locked, and no
-- two unique_locks own the same one, moves and releases included.
pub run-Sound : (cs : List Call) → Sound (run cs at_first)
run-Sound cs = run_from cs at_first record {
  held = λ i m h. absurd (ground (arith, h));
  sole = λ i j m h k. absurd (ground (arith, h));
}
