-- ===== src/Mutex.antt =====
-- engine-uring/src/sync/mutex.h: mutex, lock_guard and unique_lock. A mutex and a unique_lock are
-- numbered; the state has every mutex and the unique_locks of all threads. pthread_mutex_lock of a
-- locked mutex blocks, and unlock of one that is not locked fails.
pub mod Calls
pub mod Ownership
mod Tests
use io_uring_net_engine.Prelude.{
  ℕ, Bool, true, false, not, ◌&&◌, Option, none, some, List, [], ◌∷◌, ◌==◌, if◌then◌else◌,
}
use io_uring_net_engine.Prelude.At.{at}

-- unique_lock; a pointer that is null is `none`.
pub record Lock : Type 0 where
  pub mtx : Option ℕ
  pub owns : Bool

pub record World : Type 0 where
  pub locked : ℕ → Bool
  pub locks : ℕ → Lock

-- A call returns, waits for a mutex, or fails an LNX_CHECK.
pub data Outcome : Type 0 where
  done : World → Outcome
  blocked : Outcome
  trap : Outcome

abbrev pub then_do : Outcome → (World → World) → Outcome
then_do (done w) f = done (f w)
then_do blocked f = blocked
then_do trap f = trap

unfoldable pub mutex_lock : ℕ → World → Outcome
mutex_lock m w = if w.locked m then blocked else done (record w { locked = at w.locked m true })

unfoldable pub mutex_unlock : ℕ → World → Outcome
mutex_unlock m w = if w.locked m then done (record w { locked = at w.locked m false }) else trap

abbrev pub detached : Lock
detached = record { mtx = none; owns = false }

abbrev pub set_lock : ℕ → Lock → World → World
set_lock i l w = record w { locks = at w.locks i l }

-- The test `_owns && _mtx` that stands before an unlock.
abbrev pub holding : Lock → Option ℕ
holding l = if l.owns then l.mtx else none

-- The test `_mtx && !_owns` that stands before a lock.
abbrev pub waiting : Lock → Option ℕ
waiting l = if l.owns then none else l.mtx

-- lock
unfoldable pub lock : ℕ → World → Outcome
lock i w = elim (waiting (w.locks i)) [
  | some m ↦ then_do (mutex_lock m w) (set_lock i (record { mtx = some m; owns = true }))
  | none ↦ done w
]

-- unlock
unfoldable pub unlock : ℕ → World → Outcome
unlock i w = elim (holding (w.locks i)) [
  | some m ↦ then_do (mutex_unlock m w) (set_lock i (record { mtx = some m; owns = false }))
  | none ↦ done w
]

-- try_lock; it never waits.
unfoldable pub try_lock : ℕ → World → Bool × World
try_lock i w = elim (waiting (w.locks i)) [
  | some m ↦
      (if w.locked m then (false, w) else (
        true,
        set_lock i (record { mtx = some m; owns = true })
            (record w { locked = at w.locked m true }),
      ))
  | none ↦ (false, w)
]

-- unique_lock(m)
unfoldable pub construct : ℕ → ℕ → World → Outcome
construct i m w = lock i (set_lock i (record { mtx = some m; owns = false }) w)

-- The destructor.
unfoldable pub destroy : ℕ → World → Outcome
destroy i w = elim (holding (w.locks i)) [
  | some m ↦ then_do (mutex_unlock m w) (set_lock i detached)
  | none ↦ done (set_lock i detached w)
]

-- unique_lock(unique_lock&&)
unfoldable pub move_construct : ℕ → ℕ → World → World
move_construct i j w = set_lock j detached (set_lock i (w.locks j) w)

-- operator=(unique_lock&&)
unfoldable pub move_assign : ℕ → ℕ → World → Outcome
move_assign i j w = if i == j then done w else (elim (holding (w.locks i)) [
  | some m ↦ then_do (mutex_unlock m w) (move_construct i j)
  | none ↦ done (move_construct i j w)
])

unfoldable pub release : ℕ → World → Option ℕ × World
release i w = ((w.locks i).mtx, set_lock i detached w)

-- A call on the unique_locks; one that constructs is of a place without one.
pub data Call : Type 0 where
  constructs : ℕ → ℕ → Call
  destroys : ℕ → Call
  moves_to_new : ℕ → ℕ → Call
  moves_to : ℕ → ℕ → Call
  locks_it : ℕ → Call
  unlocks_it : ℕ → Call
  tries : ℕ → Call
  releases : ℕ → Call

unfoldable pub call : Call → World → Outcome
call (constructs i m) w = construct i m w
call (destroys i) w = destroy i w
call (moves_to_new i j) w = done (move_construct i j w)
call (moves_to i j) w = move_assign i j w
call (locks_it i) w = lock i w
call (unlocks_it i) w = unlock i w
call (tries i) w = done (try_lock i w).1
call (releases i) w = done (release i w).1

-- Calls of any threads, one after the other; one that waits is made again, if at all, later.
unfoldable pub run : List Call → World → Outcome
run [] w = done w
run (c ∷ cs) w = elim (call c w) [ done w' ↦ run cs w' | blocked ↦ run cs w | trap ↦ trap ]

-- Mutexes that no one has locked, and no unique_lock.
abbrev pub at_first : World
at_first = record { locked = λ _. false; locks = λ _. detached }
