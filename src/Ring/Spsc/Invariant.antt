-- ===== src/Ring/Spsc/Invariant.antt =====
-- What every interleaving of the two threads keeps.
use io_uring_net_engine.Prelude.{ℕ, ◌+◌, ◌≤◌, ◌<◌, ◌≡◌, refl, arith, List, length, get_or}
use io_uring_net_engine.Prelude.Word.{i64_limit}
use io_uring_net_engine.Ring.{IsValid, offset}
use io_uring_net_engine.Ring.Spsc.{Producer, Consumer, writing, reading, System, init}

-- The bytes written so far stand behind the published ones, and the whole run has room.
abbrev pub Writes : (cap : ℕ) (buffer : List ℕ) (e d : ℕ) → Producer → Type 0
Writes cap buffer e d Producer.idle = Unit {0}
Writes cap buffer e d (writing src i) =
    (i ≤ length src)
    × (e + length src ≤ d + cap)
    × (e + length src < i64_limit)
    × ((j : ℕ) → j < i → get_or buffer (offset cap (e + j)) 0 ≡ get_or src j 0)

-- The bytes copied out are the next ones sent, and the call takes no more than are published.
abbrev pub Reads : (e d : ℕ) (sent : List ℕ) → Consumer → Type 0
Reads e d sent Consumer.idle = Unit {0}
Reads e d sent (reading n out) =
    (d + n ≤ e)
    × (length out ≤ n)
    × ((j : ℕ) → j < length out → get_or out j 0 ≡ get_or sent (d + j) 0)

pub record Inv (cap : ℕ) (s : System) : Type 0 where
  pub valid : IsValid cap s.ring
  pub enqueued : length s.sent ≡ s.enqueue_cursor
  pub dequeued : length s.received ≡ s.dequeue_cursor
  pub held :
      (p : ℕ)
      → s.dequeue_cursor ≤ p
      → p < s.enqueue_cursor
      → get_or s.buffer (offset cap p) 0 ≡ get_or s.sent p 0
  pub in_order : (p : ℕ) → p < s.dequeue_cursor → get_or s.received p 0 ≡ get_or s.sent p 0
  pub writes : Writes cap s.buffer s.enqueue_cursor s.dequeue_cursor s.producer
  pub reads : Reads s.enqueue_cursor s.dequeue_cursor s.sent s.consumer

pub init-Inv : {cap : ℕ} (buffer : List ℕ) → length buffer ≡ cap → Inv cap (init buffer)
unfolding init
init-Inv buffer h = record {
  valid = omega arith;
  enqueued = refl;
  dequeued = refl;
  held = λ p lo hi. absurd (omega arith);
  in_order = λ p h. absurd (omega arith);
  writes = tt;
  reads = tt;
}
