-- ===== src/Ring/Spsc.antt =====
-- ring_buffer.h under ring_sync::spsc: one thread enqueues while another dequeues, as interleaved
-- steps. A thread reads its own cursor exactly (it is the only writer) and may read an old value of
-- the other's. The copies go byte by byte, each at its own masked offset, in place of the two runs of
-- write_at and of dequeue; so a step of the other thread may fall inside one, and each call publishes
-- its cursor once, at its end. The bytes themselves are read as last written:
-- release and acquire on the cursors order each byte's write before its read.
--
-- `sent` and `received` record what enqueue has published and what dequeue has returned.
pub mod Invariant
pub mod Produce
pub mod Consume
pub mod Steps
pub mod Order
use io_uring_net_engine.Prelude.{
  ℕ, suc, ◌+◌, ◌≤◌, ◌<◌, ◌≡◌, List, [], ◌∷◌, ◌++◌, length, get_or, set, replicate, ltb, min, true,
  false,
}
use io_uring_net_engine.Prelude.Word.{add_usize, sub_usize, i64_limit}
use io_uring_net_engine.Ring.{Ring, offset}

-- A call of enqueue, with the number of bytes of `src` that are written.
pub data Producer : Type 0 where
  idle : Producer
  writing : (src : List ℕ) (written : ℕ) → Producer

-- A call of dequeue that takes `n` bytes, with those copied out.
pub data Consumer : Type 0 where
  idle : Consumer
  reading : (n : ℕ) (out : List ℕ) → Consumer

pub record System : Type 0 where
  pub ring : Ring
  pub open ring use {buffer, enqueue_cursor, dequeue_cursor}
  pub producer : Producer
  pub consumer : Consumer
  pub sent : List ℕ
  pub received : List ℕ

pub data Step (cap : ℕ) (s : System) : System → Type 0 where
  -- The free size is computed from the consumer's cursor as last seen, and the run is refused.
  refuse :
      (src : List ℕ) (seen : ℕ)
      → s.producer ≡ Producer.idle
      → seen ≤ s.dequeue_cursor
      → ltb cap (add_usize (sub_usize s.enqueue_cursor seen) (length src)) ≡ true
      → Step cap s s
  begin_enqueue :
      (src : List ℕ) (seen : ℕ)
      → s.producer ≡ Producer.idle
      → seen ≤ s.dequeue_cursor
      → s.enqueue_cursor + length src < i64_limit
      → ltb cap (add_usize (sub_usize s.enqueue_cursor seen) (length src)) ≡ false
      → Step cap s (record s { producer = writing src 0 })
  write_byte :
      (src : List ℕ) (i : ℕ)
      → s.producer ≡ writing src i
      → i < length src
      → Step cap s (record s {
        ring = record (s.ring) {
          buffer = set s.buffer (offset cap (s.enqueue_cursor + i)) (get_or src i 0);
        };
        producer = writing src (suc i);
      })
  publish_enqueue :
      (src : List ℕ)
      → s.producer ≡ writing src (length src)
      → Step cap s (record s {
        ring = record (s.ring) { enqueue_cursor = s.enqueue_cursor + length src };
        producer = Producer.idle;
        sent = s.sent ++ src;
      })
  begin_dequeue :
      (n seen : ℕ)
      → s.consumer ≡ Consumer.idle
      → s.dequeue_cursor ≤ seen
      → seen ≤ s.enqueue_cursor
      → Step cap s (record s { consumer = reading (min n (sub_usize seen s.dequeue_cursor)) [] })
  read_byte :
      (n : ℕ) (out : List ℕ)
      → s.consumer ≡ reading n out
      → length out < n
      → Step cap s (record s {
        consumer =
            reading n (out ++ get_or s.buffer (offset cap (s.dequeue_cursor + length out)) 0 ∷ []);
      })
  publish_dequeue :
      (n : ℕ) (out : List ℕ)
      → s.consumer ≡ reading n out
      → length out ≡ n
      → Step cap s (record s {
        ring = record (s.ring) { dequeue_cursor = s.dequeue_cursor + n };
        consumer = Consumer.idle;
        received = s.received ++ out;
      })

-- A ring as constructed: the cursors are 0, the storage holds anything.
unfoldable pub init : List ℕ → System
init buffer = record {
  ring = record { buffer = buffer; enqueue_cursor = 0; dequeue_cursor = 0 };
  producer = Producer.idle;
  consumer = Consumer.idle;
  sent = [];
  received = [];
}

pub data Reach (cap : ℕ) (s : System) : System → Type 0 where
  here : Reach cap s s
  next : {t u : System} → Reach cap s t → Step cap t u → Reach cap s u
