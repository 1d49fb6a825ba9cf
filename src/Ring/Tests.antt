-- ===== src/Ring/Tests.antt =====
-- The ring at concrete bytes: runs of the code, and each theorem at an input that meets its
-- hypotheses.
use io_uring_net_engine.Prelude.{ℕ, ◌≡◌, refl, arith, List, [], ◌∷◌, ◌++◌, take}
use io_uring_net_engine.Prelude.Memory.{copy}
use io_uring_net_engine.Ring.{
  Ring, IsCapacity, IsValid, write_at, read_at, enqueue, dequeue, offset,
}
use io_uring_net_engine.Ring.Stream
use io_uring_net_engine.Ring.Contents.{contents}
use io_uring_net_engine.Ring.Refine.{enqueue_refines}
use io_uring_net_engine.Ring.Spsc.{
  writing, reading, System, begin_enqueue, write_byte, publish_enqueue, begin_dequeue, read_byte,
  init, Reach, here, next,
}
use io_uring_net_engine.Ring.Spsc.Order.{fifo, no_torn_reads}

abbrev four : IsCapacity 4
four = record { at_least = omega arith; power = (2, refl); fits = omega arith }

-- Two bytes held, 8 and 9, round the end of the storage.
abbrev wrapped : Ring
wrapped = record { buffer = 9 ∷ 5 ∷ 6 ∷ 8 ∷ []; enqueue_cursor = 5; dequeue_cursor = 3 }

wrapped-IsValid : IsValid 4 wrapped
wrapped-IsValid = omega arith

fills_up :
    enqueue 4 wrapped (1 ∷ 2 ∷ [])
    ≡ (2, record { buffer = 9 ∷ 1 ∷ 2 ∷ 8 ∷ []; enqueue_cursor = 7; dequeue_cursor = 3 })
unfolding enqueue write_at offset copy
fills_up = refl

refuses_whole : enqueue 4 wrapped (1 ∷ 2 ∷ 3 ∷ []) ≡ (0, wrapped)
unfolding enqueue
refuses_whole = refl

takes_round : dequeue 4 wrapped 9 ≡ (8 ∷ 9 ∷ [], record wrapped { dequeue_cursor = 5 })
unfolding dequeue read_at offset
takes_round = refl

enqueue_refines_example :
    let (n, r') = enqueue 4 wrapped (1 ∷ 2 ∷ []) in
    ((n, contents 4 r') ≡ Stream.push 4 (contents 4 wrapped) (1 ∷ 2 ∷ [])) × IsValid 4 r'
enqueue_refines_example = enqueue_refines four (1 ∷ 2 ∷ []) wrapped-IsValid (omega arith)

abbrev storage : List ℕ
storage = 0 ∷ 0 ∷ 0 ∷ 0 ∷ []

-- The producer publishes 7 and writes 5 behind it, while the consumer copies 7 out.
abbrev busy : System
busy = record {
  ring = record { buffer = 7 ∷ 5 ∷ 0 ∷ 0 ∷ []; enqueue_cursor = 1; dequeue_cursor = 0 };
  producer = writing (5 ∷ 6 ∷ []) 1;
  consumer = reading 1 (7 ∷ []);
  sent = 7 ∷ [];
  received = [];
}

busy-Reach : Reach 4 (init storage) busy
unfolding init offset
busy-Reach =
    next
      (next
        (next
          (next
            (next
              (next (next here (begin_enqueue (7 ∷ []) 0 refl (omega arith) (omega arith) refl))
                (write_byte (7 ∷ []) 0 refl (omega arith)))
              (publish_enqueue (7 ∷ []) refl))
            (begin_dequeue 3 1 refl (omega arith) (omega arith)))
          (begin_enqueue (5 ∷ 6 ∷ []) 0 refl (omega arith) (omega arith) refl))
        (write_byte (5 ∷ 6 ∷ []) 0 refl (omega arith)))
      (read_byte 1 [] refl (omega arith))

fifo_example : busy.sent ≡ busy.received ++ contents 4 busy.ring
fifo_example = fifo storage four refl busy-Reach

no_torn_reads_example : busy.received ++ 7 ∷ [] ≡ take 1 busy.sent
no_torn_reads_example = no_torn_reads storage 1 (7 ∷ []) four refl busy-Reach refl
