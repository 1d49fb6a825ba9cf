-- ===== src/Ring/Spsc/Steps.antt =====
-- Every step of either thread keeps the invariant.
use io_uring_net_engine.Prelude.{ℕ, arith}
use io_uring_net_engine.Ring.{IsCapacity}
use io_uring_net_engine.Ring.Spsc.{
  System, Step, refuse, begin_enqueue, write_byte, publish_enqueue, begin_dequeue, read_byte,
  publish_dequeue,
}
use io_uring_net_engine.Ring.Spsc.Invariant.{Inv}
use io_uring_net_engine.Ring.Spsc.Produce.{begin-Writes, write_byte-Inv, publish_enqueue-Inv}
use io_uring_net_engine.Ring.Spsc.Consume.{begin_dequeue-Inv, read_byte-Inv, publish_dequeue-Inv}

module _ {cap : ℕ} (v : IsCapacity cap) where
  -- Every step of either thread keeps the invariant.
  pub Step-Inv : {s t : System} → Step cap s t → Inv cap s → Inv cap t
  Step-Inv (refuse src seen e le full) inv = inv
  Step-Inv (begin_enqueue src seen e le fit room) inv = record {
    valid = inv.valid;
    enqueued = inv.enqueued;
    dequeued = inv.dequeued;
    held = inv.held;
    in_order = inv.in_order;
    writes = begin-Writes v src seen inv le fit room;
    reads = inv.reads;
  }
  Step-Inv (write_byte src i e lt) inv = write_byte-Inv v src i inv (rw e at inv.writes) lt
  Step-Inv (publish_enqueue src e) inv = publish_enqueue-Inv v src inv (rw e at inv.writes)
  Step-Inv (begin_dequeue n seen e lo hi) inv = begin_dequeue-Inv v _ inv (omega (arith, inv.valid))
  Step-Inv (read_byte n out e lt) inv = read_byte-Inv v n out inv (rw e at inv.reads) lt
  Step-Inv (publish_dequeue n out e l) inv =
      rw (← l) (publish_dequeue-Inv v out inv (rw (e, ← l) at inv.reads))
