-- ===== src/Mesh/Tests.antt =====
-- The mesh at concrete messages: runs of the code, and each theorem at an input that meets its
-- hypotheses.
use io_uring_net_engine.Prelude.{
  ℕ, ◌≡◌, refl, arith, true, false, none, some, List, [], ◌∷◌, length, replicate, length-replicate,
}
use io_uring_net_engine.Prelude.Checked.{ok, trap}
use io_uring_net_engine.Prelude.Memory.{copy}
use io_uring_net_engine.Message.{
  AdoptSessionMsg, SessionClosedMsg, session_closed, bytes_of_closed, bytes_of_header,
  header_of_bytes,
}
use io_uring_net_engine.Ring.{
  Ring, IsCapacity, enqueue2, write_at, offset, used_size, peek, dequeue, read_at,
}
use io_uring_net_engine.Ring.Contents.{bytes_from}
use io_uring_net_engine.Mesh.{post, post_msg, try_recv, worker_to_acceptor_cap}
use io_uring_net_engine.Mesh.Queue.{Message, push, pop}
use io_uring_net_engine.Mesh.Frames.{Holds, header}
use io_uring_net_engine.Mesh.Recv.{try_recv_oversize}
use io_uring_net_engine.Mesh.History.{
  Call, posts, receives, posted, received, run, run_queue, run_refines,
}
use io_uring_net_engine.Mesh.CloseNotify.{notice, close_notify_never_drops, none_left}

abbrev sixteen : IsCapacity 16
sixteen = record { at_least = omega arith; power = (4, refl); fits = omega arith }

-- An empty pipe whose cursors stand at 14 of 16 bytes.
abbrev empty_pipe : Ring
empty_pipe = record { buffer = replicate 16 0; enqueue_cursor = 14; dequeue_cursor = 14 }

abbrev hello : Message
hello = record { type = 3; body = 7 ∷ 8 ∷ 9 ∷ [] }

abbrev one_frame : Ring
one_frame = record {
  buffer = 3 ∷ 0 ∷ 7 ∷ 8 ∷ 9 ∷ 0 ∷ 0 ∷ 0 ∷ 0 ∷ 0 ∷ 0 ∷ 0 ∷ 0 ∷ 0 ∷ 3 ∷ 0 ∷ [];
  enqueue_cursor = 21;
  dequeue_cursor = 14;
}

empty-Holds : Holds 16 empty_pipe []
unfolding bytes_from
empty-Holds = record { valid = omega arith; bytes = refl; sized = tt }

one-Holds : Holds 16 one_frame (hello ∷ [])
unfolding bytes_from bytes_of_header
one-Holds = record { valid = omega arith; bytes = refl; sized = (omega arith, tt) }

post_wraps : post 16 empty_pipe 3 (7 ∷ 8 ∷ 9 ∷ []) ≡ (true, one_frame)
unfolding post enqueue2 write_at offset copy bytes_of_header
post_wraps = refl

recv_hello :
    try_recv 16 one_frame 1024
    ≡ ok (some (header hello, 7 ∷ 8 ∷ 9 ∷ []), record one_frame { dequeue_cursor = 21 })
unfolding try_recv used_size peek dequeue read_at offset header_of_bytes
recv_hello = refl

try_recv_oversize_example : try_recv 16 one_frame 2 ≡ trap
try_recv_oversize_example = try_recv_oversize sixteen 2 one-Holds (omega arith)

abbrev traffic_jam : List Call
traffic_jam = posts hello ∷ posts hello ∷ posts hello ∷ receives ∷ receives ∷ receives ∷ []

run_refines_example : run 16 1024 empty_pipe traffic_jam ≡ run_queue 16 [] traffic_jam
run_refines_example =
    run_refines 1024 traffic_jam sixteen empty-Holds tt (omega arith) (omega arith)

-- The third post finds 14 of 16 bytes taken.
jam_replies :
    run_queue 16 [] traffic_jam
    ≡ posted true
      ∷ posted true
      ∷ posted false
      ∷ received (some (header hello, hello.body))
      ∷ received (some (header hello, hello.body))
      ∷ received none
      ∷ []
unfolding run_queue push pop
jam_replies = refl

abbrev handover : AdoptSessionMsg
handover = record { fd = 9; id = 300; generation = 2; account = 300; initial_room = 0 }

abbrev goodbye : SessionClosedMsg
goodbye = record { id = 300; generation = 2; worker = 0; reason = 1 }

storage : List ℕ
storage = replicate worker_to_acceptor_cap 0

abbrev close_pipe : Ring
close_pipe = record { buffer = storage; enqueue_cursor = 0; dequeue_cursor = 0 }

length-storage : length storage ≡ worker_to_acceptor_cap
unfolding storage
length-storage = length-replicate {A = ℕ} worker_to_acceptor_cap 0

close-Holds : Holds worker_to_acceptor_cap close_pipe []
unfolding bytes_from
close-Holds = record { valid = omega (arith, length-storage); bytes = refl; sized = tt }

close_notify_never_drops_example :
    let (sent, p') =
      post_msg worker_to_acceptor_cap close_pipe session_closed (bytes_of_closed 0 goodbye) in
    (sent ≡ true) × Holds worker_to_acceptor_cap p' (notice 0 goodbye ∷ [])
close_notify_never_drops_example =
    close_notify_never_drops 0 goodbye close-Holds none_left (omega arith) (omega arith)
