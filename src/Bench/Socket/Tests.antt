-- ===== src/Bench/Socket/Tests.antt =====
-- A socket's two directions: runs of the code, and each theorem at an input that meets its hypotheses.
use io_uring_net_engine.Prelude.{◌≤◌, ◌≡◌, refl, arith, some, [], ◌∷◌, length}
use io_uring_net_engine.Epoll.State.{Sent, accepted, arrived, shut}
use io_uring_net_engine.Bench.Conn.{Conn, empty_conn, rx_cap}
use io_uring_net_engine.Bench.Socket.{
  Kernel, rx_slab_ptr, flush_pending, flush_loop, send_frame, send_loop, read_available, read_loop,
}
use io_uring_net_engine.Bench.Socket.Stream.{outgoing, Accounted, send_frame-Accounted}
use io_uring_net_engine.Bench.Socket.Reading.{Read, read_available-Read}

abbrev busy : Conn
busy = record empty_conn { pending = 1 ∷ 2 ∷ 3 ∷ [] }

-- Two bytes are taken, then one, after a signal.
abbrev slow : Kernel
slow = record {
  sends = accepted 2 ∷ Sent.interrupted ∷ accepted 1 ∷ [];
  recvs = arrived (7 ∷ 8 ∷ []) ∷ shut ∷ [];
  wire = 9 ∷ [];
}

flushed : (flush_pending busy slow).1.1.wire ≡ 9 ∷ 1 ∷ 2 ∷ 3 ∷ []
unfolding flush_pending flush_loop
flushed = refl

-- The fourth byte waits.
queued : (send_frame busy (4 ∷ []) slow).1.0.pending ≡ 4 ∷ []
unfolding send_frame flush_pending flush_loop
queued = refl

direct : (send_frame empty_conn (4 ∷ 5 ∷ 6 ∷ 7 ∷ []) slow).1.0.pending ≡ 7 ∷ []
unfolding send_frame send_loop
direct = refl

received : (read_available empty_conn 0 slow).1.0.rx ≡ 7 ∷ 8 ∷ []
unfolding read_available read_loop rx_cap
received = refl

send_frame-Accounted_example :
    Accounted (outgoing busy slow) (4 ∷ []) (send_frame busy (4 ∷ []) slow)
send_frame-Accounted_example = send_frame-Accounted busy (4 ∷ []) slow

nothing_read : length empty_conn.rx ≤ rx_cap
unfolding rx_cap
nothing_read = omega arith

read_available-Read_example : Read empty_conn.rx 0 slow.recvs (read_available empty_conn 0 slow)
read_available-Read_example = read_available-Read empty_conn 0 slow nothing_read

slot_3 : rx_slab_ptr 8 3 ≡ some 196608
unfolding rx_slab_ptr rx_cap
slot_3 = refl

slot_5 : rx_slab_ptr 8 5 ≡ some 327680
unfolding rx_slab_ptr rx_cap
slot_5 = refl
