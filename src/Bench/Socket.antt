-- ===== src/Bench/Socket.antt =====
-- client-bench/src/netutil.cpp: flush_pending, read_available, send_frame and the receive slab. A connection's slot of the slab is the list of the bytes in it. The kernel's side of a
-- socket has scripts for send and recv; a script that has run out stands for EAGAIN, and an entry
-- `arrived` has the bytes that wait, of which one recv takes what it asks for.
pub mod Keeps
pub mod Reading
pub mod Slab
pub mod Stream
mod Tests
use io_uring_net_engine.Prelude.{
  ℕ, zero, suc, ◌+◌, ◌-◌, ◌*◌, Bool, true, false, Option, none, some, List, [], ◌∷◌, ◌++◌, length,
  take, drop, ltb, ◌==◌, if◌then◌else◌,
}
use io_uring_net_engine.Epoll.State.{Bytes, is_empty, Sent, accepted, Received, arrived, shut}
use io_uring_net_engine.Bench.Conn.{Conn, rx_cap}

-- `wire` is what the kernel has taken.
pub record Kernel : Type 0 where
  pub sends : List Sent
  pub recvs : List Received
  pub wire : Bytes

-- The place of a slot in the slab, for an fd that is not negative.
unfoldable pub rx_slab_ptr : ℕ → ℕ → Option ℕ
rx_slab_ptr slots fd = if ltb fd slots then some (fd * rx_cap) else none

-- flush_pending's loop on the results of send. A result of 0 is not an error that says EAGAIN.
unfoldable pub flush_loop : List Sent → Conn → Kernel → Bool × (Conn × Kernel)
flush_loop [] c k = (true, (c, record k { sends = [] }))
flush_loop (r ∷ rs) c k =
    if is_empty c.pending then (true, (c, record k { sends = r ∷ rs })) else (elim r [
      | accepted zero ↦ (false, (c, record k { sends = rs }))
      | accepted (suc n) ↦
          flush_loop rs (record c { pending = drop (suc n) c.pending })
            (record k { wire = k.wire ++ take (suc n) c.pending })
      | Sent.interrupted ↦ flush_loop rs c k
      | Sent.failed ↦ (false, (c, record k { sends = rs }))
    ])

unfoldable pub flush_pending : Conn → Kernel → Bool × (Conn × Kernel)
flush_pending c k = flush_loop k.sends c k

-- send_frame's loop, on what is left of the frame.
unfoldable pub send_loop : List Sent → Bytes → Conn → Kernel → Bool × (Conn × Kernel)
send_loop [] frame c k =
    (true, ((if is_empty frame then c else record c { pending = frame }), record k { sends = [] }))
send_loop (r ∷ rs) frame c k =
    if is_empty frame then (true, (c, record k { sends = r ∷ rs })) else (elim r [
      | accepted zero ↦ (false, (c, record k { sends = rs }))
      | accepted (suc n) ↦
          send_loop rs (drop (suc n) frame) c (record k { wire = k.wire ++ take (suc n) frame })
      | Sent.interrupted ↦ send_loop rs frame c k
      | Sent.failed ↦ (false, (c, record k { sends = rs }))
    ])

unfoldable pub send_frame : Conn → Bytes → Kernel → Bool × (Conn × Kernel)
send_frame c frame k =
    if is_empty c.pending
    then send_loop k.sends frame c k
    else flush_pending (record c { pending = c.pending ++ frame }) k

-- What a recv has left waits for the next one.
abbrev pub put_back : Bytes → List Received → List Received
put_back [] rs = rs
put_back (b ∷ bs) rs = arrived (b ∷ bs) ∷ rs

abbrev pub left_behind : Bytes → Bool × (Conn × (ℕ × Kernel)) → Bool × (Conn × (ℕ × Kernel))
left_behind bs (ok, (c, (bytes_in, k))) =
    (ok, (c, (bytes_in, record k { recvs = put_back bs k.recvs })))

-- read_available's loop on the results of recv; the next number is bytes_in.
unfoldable pub read_loop : List Received → Conn → ℕ → Kernel → Bool × (Conn × (ℕ × Kernel))
read_loop [] c bytes_in k =
    if rx_cap - length c.rx == 0
    then (false, (c, (bytes_in, record k { recvs = [] })))
    else (true, (c, (bytes_in, record k { recvs = [] })))
read_loop (r ∷ rs) c bytes_in k =
    let room = rx_cap - length c.rx in
    if room == 0 then (false, (c, (bytes_in, record k { recvs = r ∷ rs }))) else (elim r [
      | arrived bs ↦
          (let got = take room bs in
            let c' = record c { rx = c.rx ++ got } in
            let rest = read_loop rs c' (bytes_in + length got) k in
            if is_empty got
            then (false, (c, (bytes_in, record k { recvs = rs })))
            else if ltb (length got) room
            then (true, (c', (bytes_in + length got, record k { recvs = rs })))
            else left_behind (drop room bs) rest)
      | shut ↦ (false, (c, (bytes_in, record k { recvs = rs })))
      | Received.interrupted ↦ read_loop rs c bytes_in k
      | Received.failed ↦ (false, (c, (bytes_in, record k { recvs = rs })))
    ])

unfoldable pub read_available : Conn → ℕ → Kernel → Bool × (Conn × (ℕ × Kernel))
read_available c bytes_in k = read_loop k.recvs c bytes_in k
