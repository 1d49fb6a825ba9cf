-- ===== src/Bench/Socket/Keeps.antt =====
-- client-bench/src/netutil.cpp: what flush_pending and read_available leave as it was.
use io_uring_net_engine.Prelude.{
  ℕ, zero, suc, ◌+◌, ◌-◌, ◌≡◌, refl, arith, Bool, true, false, List, [], ◌∷◌, ◌++◌, take, drop,
  length, ltb, ◌==◌, if◌then◌else◌,
}
use io_uring_net_engine.Epoll.State.{Bytes, is_empty, Sent, accepted, Received, arrived, shut}
use io_uring_net_engine.Bench.Conn.{Conn, rx_cap}
use io_uring_net_engine.Bench.Socket.{
  Kernel, flush_loop, flush_pending, send_loop, send_frame, read_loop, read_available, left_behind,
}

-- flush_pending and read_available change no more of a connection than their own buffer.
abbrev pub Kept : Conn → Bool × (Conn × Kernel) → Type 0
Kept c r =
    (r.1.0.state ≡ c.state)
    × ((r.1.0.index ≡ c.index)
        × ((is_empty c.pending ≡ true → (r.0 ≡ true) × (is_empty r.1.0.pending ≡ true))
            × (r.0 ≡ false → is_empty r.1.0.pending ≡ false)))

one_of :
    (c : Conn) (b : Bool) (x y : Bool × (Conn × Kernel))
    → Kept c x
    → (b ≡ false → Kept c y)
    → Kept c (if b then x else y)
one_of c true x y p q = p
one_of c false x y p q = q refl

no_kept : (c : Conn) {P : Type 0} → is_empty c.pending ≡ false → is_empty c.pending ≡ true → P
no_kept c e e' = absurd (ground (arith, e, e'))

flush_loop-Kept : (rs : List Sent) (c : Conn) (k : Kernel) → Kept c (flush_loop rs c k)
unfolding flush_loop
flush_loop-Kept [] c k = (refl, (refl, ((λ e. (refl, e)), λ e. absurd (ground (arith, e)))))
flush_loop-Kept (accepted zero ∷ rs) c k =
    one_of c (is_empty c.pending) (true, (c, record k { sends = accepted zero ∷ rs }))
      (false, (c, record k { sends = rs }))
      (refl, (refl, ((λ e. (refl, e)), λ e. absurd (ground (arith, e)))))
      (λ n. (refl, (refl, ((λ e. no_kept c n e), λ _. n))))
flush_loop-Kept (accepted (suc m) ∷ rs) c k =
    let c' = record c { pending = drop (suc m) c.pending } in
    let k' = record k { wire = k.wire ++ take (suc m) c.pending } in
    let h = flush_loop-Kept rs c' k' in
    one_of c (is_empty c.pending) (true, (c, record k { sends = accepted (suc m) ∷ rs }))
      (flush_loop rs c' k') (refl, (refl, ((λ e. (refl, e)), λ e. absurd (ground (arith, e)))))
      (λ n. (h.0, (h.1.0, ((λ e. no_kept c n e), h.1.1.1))))
flush_loop-Kept (Sent.interrupted ∷ rs) c k =
    one_of c (is_empty c.pending) (true, (c, record k { sends = Sent.interrupted ∷ rs }))
      (flush_loop rs c k) (refl, (refl, ((λ e. (refl, e)), λ e. absurd (ground (arith, e)))))
      (λ n. flush_loop-Kept rs c k)
flush_loop-Kept (Sent.failed ∷ rs) c k =
    one_of c (is_empty c.pending) (true, (c, record k { sends = Sent.failed ∷ rs }))
      (false, (c, record k { sends = rs }))
      (refl, (refl, ((λ e. (refl, e)), λ e. absurd (ground (arith, e)))))
      (λ n. (refl, (refl, ((λ e. no_kept c n e), λ _. n))))

pub flush_pending-Kept : (c : Conn) (k : Kernel) → Kept c (flush_pending c k)
unfolding flush_pending
flush_pending-Kept c k = flush_loop-Kept k.sends c k

abbrev pub SameBut : Conn → Kernel → Bool × (Conn × (ℕ × Kernel)) → Type 0
SameBut c k r = (record r.1.0 { rx = [] } ≡ record c { rx = [] }) × (r.1.1.1.wire ≡ k.wire)

this_or :
    (c : Conn) (k : Kernel) (b : Bool) (x y : Bool × (Conn × (ℕ × Kernel)))
    → SameBut c k x
    → SameBut c k y
    → SameBut c k (if b then x else y)
this_or c k true x y p q = p
this_or c k false x y p q = q

read_loop-SameBut :
    (rs : List Received) (c : Conn) (n : ℕ) (k : Kernel) → SameBut c k (read_loop rs c n k)
unfolding read_loop
read_loop-SameBut [] c n k =
    this_or c k (rx_cap - length c.rx == 0) (false, (c, (n, record k { recvs = [] })))
      (true, (c, (n, record k { recvs = [] }))) (refl, refl) (refl, refl)
read_loop-SameBut (shut ∷ rs) c n k =
    this_or c k (rx_cap - length c.rx == 0) (false, (c, (n, record k { recvs = shut ∷ rs })))
      (false, (c, (n, record k { recvs = rs }))) (refl, refl) (refl, refl)
read_loop-SameBut (Received.failed ∷ rs) c n k =
    this_or c k (rx_cap - length c.rx == 0)
      (false, (c, (n, record k { recvs = Received.failed ∷ rs })))
      (false, (c, (n, record k { recvs = rs }))) (refl, refl) (refl, refl)
read_loop-SameBut (Received.interrupted ∷ rs) c n k =
    this_or c k (rx_cap - length c.rx == 0)
      (false, (c, (n, record k { recvs = Received.interrupted ∷ rs }))) (read_loop rs c n k)
      (refl, refl) (read_loop-SameBut rs c n k)
read_loop-SameBut (arrived bs ∷ rs) c n k =
    let room = rx_cap - length c.rx in
    let got = take room bs in
    let after = record c { rx = c.rx ++ got } in
    let rest = read_loop rs after (n + length got) k in
    let short =
      (if ltb (length got) room
        then (true, (after, (n + length got, record k { recvs = rs })))
        else left_behind (drop room bs) rest) in
    this_or c k (room == 0) (false, (c, (n, record k { recvs = arrived bs ∷ rs })))
      (if is_empty got then (false, (c, (n, record k { recvs = rs }))) else short) (refl, refl)
      (this_or c k (is_empty got) (false, (c, (n, record k { recvs = rs }))) short (refl, refl)
        (this_or c k (ltb (length got) room)
          (true, (after, (n + length got, record k { recvs = rs })))
          (left_behind (drop room bs) rest) (refl, refl)
          (read_loop-SameBut rs after (n + length got) k)))

pub read_available-SameBut : (c : Conn) (n : ℕ) (k : Kernel) → SameBut c k (read_available c n k)
unfolding read_available
read_available-SameBut c n k = read_loop-SameBut k.recvs c n k

abbrev pub SameConn : Conn → Conn → Type 0
SameConn c d = (d.seq ≡ c.seq) × (d.state ≡ c.state)

flush_loop-keeps : (rs : List Sent) (c : Conn) (k : Kernel) → SameConn c (flush_loop rs c k).1.0
unfolding flush_loop
flush_loop-keeps [] c k = (refl, refl)
flush_loop-keeps (accepted zero ∷ rs) c k = ground arith
flush_loop-keeps (accepted (suc n) ∷ rs) c k = ground (
  arith,
  flush_loop-keeps rs (record c { pending = drop (suc n) c.pending })
      (record k { wire = k.wire ++ take (suc n) c.pending }),
)
flush_loop-keeps (Sent.interrupted ∷ rs) c k = ground (arith, flush_loop-keeps rs c k)
flush_loop-keeps (Sent.failed ∷ rs) c k = ground arith

send_loop-keeps :
    (rs : List Sent) (frame : Bytes) (c : Conn) (k : Kernel)
    → SameConn c (send_loop rs frame c k).1.0
unfolding send_loop
send_loop-keeps [] frame c k = ground arith
send_loop-keeps (accepted zero ∷ rs) frame c k = ground arith
send_loop-keeps (accepted (suc n) ∷ rs) frame c k = ground (
  arith,
  send_loop-keeps rs (drop (suc n) frame) c (record k { wire = k.wire ++ take (suc n) frame }),
)
send_loop-keeps (Sent.interrupted ∷ rs) frame c k = ground (arith, send_loop-keeps rs frame c k)
send_loop-keeps (Sent.failed ∷ rs) frame c k = ground arith

-- send_frame leaves the connection's number and state.
pub send_frame-keeps :
    (c : Conn) (frame : Bytes) (k : Kernel) → SameConn c (send_frame c frame k).1.0
unfolding send_frame flush_pending
send_frame-keeps c frame k = ground (
  arith,
  send_loop-keeps k.sends frame c k,
  flush_loop-keeps k.sends (record c { pending = c.pending ++ frame }) k,
)
