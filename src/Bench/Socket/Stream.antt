-- ===== src/Bench/Socket/Stream.antt =====
-- client-bench/src/netutil.cpp: the bytes that a connection sends and receives, in order.
use io_uring_net_engine.Prelude.{
  ℕ, zero, suc, ◌≡◌, refl, sym, subst, ◌∙◌, ap, arith, Bool, true, false, List, [], ◌∷◌, ◌++◌,
  append_assoc, append-nil, take, drop, take-append-drop, if◌then◌else◌, Bool-cases, inl, inr,
}
use io_uring_net_engine.Epoll.State.{Bytes, is_empty, Sent, accepted}
use io_uring_net_engine.Bench.Conn.{Conn}
use io_uring_net_engine.Bench.Socket.{Kernel, flush_loop, flush_pending, send_loop, send_frame}

-- What the kernel has taken and what still waits in the connection.
abbrev pub outgoing : Conn → Kernel → Bytes
outgoing c k = k.wire ++ c.pending

abbrev pub sent_of : Bool × (Conn × Kernel) → Bytes
sent_of r = outgoing r.1.0 r.1.1

-- A turn of either loop moves the front of the waiting bytes.
moved :
    (n : ℕ) (wire waiting : Bytes) → (wire ++ take n waiting) ++ drop n waiting ≡ wire ++ waiting
moved n wire waiting =
    append_assoc wire (take n waiting) (drop n waiting)
    ∙ ap (λ b. wire ++ b) (take-append-drop n waiting)

-- One of two results, both with these bytes.
guarded :
    (b : Bool) (x y : Bool × (Conn × Kernel)) (w : Bytes)
    → sent_of x ≡ w
    → sent_of y ≡ w
    → sent_of (if b then x else y) ≡ w
guarded true x y w p q = p
guarded false x y w p q = q

outgoing-flush_loop :
    (rs : List Sent) (c : Conn) (k : Kernel) → sent_of (flush_loop rs c k) ≡ outgoing c k
unfolding flush_loop
outgoing-flush_loop [] c k = refl
outgoing-flush_loop (accepted zero ∷ rs) c k =
    guarded (is_empty c.pending) (true, (c, record k { sends = accepted zero ∷ rs }))
      (false, (c, record k { sends = rs })) (outgoing c k) refl refl
outgoing-flush_loop (accepted (suc n) ∷ rs) c k =
    guarded (is_empty c.pending) (true, (c, record k { sends = accepted (suc n) ∷ rs }))
      (flush_loop rs (record c { pending = drop (suc n) c.pending })
        (record k { wire = k.wire ++ take (suc n) c.pending }))
      (outgoing c k) refl
      (outgoing-flush_loop rs (record c { pending = drop (suc n) c.pending })
          (record k { wire = k.wire ++ take (suc n) c.pending })
        ∙ moved (suc n) k.wire c.pending)
outgoing-flush_loop (Sent.interrupted ∷ rs) c k =
    guarded (is_empty c.pending) (true, (c, record k { sends = Sent.interrupted ∷ rs }))
      (flush_loop rs c k) (outgoing c k) refl (outgoing-flush_loop rs c k)
outgoing-flush_loop (Sent.failed ∷ rs) c k =
    guarded (is_empty c.pending) (true, (c, record k { sends = Sent.failed ∷ rs }))
      (false, (c, record k { sends = rs })) (outgoing c k) refl refl

-- Behind `before` stands a front of the frame: all that is missing is an end of the frame, and only
-- in a result that says so.
abbrev pub Accounted : Bytes → Bytes → Bool × (Conn × Kernel) → Type 0
Accounted before frame r =
    (kept : Bytes) × ((lost : Bytes) × ((kept ++ lost ≡ frame)
        × ((sent_of r ≡ before ++ kept) × (r.0 ≡ true → lost ≡ []))))

either :
    (b : Bool) (x y : Bool × (Conn × Kernel)) (before frame : Bytes)
    → (b ≡ true → Accounted before frame x)
    → Accounted before frame y
    → Accounted before frame (if b then x else y)
either true x y before frame p q = p refl
either false x y before frame p q = q

nothing_left : (frame : Bytes) → is_empty frame ≡ true → frame ≡ []
nothing_left [] e = refl
nothing_left (b ∷ bs) e = absurd (ground (arith, e))

-- The front of the frame has gone out, and then what was left of it is accounted for.
front_Accounted :
    (n : ℕ) (wire frame : Bytes) (r : Bool × (Conn × Kernel))
    → Accounted (wire ++ take n frame) (drop n frame) r
    → Accounted wire frame r
front_Accounted n wire frame r (kept, (lost, (whole, (is, all)))) = (
  take n frame ++ kept,
  (
    lost,
    (
      append_assoc (take n frame) kept lost
          ∙ ap (λ b. take n frame ++ b) whole
          ∙ take-append-drop n frame,
      (is ∙ append_assoc wire (take n frame) kept, all),
    ),
  ),
)

module _ (c : Conn) (none_waits : c.pending ≡ []) where
  at_once :
      (frame : Bytes) (k : Kernel) (rs : List Sent)
      → is_empty frame ≡ true
      → Accounted k.wire frame (true, (c, record k { sends = rs }))
  at_once frame k rs e =
      ([], ([], (sym (nothing_left frame e), (ap (λ b. k.wire ++ b) none_waits, λ _. refl))))

  given_up :
      (frame : Bytes) (k : Kernel) (rs : List Sent)
      → Accounted k.wire frame (false, (c, record k { sends = rs }))
  given_up frame k rs =
      ([], (frame, (refl, (ap (λ b. k.wire ++ b) none_waits, λ e. absurd (ground (arith, e))))))

  send_loop-Accounted :
      (rs : List Sent) (frame : Bytes) (k : Kernel)
      → Accounted k.wire frame (send_loop rs frame c k)
  unfolding send_loop
  send_loop-Accounted [] frame k = elim (Bool-cases (is_empty frame)) [
    | inl e ↦ rw (e, send_loop) (at_once frame k [] e)
    | inr e ↦ rw (e, send_loop) (frame, ([], (append-nil frame, (refl, λ _. refl))))
  ]
  send_loop-Accounted (accepted zero ∷ rs) frame k =
      either (is_empty frame) (true, (c, record k { sends = accepted zero ∷ rs }))
        (false, (c, record k { sends = rs })) k.wire frame (at_once frame k (accepted zero ∷ rs))
        (given_up frame k rs)
  send_loop-Accounted (accepted (suc n) ∷ rs) frame k =
      let k' : Kernel = record k { wire = k.wire ++ take (suc n) frame } in
      either (is_empty frame) (true, (c, record k { sends = accepted (suc n) ∷ rs }))
        (send_loop rs (drop (suc n) frame) c k') k.wire frame
        (at_once frame k (accepted (suc n) ∷ rs))
        (front_Accounted (suc n) k.wire frame (send_loop rs (drop (suc n) frame) c k')
          (send_loop-Accounted rs (drop (suc n) frame) k'))
  send_loop-Accounted (Sent.interrupted ∷ rs) frame k =
      either (is_empty frame) (true, (c, record k { sends = Sent.interrupted ∷ rs }))
        (send_loop rs frame c k) k.wire frame (at_once frame k (Sent.interrupted ∷ rs))
        (send_loop-Accounted rs frame k)
  send_loop-Accounted (Sent.failed ∷ rs) frame k =
      either (is_empty frame) (true, (c, record k { sends = Sent.failed ∷ rs }))
        (false, (c, record k { sends = rs })) k.wire frame (at_once frame k (Sent.failed ∷ rs))
        (given_up frame k rs)

-- Whatever send returns, flush_pending neither loses, repeats nor reorders a byte.
pub outgoing-flush_pending : (c : Conn) (k : Kernel) → sent_of (flush_pending c k) ≡ outgoing c k
unfolding flush_pending
outgoing-flush_pending c k = outgoing-flush_loop k.sends c k

-- Whatever send returns, send_frame keeps every byte that went out or waits already, and puts a
-- front of the frame behind them. When it returns true this is the whole frame; otherwise what is
-- missing is an end of the frame and nothing else.
pub send_frame-Accounted :
    (c : Conn) (frame : Bytes) (k : Kernel) → Accounted (outgoing c k) frame (send_frame c frame k)
unfolding send_frame
send_frame-Accounted c frame k = elim (Bool-cases (is_empty c.pending)) [
  | inl e ↦
      rw (e, send_frame)
        (subst (λ b. Accounted b frame (send_loop k.sends frame c k))
          (sym (ap (λ p. k.wire ++ p) (nothing_left c.pending e) ∙ append-nil k.wire))
          (send_loop-Accounted c (nothing_left c.pending e) k.sends frame k))
  | inr e ↦
      rw (e, send_frame)
        (
          frame,
          (
            [],
            (
              append-nil frame,
              (
                outgoing-flush_pending (record c { pending = c.pending ++ frame }) k
                    ∙ sym (append_assoc k.wire c.pending frame),
                λ _. refl,
              ),
            ),
          ),
        )
]
