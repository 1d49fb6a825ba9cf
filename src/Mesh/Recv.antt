-- ===== src/Mesh/Recv.antt =====
-- Receiving from a pipe that holds the frames of a queue takes the queue's oldest message.
use io_uring_net_engine.Prelude.{
  ℕ, ◌+◌, ◌≤◌, ◌<◌, ◌≡◌, refl, ap, sym, ◌∙◌, arith, true, false, Option, none, some, List, [], ◌∷◌,
  ◌++◌, length, take, drop, append_assoc, take-append, drop-append, ltb, leb, ◌==◌, if◌then◌else◌,
  Bool-cases, inl, inr,
}
use io_uring_net_engine.Prelude.Checked.{ok, trap}
use io_uring_net_engine.Message.{AppMsgHeader, bytes_of_header, header_of_bytes}
use io_uring_net_engine.Message.Layout.{header-roundtrip}
use io_uring_net_engine.Ring.{Ring, IsCapacity, IsValid, used_size, peek, dequeue}
use io_uring_net_engine.Ring.Stream
use io_uring_net_engine.Ring.Contents.{contents}
use io_uring_net_engine.Ring.Refine.{cursor-dequeue, sizes_refine, dequeue_refines, peek_refines}
use io_uring_net_engine.Mesh.Queue.{Message, Queue, weight, pop}
use io_uring_net_engine.Mesh.Frames.{header, frames, length-header, length-frames, Holds}
use io_uring_net_engine.Mesh.{try_recv, frame_size}

-- What the reader is handed of a message.
abbrev pub delivered : Option Message → Option (AppMsgHeader × List ℕ)
delivered none = none
delivered (some m) = some (header m, m.body)

abbrev pub HeadFits : ℕ → Queue → Type 0
HeadFits body_cap [] = Unit {0}
HeadFits body_cap (m ∷ ms) = length m.body ≤ body_cap

nil_of_length : (xs : List ℕ) → (length xs == 0) ≡ true → xs ≡ []
nil_of_length [] h = refl
nil_of_length (x ∷ xs) h = absurd (ground arith)

module _ {cap : ℕ} (v : IsCapacity cap) {p : Ring} where
  used-weight : {ms : Queue} → Holds cap p ms → used_size cap p ≡ weight ms
  used-weight {ms} h =
      omega (arith, (sizes_refine v h.valid).0, ap length h.bytes, length-frames ms)

  try_recv-nil : (body_cap : ℕ) → Holds cap p [] → try_recv cap p body_cap ≡ ok (none, p)
  unfolding try_recv
  try_recv-nil body_cap h = rw missing
    where
      missing : ltb (used_size cap p) 4 ≡ true
      missing = ground (arith, used-weight h)

  module _ {m : Message} {ms : Queue} (h : Holds cap p (m ∷ ms)) where
    head_bytes : contents cap p ≡ bytes_of_header (header m) ++ (m.body ++ frames ms)
    head_bytes = h.bytes ∙ append_assoc (bytes_of_header (header m)) m.body (frames ms)

    peek-header : peek cap p 4 ≡ bytes_of_header (header m)
    unfolding Stream.pop
    peek-header =
        peek_refines v 4 h.valid
        ∙ ap (take 4) head_bytes
        ∙ take-append 4 (bytes_of_header (header m)) _ (length-header (header m))

    header-peek : header_of_bytes (peek cap p 4) ≡ header m
    header-peek =
        ap header_of_bytes peek-header
        ∙ header-roundtrip (header m) h.sized.0.body_fits h.sized.0.type_fits

    -- The pipe behind the header.
    past_header : Ring
    past_header = (dequeue cap p 4).1

    past_header-bytes : (contents cap past_header ≡ m.body ++ frames ms) × IsValid cap past_header
    unfolding Stream.pop past_header
    past_header-bytes = (
      ap (λ q. q.1) (dequeue_refines v 4 h.valid).0
          ∙ ap (drop 4) head_bytes
          ∙ drop-append 4 (bytes_of_header (header m)) _ (length-header (header m)),
      (dequeue_refines v 4 h.valid).1,
    )

    -- The body and the pipe behind it, as `mesh_try_recv` takes them.
    take_body : List ℕ × Ring
    take_body =
        if length m.body == 0 then ([], past_header) else dequeue cap past_header (length m.body)

    take_body_lem : (take_body.0 ≡ m.body) × Holds cap take_body.1 ms
    unfolding take_body Stream.pop
    take_body_lem = elim (Bool-cases (length m.body == 0)) [
      | inl none_left ↦
          let empty : m.body ≡ [] = nil_of_length m.body none_left in
          rw none_left (
            sym empty,
            record {
              valid = past_header-bytes.1;
              bytes = past_header-bytes.0 ∙ ap (λ l. l ++ frames ms) empty;
              sized = h.sized.1;
            },
          )
      | inr some_left ↦
          let rest = dequeue_refines v (length m.body) past_header-bytes.1 in
          rw some_left (
            ap (λ q. q.0) rest.0
                ∙ ap (take (length m.body)) past_header-bytes.0
                ∙ take-append (length m.body) m.body (frames ms) refl,
            record {
              valid = rest.1;
              bytes =
                  ap (λ q. q.1) rest.0
                  ∙ ap (drop (length m.body)) past_header-bytes.0
                  ∙ drop-append (length m.body) m.body (frames ms) refl;
              sized = h.sized.1;
            },
          )
    ]

    take_body-cursor : take_body.1.enqueue_cursor ≡ p.enqueue_cursor
    unfolding take_body past_header
    take_body-cursor =
        ground
          (arith, cursor-dequeue cap p 4, cursor-dequeue cap (dequeue cap p 4).1 (length m.body))

    try_recv-head :
        (body_cap : ℕ)
        → try_recv cap p body_cap ≡ (
            if leb (length m.body) body_cap
            then ok (some (header m, take_body.0), take_body.1)
            else trap)
    unfolding try_recv take_body past_header frame_size
    try_recv-head body_cap =
        rw (header_there, header_whole, header-peek, frame_there)
          (elim (Bool-cases (leb (length m.body) body_cap)) [
            | inl fits ↦ rw fits
            | inr big ↦ rw big
          ])
      where
        header_there : ltb (used_size cap p) 4 ≡ false
        header_there = ground (arith, used-weight h)

        header_whole : (length (peek cap p 4) == 4) ≡ true
        header_whole = ground (arith, ap length peek-header, length-header (header m))

        frame_there : ltb (used_size cap p) (4 + length m.body) ≡ false
        frame_there = ground (arith, used-weight h)

  -- On a pipe that holds whole messages, `mesh_try_recv` hands out the oldest message whole and
  -- keeps the others, leaves an empty pipe alone, and fails no check while the reader's buffer
  -- holds the oldest body. The producer's cursor stays.
  pub try_recv_refines :
      {ms : Queue} (body_cap : ℕ)
      → Holds cap p ms
      → HeadFits body_cap ms
      → (p' : Ring) × (try_recv cap p body_cap ≡ ok (delivered (pop ms).0, p'))
        × Holds cap p' (pop ms).1
        × (p'.enqueue_cursor ≡ p.enqueue_cursor)
  unfolding pop
  try_recv_refines {ms = []} body_cap h fit = (p, try_recv-nil body_cap h, h, refl)
  try_recv_refines {ms = m ∷ ms} body_cap h fit = (
    (take_body h).1,
    ground (arith, try_recv-head h body_cap, (take_body_lem h).0),
    (take_body_lem h).1,
    take_body-cursor h,
  )

  -- On a pipe that holds whole messages, `mesh_try_recv` traps when the oldest body is larger
  -- than the reader's buffer: it is never cut short.
  pub try_recv_oversize :
      {m : Message} {ms : Queue} (body_cap : ℕ)
      → Holds cap p (m ∷ ms)
      → body_cap < length m.body
      → try_recv cap p body_cap ≡ trap
  try_recv_oversize body_cap h big = ground (arith, try_recv-head h body_cap)
