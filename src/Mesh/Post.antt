-- ===== src/Mesh/Post.antt =====
-- Posting to a pipe that holds the frames of a queue puts the message behind the queue.
use io_uring_net_engine.Prelude.{
  ℕ, ◌≤◌, ◌+◌, ◌%◌, ◌<◌, ◌≡◌, ap, ◌∙◌, arith, List, [], ◌∷◌, ◌++◌, length, ltb, if◌then◌else◌,
  Bool-cases, inl, inr,
}
use io_uring_net_engine.Prelude.Word.{u16_mod, i64_limit}
use io_uring_net_engine.Message.{AppMsgHeader, bytes_of_header}
use io_uring_net_engine.Ring.{Ring, IsCapacity, IsValid, enqueue2}
use io_uring_net_engine.Ring.Stream
use io_uring_net_engine.Ring.Contents.{contents}
use io_uring_net_engine.Ring.Refine.{cursor-enqueue2, enqueue2_refines}
use io_uring_net_engine.Mesh.Queue.{Message, Queue, weight, push}
use io_uring_net_engine.Mesh.Frames.{
  IsSized, header, frame, frames, length-header, length-frame, length-frames, frames-append,
  AllSized-append, Holds,
}
use io_uring_net_engine.Mesh.{post}

module _ {cap : ℕ} (v : IsCapacity cap) where
  -- The stream's push of a frame, by the weights of the queue.
  push-frame :
      {p : Ring} {ms : Queue} (m : Message)
      → Holds cap p ms
      → Stream.push cap (contents cap p) (frame m) ≡ (
          if ltb cap (weight ms + weight (m ∷ []))
          then (0, frames ms)
          else (4 + length m.body, frames ms ++ frame m))
  unfolding Stream.push
  push-frame {p} {ms} m h = rw (h.bytes, length-frames ms, length-frame m) (ap choose weights)
    where
      choose : ℕ → ℕ × List ℕ
      choose n =
          if ltb cap (weight ms + n)
          then (0, frames ms)
          else (4 + length m.body, frames ms ++ frame m)

      weights : 4 + length m.body ≡ weight (m ∷ [])
      weights = omega arith

  -- On a pipe that holds whole messages, `mesh_post` of a body and a type that fit their u16
  -- fields puts the message behind the queue, or, when its frame does not fit the pipe, changes
  -- nothing and says so, as long as the cursor stays below 2^63.
  pub post_refines :
      {p : Ring} {ms : Queue} (m : Message)
      → Holds cap p ms
      → IsSized m
      → p.enqueue_cursor + 4 + length m.body < i64_limit
      → let (sent, p') = post cap p m.type m.body in
        let (sent', ms') = push cap ms m in (sent ≡ sent') × Holds cap p' ms'
  unfolding post push
  post_refines {p} {ms} m h s fit =
      rw same (elim (Bool-cases (ltb cap (weight ms + weight (m ∷ [])))) [
        | inl full ↦ rw full (
          ground (arith, pushed, full),
          record { valid = done.1; bytes = ground (arith, pushed, full); sized = h.sized },
        )
        | inr room ↦ rw room (
          ground (arith, pushed, room),
          record {
            valid = done.1;
            bytes = ground (arith, pushed, room, frames-append ms m);
            sized = AllSized-append ms h.sized s;
          },
        )
      ])
    where
      same : length m.body % u16_mod ≡ length m.body
      same = omega (arith, s)

      end : p.enqueue_cursor + length (bytes_of_header (header m)) + length m.body < i64_limit
      end = omega (arith, length-header (header m))

      posted : ℕ × Ring
      posted = enqueue2 cap p (bytes_of_header (header m)) m.body

      view : ℕ × List ℕ
      view = (posted.0, contents cap posted.1)

      done : (view ≡ Stream.push cap (contents cap p) (frame m)) × IsValid cap posted.1
      done = enqueue2_refines v (bytes_of_header (header m)) m.body h.valid end

      pushed : view ≡ (
          if ltb cap (weight ms + weight (m ∷ []))
          then (0, frames ms)
          else (4 + length m.body, frames ms ++ frame m))
      pushed = done.0 ∙ push-frame m h

pub cursor-post :
    (cap : ℕ) (p : Ring) (m : Message)
    → (post cap p m.type m.body).1.enqueue_cursor ≤ p.enqueue_cursor + (4 + length m.body)
unfolding post
cursor-post cap p m =
    omega (arith, cursor-enqueue2 cap p (bytes_of_header hdr) m.body, length-header hdr)
  where
    hdr : AppMsgHeader
    hdr = record { size = length m.body % u16_mod; type = m.type }
