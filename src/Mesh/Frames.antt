-- ===== src/Mesh/Frames.antt =====
-- The bytes of a queue of messages: each one's header, then its body.
use io_uring_net_engine.Prelude.{
  ℕ, ◌+◌, ◌<◌, ◌≡◌, refl, ap, ◌∙◌, arith, List, [], ◌∷◌, ◌++◌, length, append-nil, append_assoc,
  length-append, sym,
}
use io_uring_net_engine.Prelude.Word.{u16_mod}
use io_uring_net_engine.Message.{AppMsgHeader, bytes_of_header}
use io_uring_net_engine.Ring.{Ring, IsValid}
use io_uring_net_engine.Ring.Contents.{contents}
use io_uring_net_engine.Mesh.Queue.{Message, Queue, weight}

-- The size of a body and the code of a type are u16.
pub record IsSized (m : Message) : Type 0 where
  pub body_fits : length m.body < u16_mod
  pub type_fits : m.type < u16_mod

abbrev pub AllSized : Queue → Type 0
AllSized [] = Unit {0}
AllSized (m ∷ ms) = IsSized m × AllSized ms

abbrev pub header : Message → AppMsgHeader
header m = record { size = length m.body; type = m.type }

abbrev pub frame : Message → List ℕ
frame m = bytes_of_header (header m) ++ m.body

abbrev pub frames : Queue → List ℕ
frames [] = []
frames (m ∷ ms) = frame m ++ frames ms

pub length-header : (h : AppMsgHeader) → length (bytes_of_header h) ≡ 4
unfolding bytes_of_header
length-header h = refl

pub length-frame : (m : Message) → length (frame m) ≡ 4 + length m.body
length-frame m =
    omega (arith, length-append (bytes_of_header (header m)) m.body, length-header (header m))

pub length-frames : (ms : Queue) → length (frames ms) ≡ weight ms
length-frames [] = refl
length-frames (m ∷ ms) =
    omega (arith, length-append (frame m) (frames ms), length-frame m, length-frames ms)

pub frames-append : (ms : Queue) (m : Message) → frames (ms ++ m ∷ []) ≡ frames ms ++ frame m
frames-append [] m = append-nil (frame m)
frames-append (x ∷ ms) m =
    ap (λ l. frame x ++ l) (frames-append ms m) ∙ sym (append_assoc (frame x) (frames ms) (frame m))

pub AllSized-append : (ms : Queue) {m : Message} → AllSized ms → IsSized m → AllSized (ms ++ m ∷ [])
AllSized-append [] a h = (h, tt)
AllSized-append (x ∷ ms) a h = (a.0, AllSized-append ms a.1 h)

-- The pipe holds the frames of the queue, and nothing else.
pub record Holds (cap : ℕ) (p : Ring) (ms : Queue) : Type 0 where
  pub valid : IsValid cap p
  pub bytes : contents cap p ≡ frames ms
  pub sized : AllSized ms
