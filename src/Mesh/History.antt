-- ===== src/Mesh/History.antt =====
-- Histories of calls on one edge of the mesh, against the queue of messages that it promises.
use io_uring_net_engine.Prelude.{
  ℕ, ◌+◌, ◌≤◌, ◌<◌, ◌≡◌, refl, ap, ap₂, arith, Bool, Option, List, [], ◌∷◌, ◌++◌, length,
}
use io_uring_net_engine.Prelude.Checked.{ok, trap}
use io_uring_net_engine.Prelude.Word.{i64_limit}
use io_uring_net_engine.Message.{AppMsgHeader}
use io_uring_net_engine.Ring.{Ring, IsCapacity}
use io_uring_net_engine.Mesh.Queue.{Message, Queue, push, pop}
use io_uring_net_engine.Mesh.Frames.{IsSized, Holds}
use io_uring_net_engine.Mesh.Post.{post_refines, cursor-post}
use io_uring_net_engine.Mesh.Recv.{delivered, HeadFits, try_recv_refines}
use io_uring_net_engine.Mesh.{post, try_recv}

pub data Call : Type 0 where
  posts : Message → Call
  receives : Call

pub data Reply : Type 0 where
  posted : Bool → Reply
  received : Option (AppMsgHeader × List ℕ) → Reply
  trapped : Reply

-- The replies of the code, until a check fails.
module _ (cap body_cap : ℕ) where
  pub run : Ring → List Call → List Reply
  run p [] = []
  run p (posts m ∷ cs) = let (sent, p') = post cap p m.type m.body in posted sent ∷ run p' cs
  run p (receives ∷ cs) = elim (try_recv cap p body_cap) [
    | ok (o, p') ↦ received o ∷ run p' cs
    | trap ↦ trapped ∷ []
  ]

-- The replies of the queue.
unfoldable pub run_queue : ℕ → Queue → List Call → List Reply
run_queue cap q [] = []
run_queue cap q (posts m ∷ cs) = let (sent, q') = push cap q m in posted sent ∷ run_queue cap q' cs
run_queue cap q (receives ∷ cs) =
    let (o, q') = pop q in received (delivered o) ∷ run_queue cap q' cs

-- The bodies posted fit the reader's buffer, and their types a u16.
abbrev pub AllPosts : ℕ → List Call → Type 0
AllPosts body_cap [] = Unit {0}
AllPosts body_cap (posts m ∷ cs) = (length m.body ≤ body_cap) × IsSized m × AllPosts body_cap cs
AllPosts body_cap (receives ∷ cs) = AllPosts body_cap cs

abbrev pub traffic : List Call → ℕ
traffic [] = 0
traffic (posts m ∷ cs) = 4 + length m.body + traffic cs
traffic (receives ∷ cs) = traffic cs

abbrev pub AllFit : ℕ → Queue → Type 0
AllFit body_cap [] = Unit {0}
AllFit body_cap (m ∷ ms) = (length m.body ≤ body_cap) × AllFit body_cap ms

AllFit-append :
    (b : ℕ) (ms : Queue) (m : Message) → AllFit b ms → length m.body ≤ b → AllFit b (ms ++ m ∷ [])
AllFit-append b [] m h k = (k, tt)
AllFit-append b (x ∷ ms) m h k = (h.0, AllFit-append b ms m h.1 k)

push-AllFit :
    (b cap : ℕ) (ms : Queue) (m : Message)
    → AllFit b ms
    → length m.body ≤ b
    → AllFit b (push cap ms m).1
unfolding push
push-AllFit b cap ms m h k = ground (arith, AllFit-append b ms m h k)

pop-AllFit : (b : ℕ) (ms : Queue) → AllFit b ms → AllFit b (pop ms).1
unfolding pop
pop-AllFit b [] h = tt
pop-AllFit b (m ∷ ms) h = h.1

AllFit-head : (b : ℕ) (ms : Queue) → AllFit b ms → HeadFits b ms
AllFit-head b [] h = tt
AllFit-head b (m ∷ ms) h = h.0

-- From a pipe that holds whole messages, any history of posts and receives is answered as by a
-- queue of whole messages with room for `cap` bytes, when every body fits the reader's buffer and
-- the cursor stays below 2^63: messages come out in order, each once and whole, a post that does
-- not fit changes nothing, and no check fails.
pub run_refines :
    {cap : ℕ} (body_cap : ℕ) (cs : List Call) {p : Ring} {ms : Queue}
    → IsCapacity cap
    → Holds cap p ms
    → AllFit body_cap ms
    → AllPosts body_cap cs
    → p.enqueue_cursor + traffic cs < i64_limit
    → run cap body_cap p cs ≡ run_queue cap ms cs
unfolding run run_queue
run_refines body_cap [] v h f a t = refl
run_refines {cap} body_cap (posts m ∷ cs) {p} {ms} v h f a t =
    let done = post_refines v m h a.1 (omega arith) in
    ap₂ ◌∷◌ (ap posted done.0) (
      run_refines body_cap cs v done.1 (push-AllFit body_cap cap ms m f a.0) a.2
        (omega (arith, cursor-post cap p m)))
run_refines {cap} body_cap (receives ∷ cs) {p} {ms} v h f a t =
    let (p', step, holds, same) = try_recv_refines v body_cap h (AllFit-head body_cap ms f) in
    rw (step, run)
      (ap (λ l. received (delivered (pop ms).0) ∷ l)
        (run_refines body_cap cs v holds (pop-AllFit body_cap ms f) a (omega arith)))
