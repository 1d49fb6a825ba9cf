-- ===== src/Mesh/CloseNotify.antt =====
-- The static_assert at the end of mesh.h: on the worker->acceptor edge a close notice is never
-- dropped, as long as each session has at most one in flight.
use io_uring_net_engine.Prelude.{ℕ, ◌+◌, ◌*◌, ◌<◌, ◌≡◌, refl, arith, true, [], ◌∷◌, ◌++◌, length}
use io_uring_net_engine.Prelude.Word.{i64_limit}
use io_uring_net_engine.Message.{SessionClosedMsg, session_closed, code, bytes_of_closed}
use io_uring_net_engine.Ring.{Ring, IsCapacity}
use io_uring_net_engine.Mesh.Queue.{Message, Queue, weight, push}
use io_uring_net_engine.Mesh.Frames.{IsSized, Holds}
use io_uring_net_engine.Mesh.Post.{post_refines}
use io_uring_net_engine.Mesh.{session_capacity, worker_to_acceptor_cap, post_msg}

-- A body blitted from a session_closed_msg.
abbrev pub notice : ℕ → SessionClosedMsg → Message
notice pad m = record { type = code session_closed; body = bytes_of_closed pad m }

length-bytes_of_closed : (pad : ℕ) (m : SessionClosedMsg) → length (bytes_of_closed pad m) ≡ 24
unfolding bytes_of_closed
length-bytes_of_closed pad m = refl

-- The messages in flight on a close-notify edge are close notices.
pub data Notices : Queue → Type 0 where
  none_left : Notices []
  one_more :
      (pad : ℕ) (m : SessionClosedMsg) {ms : Queue} → Notices ms → Notices (notice pad m ∷ ms)

weight-Notices : {ms : Queue} → Notices ms → weight ms ≡ 28 * length ms
weight-Notices none_left = omega arith
weight-Notices (one_more pad m ns) = omega (arith, weight-Notices ns, length-bytes_of_closed pad m)

abbrev pub close_edge : IsCapacity worker_to_acceptor_cap
close_edge = record { at_least = omega arith; power = (14, refl); fits = omega arith }

-- A worker that posts a close notice while fewer than `k_session_capacity` notices, and nothing
-- else, are in flight on the edge succeeds, and the notice stands behind the others, as long as
-- the cursor stays below 2^63.
pub close_notify_never_drops :
    {p : Ring} {ms : Queue} (pad : ℕ) (m : SessionClosedMsg)
    → Holds worker_to_acceptor_cap p ms
    → Notices ms
    → length ms < session_capacity
    → p.enqueue_cursor + 28 < i64_limit
    → let (sent, p') = post_msg worker_to_acceptor_cap p session_closed (bytes_of_closed pad m) in
      (sent ≡ true) × Holds worker_to_acceptor_cap p' (ms ++ notice pad m ∷ [])
unfolding push post_msg
close_notify_never_drops {p} {ms} pad m h ns few fit = ground (
  arith,
  weight-Notices ns,
  length-bytes_of_closed pad m,
  post_refines close_edge (notice pad m) h sized (omega (arith, length-bytes_of_closed pad m)),
)
  where
    sized : IsSized (notice pad m)
    sized = omega (arith, length-bytes_of_closed pad m)
