-- ===== src/Mesh.antt =====
-- server-uring/src/mesh.h: length-prefixed frames over a byte pipe, [header | body].
-- The pipe's template parameter is `cap`, as in Ring. A failed LNX_CHECK is `trap`.
pub mod Queue
pub mod Frames
pub mod Post
pub mod Recv
pub mod History
pub mod CloseNotify
mod Tests
use io_uring_net_engine.Prelude.{
  ℕ, ◌+◌, ◌*◌, ◌%◌, ◌≤◌, ◌<◌, Bool, true, false, Option, none, some, List, [], ◌∷◌, ◌++◌, length,
  ltb, leb, ◌==◌, if◌then◌else◌,
}
use io_uring_net_engine.Prelude.Checked.{Checked, ok, trap, check, ◌>>=◌, ◌>>◌}
use io_uring_net_engine.Prelude.Word.{u16_mod}
use io_uring_net_engine.Message.{AppMsgType, code, AppMsgHeader, bytes_of_header, header_of_bytes}
use io_uring_net_engine.Ring.{Ring, enqueue2, used_size, peek, dequeue}

abbrev pub body_max : ℕ
body_max = 1024

abbrev pub header_size : ℕ
header_size = 4

unfoldable pub frame_size : ℕ → ℕ
frame_size body_len = header_size + body_len

-- config::k_session_capacity, and the capacities of the two kinds of edges.
abbrev pub session_capacity : ℕ
session_capacity = 256

abbrev pub acceptor_to_worker_cap : ℕ
acceptor_to_worker_cap = 64 * 1024

abbrev pub worker_to_acceptor_cap : ℕ
worker_to_acceptor_cap = 16 * 1024

module _ (cap : ℕ) where
  -- `body_len` is a u16.
  pub post : Ring → ℕ → List ℕ → Bool × Ring
  unfolding frame_size
  post p type body =
      let hdr = bytes_of_header (record { size = length body % u16_mod; type = type }) in
      let want = frame_size (length body % u16_mod) in
      let (n, p') = enqueue2 cap p hdr body in (n == want, p')

  -- The bytes of the message struct are its body.
  pub post_msg : Ring → AppMsgType → List ℕ → Bool × Ring
  post_msg p type msg = post p (code type) msg

  -- The frame read, if one is ready, and the pipe after the call.
  pub try_recv : Ring → ℕ → Checked (Option (AppMsgHeader × List ℕ) × Ring)
  unfolding frame_size
  try_recv p body_cap =
      if ltb (used_size cap p) header_size
      then ok (none, p)
      else (let got = peek cap p header_size in
          check (length got == header_size)
          >> (let hdr = header_of_bytes got in
              if ltb (used_size cap p) (frame_size hdr.size)
              then ok (none, p)
              else (check (leb hdr.size body_cap)
                  >> (let p₁ = (dequeue cap p header_size).1 in
                      let (body, p₂) =
                        if hdr.size == 0 then ([], p₁) else dequeue cap p₁ hdr.size in
                      ok (some (hdr, body), p₂)))))
