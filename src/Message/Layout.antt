-- ===== src/Message/Layout.antt =====
-- A message read back from its bytes is the message, whatever the padding holds.
use io_uring_net_engine.Prelude.{ℕ, ◌<◌, ◌≡◌, arith}
use io_uring_net_engine.Prelude.Bytes.{le_value-le_bytes}
use io_uring_net_engine.Prelude.Word.{u16_mod}
use io_uring_net_engine.Message.{
  AppMsgHeader, bytes_of_header, header_of_bytes, AdoptSessionMsg, SessionClosedMsg, IsAdopt,
  IsClosed, bytes_of_adopt, adopt_of_bytes, bytes_of_closed, closed_of_bytes,
}

pub header-roundtrip :
    (h : AppMsgHeader)
    → h.size < u16_mod
    → h.type < u16_mod
    → header_of_bytes (bytes_of_header h) ≡ h
unfolding header_of_bytes bytes_of_header
header-roundtrip h s t = ground (arith, le_value-le_bytes 2 h.size s, le_value-le_bytes 2 h.type t)

-- What the worker reads of an adopt_session body is what the acceptor wrote, for field values
-- that fit their widths and any padding.
pub adopt-roundtrip :
    (pad : ℕ) {m : AdoptSessionMsg} → IsAdopt m → adopt_of_bytes (bytes_of_adopt pad m) ≡ m
unfolding adopt_of_bytes bytes_of_adopt
adopt-roundtrip pad {m} w = ground (
  arith,
  le_value-le_bytes 4 m.fd w.fd_fits,
  le_value-le_bytes 8 m.id w.id_fits,
  le_value-le_bytes 4 m.generation w.generation_fits,
  le_value-le_bytes 8 m.account w.account_fits,
  le_value-le_bytes 4 m.initial_room w.room_fits,
)

-- What the acceptor reads of a session_closed body is what the worker wrote, for field values
-- that fit their widths and any padding.
pub closed-roundtrip :
    (pad : ℕ) {m : SessionClosedMsg} → IsClosed m → closed_of_bytes (bytes_of_closed pad m) ≡ m
unfolding closed_of_bytes bytes_of_closed
closed-roundtrip pad {m} w = ground (
  arith,
  le_value-le_bytes 8 m.id w.id_fits,
  le_value-le_bytes 4 m.generation w.generation_fits,
  le_value-le_bytes 4 m.worker w.worker_fits,
  le_value-le_bytes 4 m.reason w.reason_fits,
)
