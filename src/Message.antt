-- ===== src/Message.antt =====
-- server-uring/src/message.h and session_id.h: the messages of the thread mesh, and their bytes.
-- A message is blitted: its fields stand in little-endian order at their offsets, and the bytes
-- between them (`pad`) may hold anything.
pub mod Layout
use io_uring_net_engine.Prelude.{ℕ, ◌<◌, List, ◌++◌, take, drop}
use io_uring_net_engine.Prelude.Bytes.{le_bytes, le_value}
use io_uring_net_engine.Prelude.Word.{u32_mod, u64_mod}

pub data AppMsgType : Type 0 where
  adopt_session session_closed stop : AppMsgType

abbrev pub code : AppMsgType → ℕ
code adopt_session = 1
code session_closed = 2
code stop = 3

pub record AppMsgHeader : Type 0 where
  pub size : ℕ
  pub type : ℕ

unfoldable pub bytes_of_header : AppMsgHeader → List ℕ
bytes_of_header h = le_bytes 2 h.size ++ le_bytes 2 h.type

unfoldable pub header_of_bytes : List ℕ → AppMsgHeader
header_of_bytes bs = record { size = le_value (take 2 bs); type = le_value (take 2 (drop 2 bs)) }

-- An `int` is its 32-bit pattern.
pub record AdoptSessionMsg : Type 0 where
  pub fd : ℕ
  pub id : ℕ
  pub generation : ℕ
  pub account : ℕ
  pub initial_room : ℕ

pub record SessionClosedMsg : Type 0 where
  pub id : ℕ
  pub generation : ℕ
  pub worker : ℕ
  pub reason : ℕ

-- Offsets 0, 8, 16, 24 and 32 of 40 bytes: a u64 is aligned to 8.
unfoldable pub bytes_of_adopt : ℕ → AdoptSessionMsg → List ℕ
bytes_of_adopt pad m =
    le_bytes 4 m.fd
    ++ (le_bytes 4 pad
        ++ (le_bytes 8 m.id
            ++ (le_bytes 4 m.generation
                ++ (le_bytes 4 pad
                    ++ (le_bytes 8 m.account ++ (le_bytes 4 m.initial_room ++ le_bytes 4 pad))))))

unfoldable pub adopt_of_bytes : List ℕ → AdoptSessionMsg
adopt_of_bytes bs = record {
  fd = le_value (take 4 bs);
  id = le_value (take 8 (drop 8 bs));
  generation = le_value (take 4 (drop 16 bs));
  account = le_value (take 8 (drop 24 bs));
  initial_room = le_value (take 4 (drop 32 bs));
}

-- Offsets 0, 8, 12 and 16 of 24 bytes.
unfoldable pub bytes_of_closed : ℕ → SessionClosedMsg → List ℕ
bytes_of_closed pad m =
    le_bytes 8 m.id
    ++ (le_bytes 4 m.generation ++ (le_bytes 4 m.worker ++ (le_bytes 4 m.reason ++ le_bytes 4 pad)))

unfoldable pub closed_of_bytes : List ℕ → SessionClosedMsg
closed_of_bytes bs = record {
  id = le_value (take 8 bs);
  generation = le_value (take 4 (drop 8 bs));
  worker = le_value (take 4 (drop 12 bs));
  reason = le_value (take 4 (drop 16 bs));
}

-- The fields fit their C types.
pub record IsAdopt (m : AdoptSessionMsg) : Type 0 where
  pub fd_fits : m.fd < u32_mod
  pub id_fits : m.id < u64_mod
  pub generation_fits : m.generation < u32_mod
  pub account_fits : m.account < u64_mod
  pub room_fits : m.initial_room < u32_mod

pub record IsClosed (m : SessionClosedMsg) : Type 0 where
  pub id_fits : m.id < u64_mod
  pub generation_fits : m.generation < u32_mod
  pub worker_fits : m.worker < u32_mod
  pub reason_fits : m.reason < u32_mod
