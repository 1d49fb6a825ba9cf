-- ===== src/Epoll/Packets.antt =====
-- server-epoll/server.cpp: handle_packet, parse_frames and on_readable.
pub mod Steps
pub mod Frames
use Prim.Native.Char.{code}
use Prim.Native.String.{String}
use io_uring_net_engine.Prelude.{
  ℕ, zero, suc, ◌+◌, ◌*◌, ◌%◌, Bool, true, false, not, ◌&&◌, ◌||◌, Option, none, some, List, [],
  ◌∷◌, ◌++◌, length, take, drop, ltb, leb, ◌==◌, if◌then◌else◌,
}
use io_uring_net_engine.Prelude.Word.{u16_mod}
use io_uring_net_engine.Prelude.Bytes.{le_bytes, le_value}
use io_uring_net_engine.Tick.{on_msg}
use io_uring_net_engine.Epoll.State.{
  Bytes, is_empty, Received, arrived, shut, Conn, Config, Server, conn_of, edit, at, lookup, store,
  add_fd,
}
use io_uring_net_engine.Epoll.Output.{
  doom, queue_send, send_or_mark, broadcast, leave_room, s_notice, s_chat, header_size, max_payload,
  tick_cap,
}

-- The bytes of a literal.
abbrev pub codes : String → Bytes
codes String.[] = []
codes (String.◌∷◌ c s) = code c ∷ codes s

abbrev pub c_set_nick : ℕ
c_set_nick = 1

abbrev pub c_join : ℕ
c_join = 2

abbrev pub c_chat : ℕ
c_chat = 3

-- k_max_payload + k_header_size + 65536
abbrev pub backlog_cap : ℕ
backlog_cap = 1024 + 4 + 65536

-- The set under a room's name, made when there is none.
abbrev pub members_of : Option (List ℕ) → List ℕ
members_of none = []
members_of (some fds) = fds

abbrev pub text_of : Option Bytes → Bytes
text_of none = []
text_of (some b) = b

-- The case c_set_nick.
unfoldable pub set_nick : Server → ℕ → Bytes → Server
set_nick s fd payload =
    let named = edit s fd (λ c. record c { nick = take 31 payload }) in
    queue_send named fd s_notice (codes "nick set to " ++ (conn_of named fd).nick)

-- A line of chat put on the room's tick buffer.
unfoldable pub record_line : Server → Bytes → Bytes → Server
record_line s room line =
    let buf = text_of (lookup s.tick_buf room) in
    if ltb tick_cap (length buf + 2 + length line)
    then record s { tick_buf = store s.tick_buf room buf; tick_dropped = s.tick_dropped + 1 }
    else record s {
      tick_buf = store s.tick_buf room (buf ++ le_bytes 2 (length line % u16_mod) ++ line);
    }

module _ (cfg : Config) where
  -- The case c_join, once the nickname and the name of the room are there.
  unfoldable pub enter_room : Server → ℕ → Bytes → Server
  enter_room s fd joined =
      let c = conn_of s fd in
      let out_of =
        if is_empty c.room
        then s
        else leave_room cfg (broadcast cfg s c.room s_notice (c.nick ++ codes " left") (some fd))
            fd in
      let placed = edit out_of fd (λ c. record c { room = joined }) in
      let inside = record placed {
        rooms = store placed.rooms joined (add_fd (members_of (lookup placed.rooms joined)) fd);
      } in
      let told = queue_send inside fd s_notice (codes "joined " ++ joined) in
      broadcast cfg told joined s_notice (c.nick ++ codes " joined") (some fd)

  -- The case c_join.
  unfoldable pub join : Server → ℕ → Bytes → Server
  join s fd payload =
      let joined = take 63 payload in
      if is_empty (conn_of s fd).nick
      then queue_send s fd s_notice (codes "set a nickname first")
      else if is_empty joined
      then queue_send s fd s_notice (codes "room name required")
      else enter_room s fd joined

  -- The case c_chat.
  unfoldable pub chat : Server → ℕ → Bytes → Server
  chat s fd payload =
      let c = conn_of s fd in
      if is_empty c.room
      then queue_send s fd s_notice (codes "join a room first")
      else (let counted = record s { tick = on_msg s.tick fd } in
          let line = c.nick ++ codes ": " ++ payload in
          if cfg.coalesce
          then record_line counted c.room line
          else broadcast cfg counted c.room s_chat line none)

  unfoldable pub handle_packet : Server → ℕ → ℕ → Bytes → Server
  handle_packet s fd type payload =
      if type == c_set_nick
      then set_nick s fd payload
      else if type == c_join
      then join s fd payload
      else if type == c_chat
      then chat s fd payload
      else doom s fd

  -- parse_frames' loop, for at most `fuel` turns.
  unfoldable pub parse_loop : ℕ → Server → ℕ → Server
  parse_loop zero s fd = s
  parse_loop (suc fuel) s fd =
      let c = conn_of s fd in
      let len = le_value (take 2 c.in_buf) in
      let type = le_value (take 2 (drop 2 c.in_buf)) in
      let handled = handle_packet s fd type (take len (drop header_size c.in_buf)) in
      let rest =
        parse_loop fuel
          (edit handled fd (λ c. record c { in_buf = drop (header_size + len) c.in_buf })) fd in
      if c.closing || ltb (length c.in_buf) header_size
      then s
      else if ltb max_payload len
      then doom s fd
      else if ltb (length c.in_buf) (header_size + len)
      then s
      else rest

  -- A turn takes at least one byte.
  unfoldable pub parse_frames : Server → ℕ → Server
  parse_frames s fd = parse_loop (length (conn_of s fd).in_buf + 1) s fd

  -- What on_readable does with bytes that have come.
  unfoldable pub take_in : Server → ℕ → Bytes → Server
  take_in s fd bytes =
      if ltb backlog_cap (length (conn_of s fd).in_buf + length bytes)
      then doom s fd
      else parse_frames (edit s fd (λ c. record c { in_buf = c.in_buf ++ bytes })) fd

  -- on_readable's loop on the results of its calls of recv.
  unfoldable pub read_loop : List Received → Server → ℕ → Server
  read_loop [] s fd = send_or_mark cfg (record s { recvs = at s.recvs fd [] }) fd
  read_loop (arrived bytes ∷ rs) s fd =
      let taken = take_in s fd bytes in
      let rest = read_loop rs taken fd in
      if (conn_of taken fd).closing then record taken { recvs = at taken.recvs fd rs } else rest
  read_loop (shut ∷ rs) s fd = doom (record s { recvs = at s.recvs fd rs }) fd
  read_loop (Received.interrupted ∷ rs) s fd = read_loop rs s fd
  read_loop (Received.failed ∷ rs) s fd = doom (record s { recvs = at s.recvs fd rs }) fd

  unfoldable pub on_readable : Server → ℕ → Server
  on_readable s fd = read_loop (s.recvs fd) s fd
