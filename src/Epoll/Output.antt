-- ===== src/Epoll/Output.antt =====
-- server-epoll/server.cpp: doom, the two queue functions, flush_send, broadcast, and the rooms' tick
-- buffers.
use io_uring_net_engine.Prelude.{
  ℕ, zero, suc, ◌+◌, ◌*◌, ◌%◌, Bool, true, false, not, ◌&&◌, ◌||◌, Option, none, some, List, [],
  ◌∷◌, ◌++◌, length, take, drop, ltb, leb, ◌==◌, if◌then◌else◌,
}
use io_uring_net_engine.Prelude.Word.{u16_mod}
use io_uring_net_engine.Message.{AppMsgHeader}
use io_uring_net_engine.Prelude.Bytes.{le_bytes}
use io_uring_net_engine.Epoll.State.{
  Bytes, is_empty, same_bytes, Sent, accepted, Conn, Config, Server, find_conn, has_conn, edit_conn,
  conn_of, edit, at, lookup, store, discard, remove_fd,
}
pub mod Evolves
pub mod Keeps
pub mod Steps
pub mod Stream
pub mod Flush
pub mod Settles

abbrev pub s_notice : ℕ
s_notice = 100

abbrev pub s_chat : ℕ
s_chat = 101

abbrev pub s_tick : ℕ
s_tick = 102

abbrev pub header_size : ℕ
header_size = 4

abbrev pub max_payload : ℕ
max_payload = 1024

abbrev pub tick_cap : ℕ
tick_cap = 32 * 1024

abbrev pub send_cap : ℕ
send_cap = 256 * 1024

-- A wire_header and the payload behind it.
abbrev pub frame : ℕ → Bytes → Bytes
frame type payload = le_bytes 2 (length payload % u16_mod) ++ le_bytes 2 type ++ payload

unfoldable pub doom : Server → ℕ → Server
doom s fd =
    if (conn_of s fd).closing
    then s
    else record (edit s fd (λ c. record c { closing = true })) { doomed = s.doomed ++ fd ∷ [] }

-- The cap and the append that queue_send and queue_tick_frame share.
unfoldable pub append_frame : Server → ℕ → ℕ → Bytes → Server
append_frame s fd type payload =
    if ltb send_cap (length (conn_of s fd).out + header_size + length payload)
    then doom s fd
    else edit s fd (λ c. record c { out = c.out ++ frame type payload })

unfoldable pub queue_send : Server → ℕ → ℕ → Bytes → Server
queue_send s fd type payload =
    if (conn_of s fd).closing
    then s
    else if ltb max_payload (length payload)
    then s
    else append_frame s fd type payload

unfoldable pub queue_tick_frame : Server → ℕ → Bytes → Server
queue_tick_frame s fd payload =
    if (conn_of s fd).closing then s else append_frame s fd s_tick payload

-- fd == except_fd, where `none` is -1.
abbrev pub is_fd : Option ℕ → ℕ → Bool
is_fd none fd = false
is_fd (some x) fd = fd == x

-- The kernel takes the first `n` bytes.
abbrev pub transmit : Server → ℕ → ℕ → Server
transmit s fd n = record (edit s fd (λ c. record c { out = drop n c.out })) {
  wire = at s.wire fd (s.wire fd ++ take n (conn_of s fd).out);
}

module _ (cfg : Config) where
  unfoldable pub update_epoll_mask : Server → ℕ → Server
  update_epoll_mask s fd =
      let want_write = not (is_empty (conn_of s fd).out) in
      if (if want_write then (conn_of s fd).armed_write else not (conn_of s fd).armed_write)
      then s
      else if cfg.mod_ok s fd
      then edit s fd (λ c. record c { armed_write = want_write })
      else s

  -- flush_send's loop on the results of its calls of send. A result of 0 is not an error that says
  -- EAGAIN, so it dooms.
  unfoldable pub flush_loop : List Sent → Server → ℕ → Server
  flush_loop [] s fd = update_epoll_mask (record s { sends = at s.sends fd [] }) fd
  flush_loop (r ∷ rs) s fd =
      if is_empty (conn_of s fd).out
      then update_epoll_mask (record s { sends = at s.sends fd (r ∷ rs) }) fd
      else (elim r [
        | accepted zero ↦ doom (record s { sends = at s.sends fd rs }) fd
        | accepted (suc n) ↦ flush_loop rs (transmit s fd (suc n)) fd
        | Sent.interrupted ↦ flush_loop rs s fd
        | Sent.failed ↦ doom (record s { sends = at s.sends fd rs }) fd
      ])

  unfoldable pub flush_send : Server → ℕ → Server
  flush_send s fd = flush_loop (s.sends fd) s fd

  -- In batch mode, the connection is put on the list of the flush pass; otherwise it is flushed.
  unfoldable pub send_or_mark : Server → ℕ → Server
  send_or_mark s fd =
      if not cfg.batch_flush
      then flush_send s fd
      else if not (conn_of s fd).dirty && not (is_empty (conn_of s fd).out)
      then record (edit s fd (λ c. record c { dirty = true })) {
        dirty_fds = s.dirty_fds ++ fd ∷ [];
      }
      else s

  -- broadcast's loop over the members of the room.
  unfoldable pub broadcast_to : List ℕ → Server → ℕ → Bytes → Option ℕ → Server
  broadcast_to [] s type payload except_fd = s
  broadcast_to (fd ∷ fds) s type payload except_fd =
      let s' =
        if is_fd except_fd fd
        then s
        else if (conn_of s fd).closing
        then s
        else send_or_mark (queue_send s fd type payload) fd in
      broadcast_to fds s' type payload except_fd

  unfoldable pub broadcast : Server → Bytes → ℕ → Bytes → Option ℕ → Server
  broadcast s room type payload except_fd = elim (lookup s.rooms room) [
    | some fds ↦ broadcast_to fds s type payload except_fd
    | none ↦ s
  ]

  -- leave_room's work on the room, as found in the map.
  unfoldable pub drop_member : Server → ℕ → Bytes → Option (List ℕ) → Server
  drop_member s fd room none = s
  drop_member s fd room (some fds) =
      let rest = remove_fd fds fd in
      if is_empty rest
      then record s {
        rooms = discard s.rooms room;
        tick_buf = if cfg.coalesce then discard s.tick_buf room else s.tick_buf;
      }
      else record s { rooms = store s.rooms room rest }

  unfoldable pub leave_room : Server → ℕ → Server
  leave_room s fd =
      let room = (conn_of s fd).room in
      if is_empty room
      then s
      else edit (drop_member s fd room (lookup s.rooms room)) fd (λ c. record c { room = [] })

  -- The members of one room, each with the room's buffer as one frame.
  unfoldable pub tick_members : List ℕ → Server → Bytes → Server
  tick_members [] s buf = s
  tick_members (fd ∷ fds) s buf =
      let s' =
        if (conn_of s fd).closing
        then s
        else (let queued = queue_tick_frame s fd buf in
            send_or_mark (record queued { tick_frames = queued.tick_frames + 1 }) fd) in
      tick_members fds s' buf

  unfoldable pub tick_room : Option (List ℕ) → Server → Bytes → Server
  tick_room none s buf = s
  tick_room (some fds) s buf = tick_members fds s buf

  unfoldable pub tick_rooms : List (Bytes × Bytes) → Server → Server
  tick_rooms [] s = s
  tick_rooms (e ∷ es) s =
      let sent = tick_room (lookup s.rooms e.0) s e.1 in
      let s' = if is_empty e.1 then s else record sent { tick_buf = store sent.tick_buf e.0 [] } in
      tick_rooms es s'

  unfoldable pub flush_tick_rooms : Server → Server
  flush_tick_rooms s = tick_rooms s.tick_buf s
