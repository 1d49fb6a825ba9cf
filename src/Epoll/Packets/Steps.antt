-- ===== src/Epoll/Packets/Steps.antt =====
-- What clients send keeps what Evolves says of a packet, and what Keeps says of input.
use io_uring_net_engine.Prelude.{
  ℕ, zero, suc, ◌+◌, ◌%◌, ◌≤◌, ◌≡◌, refl, arith, Bool, true, false, ◌||◌, Option, none, some, List,
  [], ◌∷◌, ◌++◌, length, length-append, take, drop, ltb, ◌==◌, if◌then◌else◌,
}
use io_uring_net_engine.Prelude.Bytes.{le_bytes, le_value}
use io_uring_net_engine.Tick.{on_msg}
use io_uring_net_engine.Epoll.State.{
  Bytes, is_empty, Received, arrived, shut, Config, Server, conn_of, at, lookup,
}
use io_uring_net_engine.Epoll.Output.{s_notice, s_chat, header_size, max_payload, tick_cap}
use io_uring_net_engine.Prelude.Word.{u16_mod}
use io_uring_net_engine.Epoll.Output.Stream.{AllBufs-store, AllBufs-lookup}
use io_uring_net_engine.Epoll.Output.Evolves.{
  Evolves, Evolves-refl, Evolves-trans, quiet-Evolves, other-Evolves, doom-Evolves,
}
use io_uring_net_engine.Epoll.Output.Keeps.{Keeps, Keeps-trans, Evolves-Keeps, input-Keeps}
use io_uring_net_engine.Epoll.Output.Steps.{
  choose-Evolves, unless-Evolves, queue_send-Evolves, send_or_mark-Evolves, broadcast-Evolves,
  leave_room-Evolves,
}
use io_uring_net_engine.Epoll.Packets.{
  codes, c_set_nick, c_join, c_chat, backlog_cap, text_of, set_nick, record_line, enter_room, join,
  chat, handle_packet, parse_loop, parse_frames, take_in, read_loop, on_readable,
}

set_nick-Evolves : (s : Server) (fd : ℕ) (payload : Bytes) → Evolves s (set_nick s fd payload)
unfolding set_nick
set_nick-Evolves s fd payload =
    Evolves-trans
      (quiet-Evolves s fd (λ c. record c { nick = take 31 payload }) (λ _. refl) (λ _. refl)
        (λ _. refl) (λ _. refl) (λ l. l))
      (queue_send-Evolves _ fd s_notice _)

text_fits :
    (o : Option Bytes)
    → ((v : Bytes) → o ≡ some v → length v ≤ tick_cap)
    → length (text_of o) ≤ tick_cap
text_fits none h = omega arith
text_fits (some v) h = h v refl

record_line-Evolves : (s : Server) (room line : Bytes) → Evolves s (record_line s room line)
unfolding record_line
record_line-Evolves s room line =
    choose-Evolves (ltb tick_cap (length (text_of (lookup s.tick_buf room)) + 2 + length line)) s _
      _
      (λ _. other-Evolves _ _ refl refl refl refl (λ a.
        AllBufs-store s.tick_buf room _
          (text_fits (lookup s.tick_buf room) (λ v. AllBufs-lookup s.tick_buf room v a)) a))
      (λ e. other-Evolves _ _ refl refl refl refl (
        AllBufs-store s.tick_buf room _ (
          ground (
            arith,
            e,
            length-append (text_of (lookup s.tick_buf room) ++ le_bytes 2 (length line % u16_mod))
                line,
            length-append (text_of (lookup s.tick_buf room)) (le_bytes 2 (length line % u16_mod)),
          ))))

module _ (cfg : Config) where
  enter_room-Evolves :
      (s : Server) (fd : ℕ) (joined : Bytes) → Evolves s (enter_room cfg s fd joined)
  unfolding enter_room
  enter_room-Evolves s fd joined =
      Evolves-trans
        (unless-Evolves (is_empty (conn_of s fd).room) s _ (
          Evolves-trans
            (broadcast-Evolves cfg s (conn_of s fd).room s_notice
              ((conn_of s fd).nick ++ codes " left") (some fd))
            (leave_room-Evolves cfg _ fd)))
        (Evolves-trans
          (quiet-Evolves _ fd (λ c. record c { room = joined }) (λ _. refl) (λ _. refl) (λ _. refl)
            (λ _. refl) (λ l. l))
          (Evolves-trans (other-Evolves _ _ refl refl refl refl (λ b. b)) (
            Evolves-trans (queue_send-Evolves _ fd s_notice (codes "joined " ++ joined)) (
              broadcast-Evolves cfg _ joined s_notice ((conn_of s fd).nick ++ codes " joined")
                (some fd)))))

  join-Evolves : (s : Server) (fd : ℕ) (payload : Bytes) → Evolves s (join cfg s fd payload)
  unfolding join
  join-Evolves s fd payload =
      choose-Evolves (is_empty (conn_of s fd).nick) s _ _ (λ _. queue_send-Evolves s fd s_notice _)
        (λ _.
          choose-Evolves (is_empty (take 63 payload)) s _ _
            (λ _. queue_send-Evolves s fd s_notice _)
            (λ _. enter_room-Evolves s fd (take 63 payload)))

  chat-Evolves : (s : Server) (fd : ℕ) (payload : Bytes) → Evolves s (chat cfg s fd payload)
  unfolding chat
  chat-Evolves s fd payload =
      choose-Evolves (is_empty (conn_of s fd).room) s _ _ (λ _. queue_send-Evolves s fd s_notice _)
        (λ _.
          Evolves-trans
            (other-Evolves s (record s { tick = on_msg s.tick fd }) refl refl refl refl (λ b. b))
            (choose-Evolves cfg.coalesce _ _ _ (λ _. record_line-Evolves _ (conn_of s fd).room _)
              (λ _. broadcast-Evolves cfg _ (conn_of s fd).room s_chat _ none)))

  pub handle_packet-Evolves :
      (s : Server) (fd type : ℕ) (payload : Bytes) → Evolves s (handle_packet cfg s fd type payload)
  unfolding handle_packet
  handle_packet-Evolves s fd type payload =
      choose-Evolves (type == c_set_nick) s _ _ (λ _. set_nick-Evolves s fd payload)
        (λ _.
          choose-Evolves (type == c_join) s _ _ (λ _. join-Evolves s fd payload)
            (λ _.
              choose-Evolves (type == c_chat) s _ _ (λ _. chat-Evolves s fd payload)
                (λ _. doom-Evolves s fd)))

  pub choose-Keeps :
      (b : Bool) (s t u : Server) → Keeps s t → Keeps s u → Keeps s (if b then t else u)
  choose-Keeps true s t u v w = v
  choose-Keeps false s t u v w = w

  parse_loop-Keeps : (fuel : ℕ) (s : Server) (fd : ℕ) → Keeps s (parse_loop cfg fuel s fd)
  unfolding parse_loop
  parse_loop-Keeps zero s fd = Evolves-Keeps (Evolves-refl s)
  parse_loop-Keeps (suc fuel) s fd =
      let c = conn_of s fd in
      let len = le_value (take 2 c.in_buf) in
      let type = le_value (take 2 (drop 2 c.in_buf)) in
      choose-Keeps (c.closing || ltb (length c.in_buf) header_size) s _ _
        (Evolves-Keeps (Evolves-refl s))
        (choose-Keeps (ltb max_payload len) s _ _ (Evolves-Keeps (doom-Evolves s fd)) (
          choose-Keeps (ltb (length c.in_buf) (header_size + len)) s _ _
            (Evolves-Keeps (Evolves-refl s))
            (Keeps-trans
              (Evolves-Keeps
                (handle_packet-Evolves s fd type (take len (drop header_size c.in_buf))))
              (Keeps-trans (input-Keeps _ fd (drop (header_size + len)))
                (parse_loop-Keeps fuel _ fd)))))

  parse_frames-Keeps : (s : Server) (fd : ℕ) → Keeps s (parse_frames cfg s fd)
  unfolding parse_frames
  parse_frames-Keeps s fd = parse_loop-Keeps (length (conn_of s fd).in_buf + 1) s fd

  take_in-Keeps : (s : Server) (fd : ℕ) (bytes : Bytes) → Keeps s (take_in cfg s fd bytes)
  unfolding take_in
  take_in-Keeps s fd bytes =
      choose-Keeps (ltb backlog_cap (length (conn_of s fd).in_buf + length bytes)) s _ _
        (Evolves-Keeps (doom-Evolves s fd))
        (Keeps-trans (input-Keeps s fd (λ b. b ++ bytes)) (parse_frames-Keeps _ fd))

  left-Keeps :
      (s : Server) (fd : ℕ) (left : List Received)
      → Keeps s (record s { recvs = at s.recvs fd left })
  left-Keeps s fd left =
      Evolves-Keeps
        (other-Evolves s (record s { recvs = at s.recvs fd left }) refl refl refl refl (λ b. b))

  read_loop-Keeps : (rs : List Received) (s : Server) (fd : ℕ) → Keeps s (read_loop cfg rs s fd)
  unfolding read_loop
  read_loop-Keeps [] s fd =
      Keeps-trans (left-Keeps s fd []) (Evolves-Keeps (send_or_mark-Evolves cfg _ fd))
  read_loop-Keeps (arrived bytes ∷ rs) s fd = Keeps-trans (take_in-Keeps s fd bytes) (
      choose-Keeps (conn_of (take_in cfg s fd bytes) fd).closing _ _ _ (left-Keeps _ fd rs)
        (read_loop-Keeps rs _ fd))
  read_loop-Keeps (shut ∷ rs) s fd =
      Keeps-trans (left-Keeps s fd rs) (Evolves-Keeps (doom-Evolves _ fd))
  read_loop-Keeps (Received.interrupted ∷ rs) s fd = read_loop-Keeps rs s fd
  read_loop-Keeps (Received.failed ∷ rs) s fd =
      Keeps-trans (left-Keeps s fd rs) (Evolves-Keeps (doom-Evolves _ fd))

  pub on_readable-Keeps : (s : Server) (fd : ℕ) → Keeps s (on_readable cfg s fd)
  unfolding on_readable
  on_readable-Keeps s fd = read_loop-Keeps (s.recvs fd) s fd
