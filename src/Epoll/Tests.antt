-- ===== src/Epoll/Tests.antt =====
-- A server with two members of one room, one of them closing: runs of the code, and each theorem at
-- an input that meets its hypotheses.
use io_uring_net_engine.Prelude.{
  ℕ, ◌≡◌, refl, arith, true, false, List, [], ◌∷◌, ◌++◌, ◌==◌, Bool-cases, inl, inr,
}
use io_uring_net_engine.Tick.{Tick}
use io_uring_net_engine.Tick.Histogram.{Hist}
use io_uring_net_engine.Epoll.State.{
  accepted, arrived, Conn, fresh_conn, Config, Server, find_conn, has_conn, edit_conn, erase_conn,
  conn_of, lookup, store, discard, member, remove_fd,
}
use io_uring_net_engine.Epoll.State.Edits.{AllConns}
use io_uring_net_engine.Epoll.Output.{
  frame, flush_send, flush_loop, update_epoll_mask, leave_room, drop_member, broadcast,
  broadcast_to, queue_send, append_frame, send_or_mark,
}
use io_uring_net_engine.Epoll.Output.Flush.{Armed, stream-flush_send, flush_send-Armed}
use io_uring_net_engine.Epoll.Output.Stream.{Framed, stream, encode}
use io_uring_net_engine.Epoll.Packets.{parse_frames}
use io_uring_net_engine.Epoll.Packets.Frames.{serve, parse_frames-serve}
use io_uring_net_engine.Epoll.Loop.{
  Event, listener, ready, connected, Clock, flush_dirty, reap_one, reap_loop, reap_doomed, turn,
}
use io_uring_net_engine.Epoll.Loop.Valid.{Valid}
use io_uring_net_engine.Epoll.Loop.Flush.{Pass, flush_dirty-Clean}
use io_uring_net_engine.Epoll.Loop.Reap.{Open, reap_doomed-Open}
use io_uring_net_engine.Epoll.Loop.Turn.{turn-Valid}

abbrev cfg : Config
cfg = record { batch_flush = true; coalesce = false; max_conns = 4; mod_ok = λ _ _. true }

abbrev no_samples : Hist
no_samples = record { counts = []; total = 0; overflow = 0; max_ns = 0; min_ns = 0 }

abbrev no_tick : Tick
no_tick = record {
  enabled = false;
  period = 0;
  slots = 0;
  live = [];
  live_n = 0;
  deadline = 0;
  drain_acc = 0;
  flush_acc = 0;
  wakes = 0;
  t_mark = 0;
  ticks = 0;
  overruns = 0;
  msgs = 0;
  h_drain = no_samples;
  h_tick = no_samples;
  h_flush = no_samples;
  h_wakes = no_samples;
}

abbrev leaver : Conn
leaver = record (fresh_conn 5) { nick = 97 ∷ []; room = 114 ∷ []; closing = true }

abbrev reader : Conn
reader = record (fresh_conn 6) {
  nick = 98 ∷ [];
  room = 114 ∷ [];
  out = frame 100 (1 ∷ []);
  dirty = true;
  in_buf = encode ((1, 65 ∷ 66 ∷ []) ∷ (3, 67 ∷ []) ∷ []) ++ 3 ∷ [];
}

-- The kernel takes two bytes of what waits for fd 6.
abbrev busy : Server
busy = record {
  conns = leaver ∷ reader ∷ [];
  rooms = (114 ∷ [], 5 ∷ 6 ∷ []) ∷ [];
  doomed = 5 ∷ [];
  dirty_fds = 6 ∷ [];
  tick_buf = [];
  tick_frames = 0;
  tick_dropped = 0;
  tick = no_tick;
  reserve = true;
  sends = λ _. accepted 2 ∷ [];
  recvs = λ _. arrived (0 ∷ []) ∷ [];
  wire = λ _. [];
}

busy-Framed : (fd : ℕ) → has_conn busy.conns fd ≡ true → Framed (stream busy fd)
unfolding has_conn find_conn
busy-Framed fd h = elim (Bool-cases (5 == fd)) [
  | inl e ↦ rw e ([], (tt, refl))
  | inr e ↦ elim (Bool-cases (6 == fd)) [
    | inl f ↦ rw (e, f) ((100, 1 ∷ []) ∷ [], ((omega arith, tt), refl))
    | inr f ↦ absurd (ground (arith, h, e, f))
  ]
]

busy-Valid : Valid cfg busy
unfolding member
busy-Valid = record {
  sound = record {
    bounded = (omega arith, (omega arith, tt));
    recorded = (refl, (refl, tt));
    listed = (refl, (refl, tt));
    buffers = tt;
  };
  distinct = (refl, (refl, tt));
  within = omega arith;
  framed = busy-Framed;
}

-- The reap tells the member that stays.
reaps :
    (conn_of (reap_doomed cfg busy) 6).out
    ≡ frame 100 (1 ∷ []) ++ frame 100 (97 ∷ 32 ∷ 108 ∷ 101 ∷ 102 ∷ 116 ∷ [])
unfolding reap_doomed reap_loop reap_one leave_room drop_member broadcast broadcast_to queue_send
    append_frame send_or_mark lookup store discard remove_fd find_conn has_conn edit_conn erase_conn
reaps = refl

sends_two : (flush_send cfg busy 6).wire 6 ≡ 1 ∷ 0 ∷ []
unfolding flush_send flush_loop update_epoll_mask find_conn edit_conn
sends_two = refl

abbrev now : Clock
now = record {
  drain_start = 0;
  drain_stop = 1;
  tick_start = 1;
  tick_stop = 2;
  flush_start = 2;
  flush_stop = 3;
}

abbrev events : List Event
events = listener (connected 7 true ∷ []) ∷ ready 6 false true true ∷ []

turn-Valid_example : Valid cfg (turn cfg busy events now).0
turn-Valid_example = turn-Valid cfg busy events now busy-Valid

reap_doomed-Open_example :
    AllConns Open (reap_doomed cfg busy).conns
    × (((reap_doomed cfg busy).doomed ≡ []) × Valid cfg (reap_doomed cfg busy))
reap_doomed-Open_example = reap_doomed-Open cfg busy busy-Valid

flush_dirty-Clean_example : Pass cfg busy (flush_dirty cfg busy)
flush_dirty-Clean_example = flush_dirty-Clean cfg busy busy-Valid

stream-flush_send_example : stream (flush_send cfg busy 6) 6 ≡ stream busy 6
stream-flush_send_example = stream-flush_send cfg busy 6 6

here : has_conn busy.conns 6 ≡ true
unfolding has_conn
here = refl

flush_send-Armed_example : Armed (conn_of (flush_send cfg busy 6) 6)
flush_send-Armed_example = flush_send-Armed cfg busy 6 (λ _. refl) here

unread : (conn_of busy 6).in_buf ≡ encode ((1, 65 ∷ 66 ∷ []) ∷ (3, 67 ∷ []) ∷ []) ++ 3 ∷ []
unfolding find_conn
unread = refl

parse_frames-serve_example :
    parse_frames cfg busy 6 ≡ serve cfg ((1, 65 ∷ 66 ∷ []) ∷ (3, 67 ∷ []) ∷ []) (3 ∷ []) busy 6
parse_frames-serve_example =
    parse_frames-serve cfg 6 ((1, 65 ∷ 66 ∷ []) ∷ (3, 67 ∷ []) ∷ []) (3 ∷ []) busy
      ((omega arith, omega arith), ((omega arith, omega arith), tt)) refl unread
