-- ===== src/Epoll/Loop.antt =====
-- server-epoll/server.cpp: on_accept, flush_dirty, reap_doomed and one turn of main's event loop.
pub mod Valid
pub mod Marked
pub mod Flush
pub mod Erase
pub mod Reap
pub mod Turn
use io_uring_net_engine.Prelude.{
  ℕ, zero, suc, ◌+◌, Bool, true, false, not, ◌&&◌, ◌||◌, Option, none, some, List, [], ◌∷◌, ◌++◌,
  length, get_or, ltb, leb, if◌then◌else◌,
}
use io_uring_net_engine.Tick.{
  session_add, session_remove, drain_begin, drain_end, flush_begin, flush_end, maybe_tick, due,
}
use io_uring_net_engine.Epoll.State.{
  Bytes, is_empty, Conn, fresh_conn, Config, Server, has_conn, erase_conn, conn_of, edit, at,
}
use io_uring_net_engine.Epoll.Output.{
  doom, flush_send, broadcast, leave_room, flush_tick_rooms, s_notice,
}
use io_uring_net_engine.Epoll.Packets.{codes, on_readable}

-- What accept4 returns: an fd, and whether epoll_ctl ADD then takes it; EINTR or ECONNABORTED; EMFILE
-- or ENFILE, and whether the reserve opens again; or another errno.
pub data Accepted : Type 0 where
  connected : (fd : ℕ) (add_ok : Bool) → Accepted
  retry : Accepted
  no_fds : (reopened : Bool) → Accepted
  failed : Accepted

pub data Event : Type 0 where
  listener : List Accepted → Event
  signal : Event
  ready : (fd : ℕ) (hang_up writable readable : Bool) → Event

-- The clock's readings in one turn.
pub record Clock : Type 0 where
  pub drain_start : ℕ
  pub drain_stop : ℕ
  pub tick_start : ℕ
  pub tick_stop : ℕ
  pub flush_start : ℕ
  pub flush_stop : ℕ

module _ (cfg : Config) where
  -- emplace adds nothing under a key that is there; the kernel gives no fd that is open. The kernel
  -- has taken nothing for a new connection.
  unfoldable pub admit : Server → ℕ → Bool → Server
  admit s fd add_ok =
      if leb cfg.max_conns (length s.conns) then s else if not add_ok then s else record s {
        conns = if has_conn s.conns fd then s.conns else fresh_conn fd ∷ s.conns;
        tick = session_add s.tick fd;
        wire = if has_conn s.conns fd then s.wire else at s.wire fd [];
      }

  -- on_accept's loop on the results of its calls of accept4.
  unfoldable pub on_accept : List Accepted → Server → Server
  on_accept [] s = s
  on_accept (connected fd add_ok ∷ rs) s = on_accept rs (admit s fd add_ok)
  on_accept (retry ∷ rs) s = on_accept rs s
  on_accept (no_fds reopened ∷ rs) s = if s.reserve then record s { reserve = reopened } else s
  on_accept (failed ∷ rs) s = s

  unfoldable pub flush_one : Server → ℕ → Server
  flush_one s fd =
      let clean = edit s fd (λ c. record c { dirty = false }) in
      if (conn_of s fd).closing then clean else flush_send cfg clean fd

  -- The loop's bound stays, since flush_send puts nothing on the list.
  unfoldable pub flush_all : List ℕ → Server → Server
  flush_all [] s = s
  flush_all (fd ∷ fds) s = flush_all fds (flush_one s fd)

  unfoldable pub flush_dirty : Server → Server
  flush_dirty s = record (flush_all s.dirty_fds s) { dirty_fds = [] }

  unfoldable pub reap_one : Server → ℕ → Server
  reap_one s fd =
      let c = conn_of s fd in
      let left = leave_room cfg s fd in
      let told =
        if not (is_empty c.room) && not (is_empty c.nick)
        then broadcast cfg left c.room s_notice (c.nick ++ codes " left") (some fd)
        else left in
      if has_conn s.conns fd
      then record told { conns = erase_conn told.conns fd; tick = session_remove told.tick fd }
      else s

  -- reap_doomed's index loop, for at most `fuel` turns: the list grows under it.
  unfoldable pub reap_loop : ℕ → ℕ → Server → Server
  reap_loop zero i s = s
  reap_loop (suc fuel) i s =
      let rest = reap_loop fuel (i + 1) (reap_one s (get_or s.doomed i 0)) in
      if ltb i (length s.doomed) then rest else s

  unfoldable pub reap_doomed : Server → Server
  reap_doomed s = record (reap_loop (length s.doomed + length s.conns) 0 s) { doomed = [] }

  -- One event of the batch; the flag says whether the server goes on.
  unfoldable pub handle_event : Server → Event → Bool → Server × Bool
  handle_event s (listener rs) running = (on_accept rs s, running)
  handle_event s signal running = (s, false)
  handle_event s (ready fd hang_up writable readable) running =
      let sent = if writable then flush_send cfg s fd else s in
      let done =
        if (conn_of s fd).closing
        then s
        else if hang_up
        then doom s fd
        else if not (conn_of sent fd).closing && readable
        then on_readable cfg sent fd
        else sent in
      (done, running)

  unfoldable pub handle_events : List Event → Server → Bool → Server × Bool
  handle_events [] s running = (s, running)
  handle_events (e ∷ es) s running =
      let (s', running') = handle_event s e running in handle_events es s' running'

  -- The flush and the reap at the end of a turn.
  unfoldable pub tail : Server → Server
  tail s = if cfg.batch_flush then flush_dirty (reap_doomed (flush_dirty s)) else reap_doomed s

  -- A turn of the loop, once epoll has returned events.
  unfoldable pub turn : Server → List Event → Clock → Server × Bool
  turn s es now =
      let begun = record s { tick = drain_begin s.tick now.drain_start } in
      let (drained, running) = handle_events es begun true in
      let drained = record drained { tick = drain_end drained.tick now.drain_stop } in
      let fired = due drained.tick now.tick_start in
      let ticked = if fired && cfg.coalesce then flush_tick_rooms cfg drained else drained in
      let ticked = record ticked { tick = maybe_tick ticked.tick now.tick_start now.tick_stop } in
      let flushed = tail (record ticked { tick = flush_begin ticked.tick now.flush_start }) in
      (record flushed { tick = flush_end flushed.tick now.flush_stop }, running)
