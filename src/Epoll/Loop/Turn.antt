-- ===== src/Epoll/Loop/Turn.antt =====
-- server-epoll/server.cpp: one turn of the event loop, whatever the events and the system calls are.
use io_uring_net_engine.Prelude.{
  ℕ, refl, Bool, true, false, not, ◌&&◌, List, [], ◌∷◌, if◌then◌else◌,
}
use io_uring_net_engine.Tick.{Tick, drain_begin, drain_end, due}
use io_uring_net_engine.Epoll.State.{Config, Server, conn_of}
use io_uring_net_engine.Epoll.Output.{flush_send}
use io_uring_net_engine.Epoll.Output.Evolves.{Evolves-refl, other-Evolves, doom-Evolves}
use io_uring_net_engine.Epoll.Output.Keeps.{Keeps, Keeps-trans, Evolves-Keeps}
use io_uring_net_engine.Epoll.Output.Steps.{
  choose-Evolves, flush_send-Evolves, flush_tick_rooms-Evolves,
}
use io_uring_net_engine.Epoll.Packets.Steps.{choose-Keeps, on_readable-Keeps}
use io_uring_net_engine.Epoll.Loop.{
  Event, listener, signal, ready, Clock, flush_dirty, reap_doomed, handle_event, handle_events,
  tail, turn,
}
use io_uring_net_engine.Epoll.Loop.Valid.{Valid, keep-Valid, on_accept-Valid}
use io_uring_net_engine.Epoll.Loop.Flush.{flush_dirty-Valid}
use io_uring_net_engine.Epoll.Loop.Reap.{reap_doomed-Open}

module _ (cfg : Config) where
  ready-Keeps :
      (s : Server) (fd : ℕ) (hang_up writable readable running : Bool)
      → Keeps s (handle_event cfg s (ready fd hang_up writable readable) running).0
  unfolding handle_event
  ready-Keeps s fd hang_up writable readable running =
      let sent = if writable then flush_send cfg s fd else s in
      let sends =
        Evolves-Keeps (
          choose-Evolves writable s _ s (λ _. flush_send-Evolves cfg s fd) (λ _. Evolves-refl s)) in
      choose-Keeps cfg (conn_of s fd).closing s _ _ (Evolves-Keeps (Evolves-refl s)) (
        choose-Keeps cfg hang_up s _ _ (Evolves-Keeps (doom-Evolves s fd)) (
          choose-Keeps cfg (not (conn_of sent fd).closing && readable) s _ _
            (Keeps-trans sends (on_readable-Keeps cfg sent fd)) sends))

  event-Valid :
      (s : Server) (e : Event) (running : Bool)
      → Valid cfg s
      → Valid cfg (handle_event cfg s e running).0
  unfolding handle_event
  event-Valid s (listener rs) running v = on_accept-Valid cfg rs s v
  event-Valid s signal running v = v
  event-Valid s (ready fd hang_up writable readable) running v =
      keep-Valid cfg s _ (ready-Keeps s fd hang_up writable readable running) v

  events-Valid :
      (es : List Event) (s : Server) (running : Bool)
      → Valid cfg s
      → Valid cfg (handle_events cfg es s running).0
  unfolding handle_events
  events-Valid [] s running v = v
  events-Valid (e ∷ es) s running v = events-Valid es _ _ (event-Valid s e running v)

  -- The hooks of the tick touch no connection.
  tick-Valid : (s : Server) (g : Tick) → Valid cfg s → Valid cfg (record s { tick = g })
  tick-Valid s g v =
      keep-Valid cfg s _
        (Evolves-Keeps (other-Evolves s (record s { tick = g }) refl refl refl refl (λ b. b))) v

  tail-Valid : (s : Server) → Valid cfg s → Valid cfg (tail cfg s)
  unfolding tail
  tail-Valid s v = both cfg.batch_flush
    where
      reaps : (u : Server) → Valid cfg u → Valid cfg (reap_doomed cfg u)
      reaps u w = (reap_doomed-Open cfg u w).1.1

      both :
          (b : Bool)
          → Valid cfg (
              if b
              then flush_dirty cfg (reap_doomed cfg (flush_dirty cfg s))
              else reap_doomed cfg s)
      both true = flush_dirty-Valid cfg _ (reaps _ (flush_dirty-Valid cfg s v))
      both false = reaps s v

  -- A turn of the event loop keeps a state valid, whatever the events are and whatever accept, recv,
  -- send and epoll_ctl return: no send buffer is over the cap, the fds are distinct and no more than
  -- the configured number, a closing connection is on the list of the doomed, and one that is marked
  -- as dirty is on the list of the flush pass, no room's tick buffer is over its cap, and what the
  -- kernel has taken for a connection, with what is queued behind, is a sequence of whole packets with
  -- payloads of at most 32 KiB.
  pub turn-Valid :
      (s : Server) (es : List Event) (now : Clock) → Valid cfg s → Valid cfg (turn cfg s es now).0
  unfolding turn
  turn-Valid s es now v =
      let begun = record s { tick = drain_begin s.tick now.drain_start } in
      let drained = events-Valid es begun true (tick-Valid s _ v) in
      let ended =
        tick-Valid _ (drain_end (handle_events cfg es begun true).0.tick now.drain_stop) drained in
      let ticked =
        keep-Valid cfg _ _
          (Evolves-Keeps (
            choose-Evolves
              (due (drain_end (handle_events cfg es begun true).0.tick now.drain_stop)
                  now.tick_start
                && cfg.coalesce)
              _ _ _ (λ _. flush_tick_rooms-Evolves cfg _ ended.sound) (λ _. Evolves-refl _)))
          ended in
      tick-Valid _ _ (tail-Valid _ (tick-Valid _ _ ticked))
