-- ===== src/Bench/Connect.antt =====
-- client-bench/src/connect.cpp: run_connect. What start_connect and epoll_ctl ADD give is an argument
-- of the phase, what epoll_wait returns a script, one entry for each turn; a script that has run out
-- stands for g_stop. The array of connections is a function of the fd. The phase prints nothing.
pub mod Counts
pub mod Events
pub mod Phases
pub mod Run
pub mod Serve
pub mod Starts
pub mod Steps
mod Tests
use io_uring_net_engine.Prelude.{
  ℕ, zero, suc, ◌+◌, ◌-◌, ◌/◌, Bool, true, false, not, ◌&&◌, ◌||◌, Option, none, some, List, [],
  ◌∷◌, ◌++◌, ltb, ◌==◌, if◌then◌else◌,
}
use io_uring_net_engine.Epoll.State.{Bytes, is_empty, Sent, Received, at}
use io_uring_net_engine.Bench.{Proto, put_frame}
use io_uring_net_engine.Bench.Conn.{ConnState, connecting, ready, dead, Conn, empty_conn}
use io_uring_net_engine.Bench.Socket.{Kernel, flush_pending, read_available}

-- start_connect, and the registration that follows it.
pub data Opened : Type 0 where
  refused : ℕ → Opened
  unwatched : ℕ → ℕ → Opened
  opened : ℕ → List Sent → List Received → Opened

-- An entry of evs, with what getsockopt says and errno after a call on it that failed.
pub record Event : Type 0 where
  pub fd : ℕ
  pub readable : Bool
  pub writable : Bool
  pub hung_up : Bool
  pub soerr : ℕ
  pub errno : ℕ

pub data Waited : Type 0 where
  interrupted : Waited
  broken : Waited
  happened : List Event → Waited

-- `interest` is what epoll watches of an fd: EPOLLIN and EPOLLOUT.
pub record Phase : Type 0 where
  pub started : ℕ
  pub established : ℕ
  pub failed : ℕ
  pub inflight : ℕ
  pub fail_reasons : List (ℕ × ℕ)
  pub conns : ℕ → Conn
  pub live : List ℕ
  pub interest : ℕ → Option (Bool × Bool)
  pub kernels : ℕ → Kernel

abbrev pub econnreset : ℕ
econnreset = 104

-- ++fail_reasons[err]
abbrev pub bump : ℕ → List (ℕ × ℕ) → List (ℕ × ℕ)
bump err [] = (err, 1) ∷ []
bump err (r ∷ rs) = if r.0 == err then (r.0, r.1 + 1) ∷ rs else r ∷ bump err rs

abbrev pub pop_back : List ℕ → List ℕ
pop_back [] = []
pop_back (x ∷ []) = []
pop_back (x ∷ (y ∷ ys)) = x ∷ pop_back (y ∷ ys)

-- erase of what find finds.
abbrev pub erase_first : List ℕ → ℕ → List ℕ
erase_first [] fd = []
erase_first (x ∷ xs) fd = if x == fd then xs else x ∷ erase_first xs fd

-- The fd is no longer watched, its entry is reset and it is closed.
unfoldable pub forget : Phase → ℕ → ℕ → Phase
forget p fd err = record p {
  failed = p.failed + 1;
  fail_reasons = bump err p.fail_reasons;
  conns = at p.conns fd empty_conn;
  interest = at p.interest fd none;
}

unfoldable pub start_one : Opened → Phase → Phase
start_one (refused err) p = record p {
  failed = p.failed + 1;
  fail_reasons = bump err p.fail_reasons;
  started = p.started + 1;
}
start_one (unwatched fd err) p = record p {
  failed = p.failed + 1;
  fail_reasons = bump err p.fail_reasons;
  conns = at p.conns fd empty_conn;
  started = p.started + 1;
}
start_one (opened fd sends recvs) p = record p {
  conns = at p.conns fd (record (p.conns fd) { state = connecting; index = p.started });
  interest = at p.interest fd (some (false, true));
  kernels = at p.kernels fd (record { sends = sends; recvs = recvs; wire = [] });
  inflight = p.inflight + 1;
  started = p.started + 1;
}

module _ (conns max_inflight : ℕ) (next : Phase → Opened) where
  -- The inner loop, for at most `fuel` turns.
  unfoldable pub start_all : ℕ → Phase → Phase
  start_all zero p = p
  start_all (suc fuel) p =
      if ltb p.inflight max_inflight && ltb p.started conns
      then start_all fuel (start_one (next p) p)
      else p

abbrev pub nothing_happened : List Event → Bool
nothing_happened [] = true
nothing_happened (e ∷ es) = false

-- The last loop, over the live connections.
abbrev pub discard : List ℕ → Phase → Phase
discard [] p = p
discard (fd ∷ fds) p =
    discard fds (record p { conns = at p.conns fd (record (p.conns fd) { rx = [] }) })

-- The part of a turn on a ready connection that writes.
unfoldable pub ready_write : Phase → Event → Bool × Phase
ready_write p e =
    let r = flush_pending (p.conns e.fd) (p.kernels e.fd) in
    let p' = record p { conns = at p.conns e.fd r.1.0; kernels = at p.kernels e.fd r.1.1 } in
    if not e.writable
    then (true, p)
    else if r.0 && is_empty r.1.0.pending
    then (true, record p' { interest = at p.interest e.fd (some (true, false)) })
    else (r.0, p')

-- The part that reads; what has come is thrown away.
unfoldable pub ready_read : Bool × Phase → Event → Bool × Phase
ready_read (alive, p) e =
    let r = read_available (p.conns e.fd) 0 (p.kernels e.fd) in
    if not (alive && e.readable) then (alive, p) else (
      r.0,
      record p {
        conns = at p.conns e.fd (record r.1.0 { rx = [] });
        kernels = at p.kernels e.fd r.1.1.1;
      },
    )

unfoldable pub ready_end : Bool × Phase → Event → Phase
ready_end (alive, p) e =
    if not alive || e.hung_up
    then forget (record p { established = p.established - 1; live = erase_first p.live e.fd }) e.fd
        (if e.errno == 0 then econnreset else e.errno)
    else p

unfoldable pub on_ready : Phase → Event → Phase
on_ready p e = ready_end (ready_read (ready_write p e) e) e

-- `to_string` is std::to_string; the others are the fields of the configuration.
module _ (proto : Proto) (to_string : ℕ → Bytes) (node per_room : ℕ) where
  abbrev pub tag : Bytes
  tag = 110 ∷ to_string node

  -- The name and the room of a client, behind what waits already.
  unfoldable pub hello : Bytes → ℕ → Bytes
  hello pending index =
      put_frame proto (put_frame proto pending proto.id_set_nick (tag ++ (99 ∷ to_string index)))
        proto.id_join (tag ++ (114 ∷ to_string (index / per_room)))

  unfoldable pub greet : Phase → Event → Phase
  greet p e =
      let c = p.conns e.fd in
      let r =
        flush_pending (record c { pending = hello c.pending c.index; state = ready })
          (p.kernels e.fd) in
      let p' = record p {
        inflight = p.inflight - 1;
        established = p.established + 1;
        live = p.live ++ (e.fd ∷ []);
        conns = at p.conns e.fd r.1.0;
        kernels = at p.kernels e.fd r.1.1;
      } in
      if not r.0
      then forget (record p' { established = p'.established - 1; live = pop_back p'.live }) e.fd
          e.errno
      else record p' { interest = at p.interest e.fd (some (true, not (is_empty r.1.0.pending))) }

  unfoldable pub on_connecting : Phase → Event → Phase
  on_connecting p e =
      if not (e.soerr == 0) || e.hung_up
      then forget (record p { inflight = p.inflight - 1 }) e.fd
          (if e.soerr == 0 then econnreset else e.soerr)
      else greet p e

  unfoldable pub by_state : ConnState → Phase → Event → Phase
  by_state ConnState.none p e = p
  by_state connecting p e = on_connecting p e
  by_state ready p e = on_ready p e
  by_state dead p e = p

  unfoldable pub on_event : Phase → Event → Phase
  on_event p e = by_state (p.conns e.fd).state p e

  abbrev pub on_events : Phase → List Event → Phase
  on_events p [] = p
  on_events p (e ∷ es) = on_events (on_event p e) es

  module _ (conns max_inflight : ℕ) (next : Phase → Opened) where
    -- The outer loop. A turn of the inner one starts a connection, of which there are `conns`.
    unfoldable pub run_loop : List Waited → Phase → Phase
    run_loop [] p = p
    run_loop (w ∷ ws) p =
        let p' = start_all conns max_inflight next conns p in
        if ltb (p.established + p.failed) conns
        then (elim w [
          | interrupted ↦ run_loop ws p'
          | broken ↦ p'
          | happened es ↦
              (if nothing_happened es && (p'.inflight == 0) && not (ltb p'.started conns)
                then p'
                else run_loop ws (on_events p' es))
        ])
        else p

    unfoldable pub run_connect : List Waited → Phase → Phase
    run_connect ws p = let p' = run_loop ws p in discard p'.live p'
