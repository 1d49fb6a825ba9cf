-- ===== src/Bench/Traffic.antt =====
-- client-bench/src/traffic.cpp: the send schedule of run_traffic, the service of a socket that is
-- ready, and what report makes of a run. Times are numbers of nanoseconds that are not negative; the
-- clock's readings are arguments, and so is what report computes in floating point.
pub mod Messages
pub mod Schedule
pub mod Service
mod Tests
pub mod Blob
use io_uring_net_engine.Prelude.{
  ℕ, zero, suc, ◌+◌, ◌-◌, ◌*◌, ◌/◌, ◌%◌, ◌^◌, Bool, true, false, not, ◌&&◌, ◌||◌, Option, none,
  some, List, [], ◌∷◌, ◌++◌, length, take, get_or, min, ltb, leb, ◌==◌, if◌then◌else◌,
}
use Prim.Native.Nat.{max}
use io_uring_net_engine.Prelude.Word.{u32_mod}
use io_uring_net_engine.Prelude.Bytes.{le_bytes}
use io_uring_net_engine.Tick.Histogram.{Hist, add, pct}
use io_uring_net_engine.Epoll.State.{Bytes, is_empty, at}
use io_uring_net_engine.Bench.{
  Proto, Stats, wire_header_size, blob_header, put_header, consume_frames,
}
use io_uring_net_engine.Bench.Config.{max_blob}
use io_uring_net_engine.Bench.Conn.{ConnState, ready, dead, Conn}
use io_uring_net_engine.Bench.Connect.{Event}
use io_uring_net_engine.Bench.Corpus.{Corpus, next}
use io_uring_net_engine.Bench.Socket.{Kernel, flush_pending, read_available, send_frame}

-- What does not change during a run: of the configuration, and what run_traffic computes first.
pub record Plan : Type 0 where
  pub proto : Proto
  pub node : ℕ
  pub use_corpus : Bool
  pub size_mix : Bool
  pub size : ℕ
  pub live : List ℕ
  pub start : ℕ
  pub slot : ℕ

-- run_traffic's variables and traffic_stats.
pub record Traffic : Type 0 where
  pub m : ℕ
  pub class_cursor : ℕ
  pub body : Corpus
  pub conns : ℕ → Conn
  pub interest : ℕ → Option (Bool × Bool)
  pub kernels : ℕ → Kernel
  pub self_lag : Hist
  pub sent : ℕ
  pub bytes_in : ℕ
  pub backpressed : ℕ
  pub lost_conns : ℕ
  pub received : Stats

abbrev pub size_classes : List ℕ
size_classes = 16 ∷ 32 ∷ 256 ∷ 1000 ∷ []

-- The first bytes of the filler, from its byte `i` on.
abbrev pub filler : ℕ → ℕ → Bytes
filler i zero = []
filler i (suc n) = (97 + i % 26) ∷ filler (i + 1) n

-- When message `m` is due.
abbrev pub due : Plan → ℕ → ℕ
due p m = p.start + m * p.slot

abbrev pub max_burst : Plan → ℕ
max_burst p = max 1024 (length p.live / 8)

-- The part of a blob in front of its text.
unfoldable pub blob_front : ℕ → ℕ → ℕ → ℕ → Bytes
blob_front intended seq node index =
    le_bytes 8 intended ++ (le_bytes 4 seq ++ (le_bytes 4 node ++ le_bytes 4 index))

module _ (p : Plan) where
  -- The text of the next message, and the cursors behind it.
  unfoldable pub next_text : Traffic → Bytes × Traffic
  next_text t =
      if p.use_corpus
      then ((next t.body).0, record t { body = (next t.body).1 })
      else if p.size_mix
      then (
        filler 0 (min (get_or size_classes (t.class_cursor % 4) 0) (max_blob - blob_header)),
        record t { class_cursor = t.class_cursor + 1 },
      )
      else (filler 0 (min p.size (max_blob - blob_header)), t)

  unfoldable pub chat_frame : ℕ → Conn → Bytes → Bytes
  chat_frame intended c text =
      let blob = blob_front intended c.seq p.node c.index ++ text in
      put_header p.proto p.proto.id_chat (length blob) ++ blob

  -- What send_frame's result does to the connection.
  unfoldable pub after_send : ℕ → Bool × (Conn × Kernel) → Traffic → Traffic
  after_send fd r t =
      let t' = record t { conns = at t.conns fd r.1.0; kernels = at t.kernels fd r.1.1 } in
      if not r.0
      then record t' { conns = at t'.conns fd (record r.1.0 { state = dead }) }
      else if is_empty r.1.0.pending
      then t'
      else record t' { interest = at t.interest fd (some (true, true)) }

  -- A message to a connection that is ready and not backpressured.
  unfoldable pub send_one : ℕ → ℕ → Traffic → Traffic
  send_one fd intended t =
      let text = next_text t in
      let c = t.conns fd in
      let r =
        send_frame (record c { seq = (c.seq + 1) % u32_mod }) (chat_frame intended c text.0)
          (t.kernels fd) in
      after_send fd r (record text.1 { sent = t.sent + 1 })

  abbrev pub is_live : ConnState → Bool
  is_live ConnState.none = false
  is_live ConnState.connecting = false
  is_live ready = true
  is_live dead = false

  -- A turn of the inner loop behind its test.
  unfoldable pub issue_one : ℕ → Traffic → Traffic
  issue_one loop_ts t =
      let fd = get_or p.live (t.m % length p.live) 0 in
      let intended = due p t.m in
      let counted = record t { m = t.m + 1 } in
      let late = record counted { self_lag = add t.self_lag (loop_ts - intended) } in
      if not (is_live (t.conns fd).state)
      then counted
      else if ltb (64 * 1024) (length (t.conns fd).pending)
      then record late { backpressed = t.backpressed + 1 }
      else send_one fd intended late

  -- The inner loop, with what is left of the burst.
  unfoldable pub issue : ℕ → ℕ → Traffic → Traffic
  issue zero loop_ts t = t
  issue (suc left) loop_ts t =
      let rest = issue left loop_ts (issue_one loop_ts t) in
      if ltb loop_ts (due p t.m) then t else rest

  -- What a turn of the outer loop issues.
  abbrev pub issue_due : ℕ → Traffic → Traffic
  issue_due loop_ts t = issue (max_burst p) loop_ts t

  -- How long epoll_wait may take, in milliseconds.
  unfoldable pub wait_ms : ℕ → Traffic → ℕ
  wait_ms now t = min 10 ((due p t.m - now) / 1000000)

  -- A socket's turn in the walk over the events, read at `now`.
  unfoldable pub service_write : Traffic → Event → Bool × Traffic
  service_write t e =
      let r = flush_pending (t.conns e.fd) (t.kernels e.fd) in
      let t' = record t { conns = at t.conns e.fd r.1.0; kernels = at t.kernels e.fd r.1.1 } in
      if not e.writable
      then (true, t)
      else if r.0 && is_empty r.1.0.pending
      then (true, record t' { interest = at t.interest e.fd (some (true, false)) })
      else (r.0, t')

  unfoldable pub service_read : ℕ → Bool × Traffic → Event → Bool × Traffic
  service_read now (alive, t) e =
      let r = read_available (t.conns e.fd) t.bytes_in (t.kernels e.fd) in
      let f = consume_frames p.proto p.node now r.1.0.rx t.received in
      if not (alive && e.readable) then (alive, t) else (
        r.0,
        record t {
          conns = at t.conns e.fd (record r.1.0 { rx = f.1 });
          kernels = at t.kernels e.fd r.1.1.1;
          bytes_in = r.1.1.0;
          received = f.0;
        },
      )

  unfoldable pub service_end : Bool × Traffic → Event → Traffic
  service_end (alive, t) e =
      if not alive || e.hung_up
      then record t {
        conns = at t.conns e.fd (record (t.conns e.fd) { state = dead });
        interest = at t.interest e.fd none;
        lost_conns = t.lost_conns + 1;
      }
      else t

  unfoldable pub service : ℕ → Traffic → Event → Traffic
  service now t e =
      if not (is_live (t.conns e.fd).state)
      then t
      else service_end (service_read now (service_write t e) e) e
