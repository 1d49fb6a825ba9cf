-- ===== src/Bench/Tests.antt =====
-- Frames as the epoll server sends them, read by the load generator: runs of the code, and each
-- theorem at an input that meets its hypotheses.
use io_uring_net_engine.Prelude.{
  ℕ, ◌≡◌, refl, arith, true, false, List, [], ◌∷◌, ◌++◌, ◌==◌, Bool-cases, inl, inr,
}
use io_uring_net_engine.Tick.{Tick}
use io_uring_net_engine.Tick.Histogram.{Hist}
use io_uring_net_engine.Epoll.State.{
  Bytes, Conn, fresh_conn, Config, Server, find_conn, has_conn, member, lookup,
}
use io_uring_net_engine.Epoll.Output.{frame}
use io_uring_net_engine.Epoll.Output.Stream.{Framed, stream, encode}
use io_uring_net_engine.Epoll.Packets.{text_of}
use io_uring_net_engine.Epoll.Loop.Valid.{Valid}
use io_uring_net_engine.Bench.{
  Proto, Stats, put_frame, put_header, payload_len, deliver, sample, sample_blob, entries, on_frame,
  consume_loop, consume_frames,
}
use io_uring_net_engine.Bench.Frames.{pack, deliver_all, putted, on_frames, consume_frames-putted}
use io_uring_net_engine.Bench.Server.{
  study, as_sent, record_lines, consume_frames-stream, record_lines-deliver_all,
}

abbrev cfg : Config
cfg = record { batch_flush = true; coalesce = false; max_conns = 4; mod_ok = λ _ _. true }

abbrev no_samples : Hist
no_samples = record { counts = []; total = 0; overflow = 0; max_ns = 0; min_ns = 0 }

abbrev no_tick : Tick
no_tick = record {
  enabled = false;
  period = 0;
  slots = 0;
  live = [];
  live_n = 0;
  deadline = 0;
  drain_acc = 0;
  flush_acc = 0;
  wakes = 0;
  t_mark = 0;
  ticks = 0;
  overruns = 0;
  msgs = 0;
  h_drain = no_samples;
  h_tick = no_samples;
  h_flush = no_samples;
  h_wakes = no_samples;
}

abbrev client : Conn
client = record (fresh_conn 6) { nick = 98 ∷ []; room = 114 ∷ []; out = frame 100 (1 ∷ []) }

abbrev serving : Server
serving = record {
  conns = client ∷ [];
  rooms = (114 ∷ [], 6 ∷ []) ∷ [];
  doomed = [];
  dirty_fds = [];
  tick_buf = [];
  tick_frames = 0;
  tick_dropped = 0;
  tick = no_tick;
  reserve = true;
  sends = λ _. [];
  recvs = λ _. [];
  wire = λ _. [];
}

serving-Framed : (fd : ℕ) → has_conn serving.conns fd ≡ true → Framed (stream serving fd)
unfolding has_conn find_conn
serving-Framed fd h = elim (Bool-cases (6 == fd)) [
  | inl e ↦ rw e ((100, 1 ∷ []) ∷ [], ((omega arith, tt), refl))
  | inr e ↦ absurd (ground (arith, h, e))
]

serving-Valid : Valid cfg serving
unfolding member
serving-Valid = record {
  sound = record {
    bounded = (omega arith, tt);
    recorded = (refl, tt);
    listed = (refl, tt);
    buffers = tt;
  };
  distinct = (refl, tt);
  within = omega arith;
  framed = serving-Framed;
}

abbrev zeroed : Stats
zeroed = record { lat = no_samples; frames_in = 0; samples_bad = 0; foreign = 0 }

-- "a: " and a blob that was meant for 5 ns, from node 9.
abbrev chat_line : List ℕ
chat_line =
    97 ∷ 58 ∷ 32 ∷ 5 ∷ 0 ∷ 0 ∷ 0 ∷ 0 ∷ 0 ∷ 0 ∷ 0 ∷ 1 ∷ 0 ∷ 0 ∷ 0 ∷ 9 ∷ 0 ∷ 0 ∷ 0 ∷ 4 ∷ 0 ∷ 0 ∷ 0
    ∷ []

counted :
    (consume_frames study 9 1000
      (putted study ((101, chat_line) ∷ (100, 1 ∷ []) ∷ []) ++ 7 ∷ [])
      zeroed).0.frames_in
    ≡ 2
unfolding consume_frames consume_loop put_frame put_header payload_len on_frame deliver sample
    sample_blob
counted = refl

from_elsewhere : (on_frame study 8 1000 102 (pack (chat_line ∷ chat_line ∷ [])) zeroed).foreign ≡ 2
unfolding on_frame entries deliver sample sample_blob
from_elsewhere = refl

abbrev swapped : Proto
swapped = record {
  len_includes_header = true;
  id_set_nick = 1;
  id_join = 2;
  id_chat = 3;
  id_chat_out = 101;
  id_tick_out = 102;
}

consume_frames-putted_example :
    consume_frames swapped 9 1000
      (putted swapped ((101, chat_line) ∷ (100, 1 ∷ []) ∷ []) ++ 7 ∷ [])
      zeroed
    ≡ (on_frames swapped 9 1000 ((101, chat_line) ∷ (100, 1 ∷ []) ∷ []) zeroed, 7 ∷ [])
consume_frames-putted_example =
    consume_frames-putted swapped 9 1000 ((101, chat_line) ∷ (100, 1 ∷ []) ∷ []) (7 ∷ []) zeroed
      ((omega arith, omega arith), ((omega arith, omega arith), tt)) (inl (omega arith))

here : has_conn serving.conns 6 ≡ true
unfolding has_conn
here = refl

consume_frames-stream_example :
    (ps : List (ℕ × Bytes)) × ((stream serving 6 ≡ encode ps)
      × (consume_frames study 9 1000 (stream serving 6) zeroed
          ≡ (on_frames study 9 1000 (as_sent ps) zeroed, [])))
consume_frames-stream_example = consume_frames-stream cfg serving 6 9 1000 zeroed serving-Valid here

no_buffer : text_of (lookup serving.tick_buf (114 ∷ [])) ≡ []
unfolding lookup
no_buffer = refl

record_lines-deliver_all_example :
    on_frame study 9 1000 102
      (text_of
        (lookup (record_lines serving (114 ∷ []) (chat_line ∷ (98 ∷ []) ∷ [])).tick_buf (114 ∷ [])))
      zeroed
    ≡ deliver_all study 9 1000 (chat_line ∷ (98 ∷ []) ∷ []) zeroed
record_lines-deliver_all_example =
    record_lines-deliver_all (114 ∷ []) serving (chat_line ∷ (98 ∷ []) ∷ []) 9 1000 zeroed no_buffer
      (omega arith, (omega arith, tt)) (omega arith)
