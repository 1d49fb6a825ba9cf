-- ===== src/Bench/Traffic/Tests.antt =====
-- The traffic phase: runs of the code, and each theorem at an input that meets its hypotheses.
use io_uring_net_engine.Prelude.{
  ◌+◌, ◌-◌, ◌≤◌, ◌≡◌, refl, arith, true, false, some, [], ◌∷◌, ◌++◌, length, ◌==◌, if◌then◌else◌,
}
use io_uring_net_engine.Tick.Histogram.{Hist, add, buckets}
use io_uring_net_engine.Epoll.State.{Sent, accepted}
use io_uring_net_engine.Bench.{Stats, wire_header_size, blob_header, put_frame, put_header, deliver}
use io_uring_net_engine.Bench.Config.{max_blob}
use io_uring_net_engine.Bench.Conn.{ready, empty_conn}
use io_uring_net_engine.Bench.Connect.{Event}
use io_uring_net_engine.Bench.Connect.Counts.{one_if}
use io_uring_net_engine.Bench.Corpus.{Corpus}
use io_uring_net_engine.Bench.Corpus.Lines.{Measured}
use io_uring_net_engine.Bench.Server.{study}
use io_uring_net_engine.Bench.Socket.{send_frame, send_loop, flush_pending, flush_loop}
use io_uring_net_engine.Bench.Traffic.{
  Plan, Traffic, blob_front, next_text, chat_frame, after_send, send_one, is_live, issue_one, issue,
  service,
}
use io_uring_net_engine.Bench.Traffic.Blob.{deliver-blob_front, chat_frame-put_frame}
use io_uring_net_engine.Bench.Traffic.Schedule.{Issued, issue-Issued}
use io_uring_net_engine.Bench.Traffic.Service.{lost_conns-service}

abbrev plan : Plan
plan = record {
  proto = study;
  node = 9;
  use_corpus = false;
  size_mix = true;
  size = 64;
  live = 5 ∷ 6 ∷ [];
  start = 1000;
  slot = 100;
}

abbrev no_samples : Hist
no_samples = record { counts = []; total = 0; overflow = 0; max_ns = 0; min_ns = 0 }

abbrev zeroed : Stats
zeroed = record { lat = no_samples; frames_in = 0; samples_bad = 0; foreign = 0 }

abbrev no_text : Corpus
no_text = record { lines = []; cursor = 0; total = 0; min_bytes = 0; max_bytes = 0 }

abbrev resting : Traffic
resting = record {
  m = 0;
  class_cursor = 0;
  body = no_text;
  conns = λ fd. record empty_conn { state = ready; index = fd };
  interest = λ _. some (true, false);
  kernels = λ fd. record {
    sends = if fd == 5 then accepted 40 ∷ accepted 10 ∷ [] else Sent.failed ∷ [];
    recvs = [];
    wire = [];
  };
  self_lag = no_samples;
  sent = 0;
  bytes_in = 0;
  backpressed = 0;
  lost_conns = 0;
  received = zeroed;
}

-- Of the messages that are due at 1250 the first goes out, the second fails, and the third is cut off.
three_due : (issue plan 1024 1250 resting).m ≡ 3
unfolding issue issue_one send_one next_text chat_frame blob_front after_send send_frame send_loop
    flush_pending flush_loop put_header add buckets
three_due = refl

waits : length ((issue plan 1024 1250 resting).conns 5).pending ≡ 270
unfolding issue issue_one send_one next_text chat_frame blob_front after_send send_frame send_loop
    flush_pending flush_loop put_header add buckets
waits = refl

issue-Issued_example : Issued plan 1024 1250 resting (issue plan 1024 1250 resting)
issue-Issued_example = issue-Issued plan 1024 1250 resting

empty-Measured : Measured (max_blob - blob_header) no_text
empty-Measured = record { total = refl; between = tt; budget = omega arith }

chat_frame-put_frame_example :
    (length (chat_frame plan 1000 empty_conn (next_text plan resting).0)
      ≤ wire_header_size + max_blob)
    × (chat_frame plan 1000 empty_conn (next_text plan resting).0
        ≡ put_frame study [] 3 (blob_front 1000 0 9 0 ++ (next_text plan resting).0))
chat_frame-put_frame_example = chat_frame-put_frame plan resting 1000 empty_conn empty-Measured

deliver-blob_front_example :
    deliver study 9 1700 (110 ∷ 57 ∷ (58 ∷ (32 ∷ (blob_front 1000 4 9 5 ++ (97 ∷ []))))) zeroed
    ≡ record zeroed { frames_in = 1; lat = add no_samples 700 }
deliver-blob_front_example =
    deliver-blob_front study 9 1700 1000 4 9 5 (97 ∷ []) (110 ∷ 57 ∷ []) zeroed (refl, (refl, tt))
      (omega arith) (omega arith)

abbrev broken_event : Event
broken_event = record {
  fd = 5;
  readable = false;
  writable = false;
  hung_up = true;
  soerr = 0;
  errno = 0;
}

lost_conns-service_example :
    (service plan 2000 resting broken_event).lost_conns
      + one_if (is_live plan ((service plan 2000 resting broken_event).conns 5).state)
    ≡ 0 + 1
lost_conns-service_example = lost_conns-service plan 2000 resting broken_event
