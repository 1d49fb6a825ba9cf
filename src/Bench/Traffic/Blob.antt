-- ===== src/Bench/Traffic/Blob.antt =====
-- client-bench/src/traffic.cpp: a message from the frame that run_traffic builds to the sample that
-- consume_frames takes of it.
use io_uring_net_engine.Prelude.{
  ℕ, zero, suc, ◌+◌, ◌-◌, ◌%◌, ◌^◌, ◌≤◌, ◌<◌, ◌≡◌, refl, ap, arith, Bool, true, false, not, some,
  List, [], ◌∷◌, ◌++◌, length, length-append, take, drop, get_or, min, ltb, ◌==◌, if◌then◌else◌,
  Bool-cases, inl, inr,
}
use io_uring_net_engine.Prelude.Bytes.{le_value, le_value-le_bytes}
use io_uring_net_engine.Tick.Histogram.{add}
use io_uring_net_engine.Epoll.State.{Bytes}
use io_uring_net_engine.Bench.{
  Proto, Stats, wire_header_size, blob_header, put_header, put_frame, after_colon, elapsed,
  sample_blob, sample, deliver,
}
use io_uring_net_engine.Bench.Config.{max_blob}
use io_uring_net_engine.Bench.Conn.{Conn}
use io_uring_net_engine.Bench.Corpus.{next}
use io_uring_net_engine.Bench.Corpus.Lines.{Between, Measured}
use io_uring_net_engine.Bench.Traffic.{
  Plan, Traffic, size_classes, filler, blob_front, next_text, chat_frame,
}

-- A nickname without ':'.
abbrev pub NoColon : Bytes → Type 0
NoColon [] = Unit {0}
NoColon (b ∷ bs) = ((b == 58) ≡ false) × NoColon bs

after_colon-append :
    (nick rest : Bytes) → NoColon nick → after_colon (nick ++ (58 ∷ rest)) ≡ some rest
after_colon-append [] rest n = refl
after_colon-append (b ∷ bs) rest n = rw n.0 (after_colon-append bs rest n.1)

length-filler : (i n : ℕ) → length (filler i n) ≡ n
length-filler i zero = refl
length-filler i (suc n) = ap suc (length-filler (i + 1) n)

module _ (proto : Proto) (node recv_ts intended seq sender index : ℕ) (text : Bytes) where
  abbrev blob : Bytes
  blob = blob_front intended seq sender index ++ text

  blob_long : blob_header ≤ length blob
  unfolding blob_front
  blob_long = omega arith

  from_node : sender < 2 ^ 32 → le_value (take 4 (drop 12 blob)) ≡ sender
  unfolding blob_front
  from_node h = le_value-le_bytes 4 sender (omega (arith, h))

  stamped : intended < 2 ^ 63 → le_value (take 8 blob) ≡ intended
  unfolding blob_front
  stamped h = le_value-le_bytes 8 intended (omega (arith, h))

  in_time : intended < 2 ^ 63 → elapsed recv_ts intended ≡ recv_ts - intended
  in_time h = rw early refl
    where
      early : ltb intended (2 ^ 63) ≡ true
      early = ground (arith, h)

  sample_blob-blob :
      (st : Stats)
      → intended < 2 ^ 63
      → sender < 2 ^ 32
      → sample_blob proto node recv_ts (some (32 ∷ blob)) st ≡ (
          if sender == node
          then record st { lat = add st.lat (recv_ts - intended) }
          else record st { foreign = st.foreign + 1 })
  unfolding sample_blob
  sample_blob-blob st early small =
      rw (some_space, whole, from_node small, stamped early, in_time early)
        (turned (sender == node))
    where
      some_space : ltb (suc (length blob)) 1 ≡ false
      some_space = ground arith

      whole : ltb (length blob) blob_header ≡ false
      whole = ground (arith, blob_long)

      turned :
          (b : Bool)
          → (if not b
              then record st { foreign = st.foreign + 1 }
              else record st { lat = add st.lat (recv_ts - intended) })
            ≡ (if b
                then record st { lat = add st.lat (recv_ts - intended) }
                else record st { foreign = st.foreign + 1 })
      turned true = refl
      turned false = refl

  -- A message that a client sends, as the server passes it on behind the sender's name, is counted as
  -- one delivery. A client of the same node adds one sample to the latencies, which is the time from
  -- the moment when the message was due, not from when it was sent; one of another node counts the
  -- message as foreign and samples nothing. The name has no ':'.
  pub deliver-blob_front :
      (nick : Bytes) (st : Stats)
      → NoColon nick
      → intended < 2 ^ 63
      → sender < 2 ^ 32
      → deliver proto node recv_ts
          (nick ++ (58 ∷ (32 ∷ (blob_front intended seq sender index ++ text))))
          st
        ≡ (if sender == node
            then record st { frames_in = st.frames_in + 1; lat = add st.lat (recv_ts - intended) }
            else record st { frames_in = st.frames_in + 1; foreign = st.foreign + 1 })
  unfolding deliver sample
  deliver-blob_front nick st plain early small =
      rw (long, after_colon-append nick (32 ∷ blob) plain)
        (sample_blob-blob (record st { frames_in = st.frames_in + 1 }) early small)
    where
      long : ltb (length (nick ++ (58 ∷ (32 ∷ blob)))) blob_header ≡ false
      long = ground (arith, length-append nick (58 ∷ (32 ∷ blob)), blob_long)

get_or-Between :
    (ls : List Bytes) (i low high : ℕ) → Between low high ls → length (get_or ls i []) ≤ high
get_or-Between [] i low high b = omega arith
get_or-Between (l ∷ ls) zero low high b = b.0.1
get_or-Between (l ∷ ls) (suc i) low high b = get_or-Between ls i low high b.1

module _ (p : Plan) where
  next_text_fits :
      (t : Traffic)
      → Measured (max_blob - blob_header) t.body
      → length (next_text p t).0 ≤ max_blob - blob_header
  unfolding next_text next
  next_text_fits t m = elim (Bool-cases p.use_corpus) [
    | inl e ↦
        rw (e, next_text)
          (omega (
            arith,
            get_or-Between t.body.lines t.body.cursor t.body.min_bytes t.body.max_bytes m.between,
            m.budget,
          ))
    | inr e ↦ elim (Bool-cases p.size_mix) [
      | inl f ↦
          rw (e, f, next_text)
            (omega (
              arith,
              length-filler 0
                  (min (get_or size_classes (t.class_cursor % 4) 0) (max_blob - blob_header)),
            ))
      | inr f ↦
          rw (e, f, next_text)
            (omega (arith, length-filler 0 (min p.size (max_blob - blob_header))))
    ]
  ]

  -- Whatever the size that is configured and with a corpus that was built for the budget, the frame of
  -- the next message stays within run_traffic's buffer, and is one whole frame of the wire.
  pub chat_frame-put_frame :
      (t : Traffic) (intended : ℕ) (c : Conn)
      → Measured (max_blob - blob_header) t.body
      → (length (chat_frame p intended c (next_text p t).0) ≤ wire_header_size + max_blob)
        × (chat_frame p intended c (next_text p t).0
            ≡ put_frame p.proto [] p.proto.id_chat
                (blob_front intended c.seq p.node c.index ++ (next_text p t).0))
  unfolding chat_frame put_frame put_header blob_front
  chat_frame-put_frame t intended c m = (omega (arith, next_text_fits t m), refl)
