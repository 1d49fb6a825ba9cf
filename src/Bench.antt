-- ===== src/Bench.antt =====
-- client-bench/src: wire.h, wire.cpp, and consume_frames of traffic.cpp. The histogram of
-- histogram.h has the same add as the epoll server's. A 64-bit counter is a number; the clock's
-- readings are not negative.
pub mod Corpus
pub mod Frames
pub mod Server
pub mod Config
pub mod Conn
pub mod Connect
pub mod Socket
pub mod Traffic
mod Tests
use io_uring_net_engine.Prelude.{
  ℕ, zero, suc, ◌+◌, ◌-◌, ◌%◌, ◌^◌, Bool, true, false, not, ◌||◌, Option, none, some, List, [], ◌∷◌,
  ◌++◌, length, take, drop, ltb, leb, ◌==◌, if◌then◌else◌,
}
use io_uring_net_engine.Prelude.Word.{u16_mod, u64_mod}
use io_uring_net_engine.Prelude.Bytes.{le_bytes, le_value}
use io_uring_net_engine.Tick.Histogram.{Hist, add}

abbrev pub wire_header_size : ℕ
wire_header_size = 4

abbrev pub blob_header : ℕ
blob_header = 20

pub record Proto : Type 0 where
  pub len_includes_header : Bool
  pub id_set_nick : ℕ
  pub id_join : ℕ
  pub id_chat : ℕ
  pub id_chat_out : ℕ
  pub id_tick_out : ℕ

-- The counters that consume_frames is given.
pub record Stats : Type 0 where
  pub lat : Hist
  pub frames_in : ℕ
  pub samples_bad : ℕ
  pub foreign : ℕ

-- memchr for ':' and what is behind it.
abbrev pub after_colon : List ℕ → Option (List ℕ)
after_colon [] = none
after_colon (b ∷ bs) = if b == 58 then some bs else after_colon bs

-- recv_ts - intended, with a negative difference as 0, which is what the histogram makes of it; the
-- eight bytes are a signed number.
abbrev pub elapsed : ℕ → ℕ → ℕ
elapsed recv_ts intended =
    if ltb intended (2 ^ 63) then recv_ts - intended else recv_ts + (u64_mod - intended)

module _ (proto : Proto) where
  unfoldable pub put_header : ℕ → ℕ → List ℕ
  put_header type len =
      le_bytes 2 ((if proto.len_includes_header then len + wire_header_size else len) % u16_mod)
      ++ le_bytes 2 type

  unfoldable pub put_frame : List ℕ → ℕ → List ℕ → List ℕ
  put_frame out type payload = out ++ (put_header type (length payload) ++ payload)

  -- `none` is false.
  unfoldable pub payload_len : ℕ → Option ℕ
  payload_len raw =
      if not proto.len_includes_header
      then some raw
      else if ltb raw wire_header_size
      then none
      else some (raw - wire_header_size)

module _ (proto : Proto) (node recv_ts : ℕ) where
  -- `sample` once the blob is found.
  unfoldable pub sample_blob : Option (List ℕ) → Stats → Stats
  sample_blob none st = record st { samples_bad = st.samples_bad + 1 }
  sample_blob (some behind) st =
      let blob = drop 1 behind in
      if ltb (length behind) 1
      then record st { samples_bad = st.samples_bad + 1 }
      else if ltb (length blob) blob_header
      then record st { samples_bad = st.samples_bad + 1 }
      else if not (le_value (take 4 (drop 12 blob)) == node)
      then record st { foreign = st.foreign + 1 }
      else record st { lat = add st.lat (elapsed recv_ts (le_value (take 8 blob))) }

  unfoldable pub sample : List ℕ → Stats → Stats
  sample p st =
      if ltb (length p) blob_header
      then record st { samples_bad = st.samples_bad + 1 }
      else sample_blob (after_colon p) st

  -- A delivery: it is counted, and then sampled.
  unfoldable pub deliver : List ℕ → Stats → Stats
  deliver p st = sample p (record st { frames_in = st.frames_in + 1 })

  -- The loop over the entries of a tick frame, for at most `fuel` turns.
  unfoldable pub entries : ℕ → List ℕ → Stats → Stats
  entries zero body st = st
  entries (suc fuel) body st =
      let elen = le_value (take 2 body) in
      let behind = drop 2 body in
      let rest = entries fuel (drop elen behind) (deliver (take elen behind) st) in
      if ltb (length body) 2
      then st
      else if ltb (length behind) elen
      then record st { samples_bad = st.samples_bad + 1 }
      else rest

  -- What is done with one whole frame.
  unfoldable pub on_frame : ℕ → List ℕ → Stats → Stats
  on_frame type payload st =
      if type == proto.id_tick_out
      then entries (length payload) payload st
      else if not (type == proto.id_chat_out) || ltb (length payload) blob_header
      then record st { frames_in = st.frames_in + 1 }
      else deliver payload st

  -- consume_frames' loop on what is left of the slot, for at most `fuel` turns; the bytes that stay
  -- are a result.
  unfoldable pub consume_loop : ℕ → List ℕ → Stats → Stats × List ℕ
  consume_loop zero rx st = (st, rx)
  consume_loop (suc fuel) rx st =
      let type = le_value (take 2 (drop 2 rx)) in
      if ltb (length rx) wire_header_size
      then (st, rx)
      else (elim (payload_len proto (le_value (take 2 rx))) [
        | none ↦ (record st { samples_bad = st.samples_bad + 1 }, [])
        | some len ↦
            (let rest =
                consume_loop fuel (drop (wire_header_size + len) rx)
                  (on_frame type (take len (drop wire_header_size rx)) st) in
              if ltb (length rx) (wire_header_size + len) then (st, rx) else rest)
      ])

  -- A turn takes at least four bytes.
  unfoldable pub consume_frames : List ℕ → Stats → Stats × List ℕ
  consume_frames rx st = consume_loop (length rx + 1) rx st
