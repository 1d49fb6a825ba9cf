-- ===== src/Bench/Server.antt =====
-- The load generator against the epoll server: client-bench/src/traffic.cpp reads what
-- server-epoll/server.cpp writes.
use io_uring_net_engine.Prelude.{
  ℕ, ◌+◌, ◌%◌, ◌≤◌, ◌≡◌, refl, sym, ◌∙◌, ap, ap₂, arith, true, false, some, List, [], ◌∷◌, ◌++◌,
  append_assoc, append-nil, length, length-append, ltb, Bool-cases, inl, inr,
}
use io_uring_net_engine.Prelude.Word.{u16_mod}
use io_uring_net_engine.Prelude.Bytes.{le_bytes}
use io_uring_net_engine.Epoll.State.{Bytes, same_bytes, Config, Server, has_conn, lookup, store}
use io_uring_net_engine.Epoll.Output.{tick_cap}
use io_uring_net_engine.Epoll.Output.Stream.{encode, Fits, stream}
use io_uring_net_engine.Epoll.Packets.{record_line, text_of}
use io_uring_net_engine.Epoll.Loop.Valid.{Valid}
use io_uring_net_engine.Bench.{Proto, Stats, put_header, put_frame, on_frame, consume_frames}
use io_uring_net_engine.Bench.Frames.{
  pack, Short, deliver_all, on_frame-pack, putted, Puttable, on_frames, consume_frames-putted,
}

-- The protocol of the epoll server, which is the load generator's default.
abbrev pub study : Proto
study = record {
  len_includes_header = false;
  id_set_nick = 1;
  id_join = 2;
  id_chat = 3;
  id_chat_out = 101;
  id_tick_out = 102;
}

-- Packets with the types that fit their field.
abbrev pub as_sent : List (ℕ × Bytes) → List (ℕ × Bytes)
as_sent [] = []
as_sent (p ∷ ps) = (p.0 % u16_mod, p.1) ∷ as_sent ps

low_type : (type : ℕ) → le_bytes 2 (type % u16_mod) ≡ le_bytes 2 type
low_type type = ap₂ (λ a b. a ∷ b ∷ []) (omega arith) (omega arith)

putted-encode : (ps : List (ℕ × Bytes)) → putted study (as_sent ps) ≡ encode ps
unfolding put_frame put_header
putted-encode [] = refl
putted-encode (p ∷ ps) =
    ap₂ (λ t b. (le_bytes 2 (length p.1 % u16_mod) ++ t ++ p.1) ++ b) (low_type p.0)
      (putted-encode ps)

as_sent-Puttable : (ps : List (ℕ × Bytes)) → Fits ps → Puttable (as_sent ps)
as_sent-Puttable [] f = tt
as_sent-Puttable (p ∷ ps) f = ((omega arith, omega (arith, f.0)), as_sent-Puttable ps f.1)

-- In a valid state of the epoll server, the whole stream towards a connection is one sequence of
-- packets. The load generator handles these packets and no other, each once, in the order in which
-- they were queued and with their types and payloads, and nothing is left over.
pub consume_frames-stream :
    (cfg : Config) (s : Server) (fd node recv_ts : ℕ) (st : Stats)
    → Valid cfg s
    → has_conn s.conns fd ≡ true
    → (ps : List (ℕ × Bytes)) × ((stream s fd ≡ encode ps)
        × (consume_frames study node recv_ts (stream s fd) st
            ≡ (on_frames study node recv_ts (as_sent ps) st, [])))
consume_frames-stream cfg s fd node recv_ts st v here =
    let f = v.framed fd here in
    (
      f.0,
      (
        f.1.1,
        ap (λ b. consume_frames study node recv_ts b st)
              (f.1.1 ∙ sym (putted-encode f.0) ∙ sym (append-nil (putted study (as_sent f.0))))
            ∙ consume_frames-putted study node recv_ts (as_sent f.0) [] st
                (as_sent-Puttable f.0 f.1.0) (inl (omega arith)),
      ),
    )

same_bytes_self : (k : Bytes) → same_bytes k k ≡ true
same_bytes_self [] = refl
same_bytes_self (b ∷ bs) = ground (arith, same_bytes_self bs)

lookup-store : (es : List (Bytes × Bytes)) (k v : Bytes) → lookup (store es k v) k ≡ some v
unfolding lookup store
lookup-store [] k v = rw (same_bytes_self k) refl
lookup-store (e ∷ es) k v = elim (Bool-cases (same_bytes e.0 k)) [
  | inl y ↦ rw (y, y) refl
  | inr n ↦ rw (n, n) (lookup-store es k v)
]

-- The lines of one tick, recorded one after the other.
abbrev pub record_lines : Server → Bytes → List Bytes → Server
record_lines s room [] = s
record_lines s room (l ∷ ls) = record_lines (record_line s room l) room ls

pack-append : (ls ms : List Bytes) → pack (ls ++ ms) ≡ pack ls ++ pack ms
pack-append [] ms = refl
pack-append (l ∷ ls) ms =
    ap (λ b. (le_bytes 2 (length l % u16_mod) ++ l) ++ b) (pack-append ls ms)
    ∙ sym (append_assoc (le_bytes 2 (length l % u16_mod) ++ l) (pack ls) (pack ms))

module _ (room : Bytes) where
  -- One line more, when there is room for it.
  one_line :
      (s : Server) (before line : Bytes)
      → text_of (lookup s.tick_buf room) ≡ before
      → length before + 2 + length line ≤ tick_cap
      → text_of (lookup (record_line s room line).tick_buf room) ≡ before ++ pack (line ∷ [])
  unfolding record_line
  one_line s before line is fits =
      rw
        (
          is,
          fits_yes,
          lookup-store s.tick_buf room (before ++ le_bytes 2 (length line % u16_mod) ++ line),
        )
        (append_assoc before (le_bytes 2 (length line % u16_mod)) line
          ∙ ap (λ b. before ++ b) (sym (append-nil (le_bytes 2 (length line % u16_mod) ++ line))))
    where
      fits_yes : ltb tick_cap (length before + 2 + length line) ≡ false
      fits_yes = ground (arith, fits)

  record_lines-pack :
      (ls : List Bytes) (s : Server) (before : Bytes)
      → text_of (lookup s.tick_buf room) ≡ before
      → length (before ++ pack ls) ≤ tick_cap
      → text_of (lookup (record_lines s room ls).tick_buf room) ≡ before ++ pack ls
  record_lines-pack [] s before is fits = is ∙ sym (append-nil before)
  record_lines-pack (l ∷ ls) s before is fits =
      record_lines-pack ls (record_line s room l) (before ++ pack (l ∷ []))
        (one_line s before l is
          (omega (arith, fits, length-append before (pack (l ∷ ls)), length-append l (pack ls))))
        (rw regroup fits)
      ∙ regroup
    where
      regroup : (before ++ pack (l ∷ [])) ++ pack ls ≡ before ++ pack (l ∷ ls)
      regroup =
          append_assoc before (pack (l ∷ [])) (pack ls)
          ∙ ap (λ b. before ++ b) (sym (pack-append (l ∷ []) ls))

  -- Lines that handle_packet records for a room with an empty tick buffer, and that together stay
  -- within the buffer's cap, are counted by the load generator that gets the buffer as one tick frame:
  -- every line once, in the order in which it was recorded.
  pub record_lines-deliver_all :
      (s : Server) (ls : List Bytes) (node recv_ts : ℕ) (st : Stats)
      → text_of (lookup s.tick_buf room) ≡ []
      → Short ls
      → length (pack ls) ≤ tick_cap
      → on_frame study node recv_ts 102 (text_of (lookup (record_lines s room ls).tick_buf room)) st
        ≡ deliver_all study node recv_ts ls st
  record_lines-deliver_all s ls node recv_ts st none_yet short fits =
      ap (λ b. on_frame study node recv_ts 102 b st) (record_lines-pack ls s [] none_yet fits)
      ∙ on_frame-pack study node recv_ts ls st short
