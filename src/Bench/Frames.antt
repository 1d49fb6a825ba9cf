-- ===== src/Bench/Frames.antt =====
-- client-bench/src/traffic.cpp: consume_frames against the frames that were put, and against what the
-- epoll server sends.
use io_uring_net_engine.Prelude.{
  ℕ, zero, suc, ◌+◌, ◌-◌, ◌*◌, ◌/◌, ◌%◌, ◌≤◌, ◌<◌, ◌≡◌, ◌⊎◌, refl, ◌∙◌, ap, arith, Bool, true,
  false, not, none, some, List, [], ◌∷◌, ◌++◌, append_assoc, length, length-append, take, drop,
  take-append, drop-append, ltb, ◌==◌, if◌then◌else◌, Bool-cases, inl, inr,
}
use io_uring_net_engine.Prelude.Word.{u16_mod}
use io_uring_net_engine.Prelude.Bytes.{le_bytes, le_value}
use io_uring_net_engine.Bench.{
  Proto, Stats, wire_header_size, put_header, put_frame, payload_len, deliver, entries, on_frame,
  consume_loop, consume_frames,
}

-- The lines of one tick, each behind its length, as the server records them.
abbrev pub pack : List (List ℕ) → List ℕ
pack [] = []
pack (l ∷ ls) = (le_bytes 2 (length l % u16_mod) ++ l) ++ pack ls

abbrev pub Short : List (List ℕ) → Type 0
Short [] = Unit {0}
Short (l ∷ ls) = (length l < u16_mod) × Short ls

module _ (proto : Proto) (node recv_ts : ℕ) where
  abbrev pub deliver_all : List (List ℕ) → Stats → Stats
  deliver_all [] st = st
  deliver_all (l ∷ ls) st = deliver_all ls (deliver proto node recv_ts l st)

  -- The entry at the front of a tick's payload.
  entry :
      (fuel : ℕ) (l more : List ℕ) (st : Stats)
      → length l < u16_mod
      → entries proto node recv_ts (suc fuel) ((le_bytes 2 (length l % u16_mod) ++ l) ++ more) st
        ≡ entries proto node recv_ts fuel more (deliver proto node recv_ts l st)
  unfolding entries
  entry fuel l more st h =
      rw
        (
          is_len,
          enough,
          whole,
          take-append (length l) l more refl,
          drop-append (length l) l more refl,
        )
        refl
    where
      is_len : le_value (take 2 ((le_bytes 2 (length l % u16_mod) ++ l) ++ more)) ≡ length l
      is_len = omega (arith, h)

      enough : ltb (length ((le_bytes 2 (length l % u16_mod) ++ l) ++ more)) 2 ≡ false
      enough = ground arith

      whole : ltb (length (l ++ more)) (length l) ≡ false
      whole = ground (arith, length-append l more)

  entries-pack :
      (ls : List (List ℕ)) (fuel : ℕ) (st : Stats)
      → Short ls
      → length ls ≤ fuel
      → entries proto node recv_ts fuel (pack ls) st ≡ deliver_all ls st
  unfolding entries
  entries-pack [] zero st s h = refl
  entries-pack [] (suc fuel) st s h = refl
  entries-pack (l ∷ ls) zero st s h = elim h [ ]
  entries-pack (l ∷ ls) (suc fuel) st s h =
      entry fuel l (pack ls) st s.0
      ∙ entries-pack ls fuel (deliver proto node recv_ts l st) s.1 (omega (arith, h))

  pack_long : (ls : List (List ℕ)) → length ls ≤ length (pack ls)
  pack_long [] = omega arith
  pack_long (l ∷ ls) = omega (arith, pack_long ls, length-append l (pack ls))

  -- A tick frame with a room's lines counts as one delivery for each line, in their order.
  pub on_frame-pack :
      (ls : List (List ℕ)) (st : Stats)
      → Short ls
      → on_frame proto node recv_ts proto.id_tick_out (pack ls) st ≡ deliver_all ls st
  unfolding on_frame
  on_frame-pack ls st s = rw same (entries-pack ls (length (pack ls)) st s (pack_long ls))
    where
      same : (proto.id_tick_out == proto.id_tick_out) ≡ true
      same = ground arith

-- Frames, one behind the other, as the load generator puts them.
abbrev pub putted : Proto → List (ℕ × List ℕ) → List ℕ
putted proto [] = []
putted proto (p ∷ ps) = put_frame proto [] p.0 p.1 ++ putted proto ps

-- The length of a frame, header and all, fits its field.
abbrev pub Puttable : List (ℕ × List ℕ) → Type 0
Puttable [] = Unit {0}
Puttable (p ∷ ps) = ((p.0 < u16_mod) × (length p.1 + wire_header_size < u16_mod)) × Puttable ps

-- Less than a frame.
abbrev pub Waiting : Proto → List ℕ → Type 0
Waiting proto rest =
    (length rest < wire_header_size)
    ⊎ ((len : ℕ) × ((payload_len proto (le_value (take 2 rest)) ≡ some len)
          × (length rest < wire_header_size + len)))

abbrev pub on_frames : Proto → ℕ → ℕ → List (ℕ × List ℕ) → Stats → Stats
on_frames proto node recv_ts [] st = st
on_frames proto node recv_ts (p ∷ ps) st =
    on_frames proto node recv_ts ps (on_frame proto node recv_ts p.0 p.1 st)

-- The header of the frame at the front.
module _ (proto : Proto) (type : ℕ) (payload more : List ℕ) where
  announced :
      length payload + wire_header_size < u16_mod
      → payload_len proto (le_value (take 2 (put_frame proto [] type payload ++ more)))
        ≡ some (length payload)
  unfolding payload_len put_frame put_header
  announced h =
      ap (λ raw. payload_len proto raw) (raw proto.len_includes_header)
      ∙ back proto.len_includes_header
    where
      raw :
          (b : Bool)
          → (let n = (if b then length payload + 4 else length payload) % u16_mod in
              n % 256 + (n / 256 % 256 + 0 * 256) * 256)
            ≡ (if b then length payload + 4 else length payload)
      raw true = omega (arith, h)
      raw false = omega (arith, h)

      back :
          (b : Bool)
          → (let n = (if b then length payload + 4 else length payload) in
              if not b then some n else if ltb n 4 then none else some (n - 4))
            ≡ some (length payload)
      back true = rw few (ap some (omega arith))
        where
          few : ltb (length payload + 4) 4 ≡ false
          few = ground arith
      back false = refl

  typed :
      type < u16_mod → le_value (take 2 (drop 2 (put_frame proto [] type payload ++ more))) ≡ type
  unfolding put_frame put_header
  typed h = omega (arith, h)

  inside :
      take (length payload) (drop wire_header_size (put_frame proto [] type payload ++ more))
      ≡ payload
  unfolding put_frame put_header
  inside = take-append (length payload) payload more refl

  long : length (put_frame proto [] type payload) ≡ wire_header_size + length payload
  unfolding put_frame put_header
  long = omega arith

  behind : drop (wire_header_size + length payload) (put_frame proto [] type payload ++ more) ≡ more
  behind =
      drop-append (wire_header_size + length payload) (put_frame proto [] type payload) more long

module _ (proto : Proto) (node recv_ts : ℕ) where
  one_frame :
      (fuel : ℕ) (p : ℕ × List ℕ) (more : List ℕ) (st : Stats)
      → (p.0 < u16_mod) × (length p.1 + wire_header_size < u16_mod)
      → consume_loop proto node recv_ts (suc fuel) (put_frame proto [] p.0 p.1 ++ more) st
        ≡ consume_loop proto node recv_ts fuel more (on_frame proto node recv_ts p.0 p.1 st)
  unfolding consume_loop
  one_frame fuel p more st ok =
      rw
        (
          short,
          announced proto p.0 p.1 more ok.1,
          whole,
          typed proto p.0 p.1 more ok.0,
          inside proto p.0 p.1 more,
          behind proto p.0 p.1 more,
        )
        refl
    where
      short : ltb (length (put_frame proto [] p.0 p.1 ++ more)) wire_header_size ≡ false
      short =
          ground (arith, length-append (put_frame proto [] p.0 p.1) more, long proto p.0 p.1 more)

      whole :
          ltb (length (put_frame proto [] p.0 p.1 ++ more)) (wire_header_size + length p.1) ≡ false
      whole =
          ground (arith, length-append (put_frame proto [] p.0 p.1) more, long proto p.0 p.1 more)

  stops :
      (fuel : ℕ) (rest : List ℕ) (st : Stats)
      → Waiting proto rest
      → consume_loop proto node recv_ts (suc fuel) rest st ≡ (st, rest)
  unfolding consume_loop
  stops fuel rest st (inl few) = rw few_yes refl
    where
      few_yes : ltb (length rest) wire_header_size ≡ true
      few_yes = ground (arith, few)
  stops fuel rest st (inr (len, (is, few))) =
      elim (Bool-cases (ltb (length rest) wire_header_size)) [
        | inl e ↦ rw e refl
        | inr e ↦ rw (e, is, few_yes) refl
      ]
    where
      few_yes : ltb (length rest) (wire_header_size + len) ≡ true
      few_yes = ground (arith, few)

  consume_loop-putted :
      (ps : List (ℕ × List ℕ)) (rest : List ℕ) (fuel : ℕ) (st : Stats)
      → Puttable ps
      → Waiting proto rest
      → length ps < fuel
      → consume_loop proto node recv_ts fuel (putted proto ps ++ rest) st
        ≡ (on_frames proto node recv_ts ps st, rest)
  consume_loop-putted ps rest zero st ok w h = elim h [ ]
  consume_loop-putted [] rest (suc fuel) st ok w h = stops fuel rest st w
  consume_loop-putted (p ∷ ps) rest (suc fuel) st ok w h =
      ap (λ b. consume_loop proto node recv_ts (suc fuel) b st)
        (append_assoc (put_frame proto [] p.0 p.1) (putted proto ps) rest)
      ∙ one_frame fuel p (putted proto ps ++ rest) st ok.0
      ∙ consume_loop-putted ps rest fuel (on_frame proto node recv_ts p.0 p.1 st) ok.1 w
          (omega (arith, h))

  putted_long :
      (ps : List (ℕ × List ℕ)) (rest : List ℕ) → length ps ≤ length (putted proto ps ++ rest)
  putted_long [] rest = omega arith
  putted_long (p ∷ ps) rest = omega (
    arith,
    putted_long ps rest,
    long proto p.0 p.1 [],
    length-append (put_frame proto [] p.0 p.1) (putted proto ps),
    length-append (put_frame proto [] p.0 p.1 ++ putted proto ps) rest,
    length-append (putted proto ps) rest,
  )

  -- When a connection's slot holds frames that put_frame has made and then less than one more, under
  -- either meaning of the length field, consume_frames handles exactly these frames, in their order
  -- and with their types and payloads, and keeps the rest in the slot.
  pub consume_frames-putted :
      (ps : List (ℕ × List ℕ)) (rest : List ℕ) (st : Stats)
      → Puttable ps
      → Waiting proto rest
      → consume_frames proto node recv_ts (putted proto ps ++ rest) st
        ≡ (on_frames proto node recv_ts ps st, rest)
  unfolding consume_frames
  consume_frames-putted ps rest st ok w =
      consume_loop-putted ps rest (length (putted proto ps ++ rest) + 1) st ok w
        (omega (arith, putted_long ps rest))
