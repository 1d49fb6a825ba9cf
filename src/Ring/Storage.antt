-- ===== src/Ring/Storage.antt =====
-- Cursors round the storage: `write_at` and `read_at` of ring_buffer.h, index by index.
use native.Mathlib.Nat.{mod-add-mod, add-mod_right, mod-eq_of_lt, mod-eq-sub-mod, mod-lt}
use io_uring_net_engine.Prelude.{
  ◌&&◌, ℕ, ◌+◌, ◌-◌, ◌%◌, ◌≤◌, ◌<◌, ◌≡◌, ◌∙◌, ap, sym, arith, List, ◌++◌, length, take, drop,
  get_or, min, dec_lt, if◌then◌else◌, leb, ltb, length-take, length-drop, length-append,
}
use io_uring_net_engine.Prelude.Mask.{bit_and-mask}
use io_uring_net_engine.Prelude.Memory.{
  copy, slice, length-copy, length-slice, get_or-copy, get_or-take, get_or-drop, get_or-append,
}
use io_uring_net_engine.Prelude.Word.{sub_usize, sub_usize-eq}
use io_uring_net_engine.Ring.{IsCapacity, offset, write_at, read_at}

-- The masked cursor is its remainder by the capacity.
pub offset-eq-mod : {cap : ℕ} → IsCapacity cap → (c : ℕ) → offset cap c ≡ c % cap
unfolding offset
offset-eq-mod {cap} v c = rw (v.power.1) (bit_and-mask v.power.0 c)

-- The remainder of a position that lies less than one round past another.
pub mod-near :
    (cap c i : ℕ)
    → 0 < cap
    → i < cap
    → (c + i) % cap ≡ (if ltb (c % cap + i) cap then c % cap + i else c % cap + i - cap)
mod-near cap c i pos h = sym (mod-add-mod c cap i) ∙ wrapped
  where
    wrapped :
        (c % cap + i) % cap ≡ (if ltb (c % cap + i) cap then c % cap + i else c % cap + i - cap)
    wrapped = elim (dec_lt (c % cap + i) cap) [
      | yes small ↦ ground (arith, mod-eq_of_lt small)
      | no large ↦ ground (
        arith,
        mod-lt c {m = cap} pos,
        mod-eq-sub-mod {n = c % cap + i} {m = cap} (omega arith),
        mod-eq_of_lt {n = c % cap + i - cap} {m = cap} (omega (arith, mod-lt c {m = cap} pos)),
      )
    ]

-- The index of a position `p` that lies less than one round before or behind `c`.
pub mod-around :
    (cap c p : ℕ)
    → 0 < cap
    → c ≤ p + cap
    → p < c + cap
    → p % cap ≡ (
        if ltb p c
        then (if ltb (c % cap + (p + cap - c)) cap
            then c % cap + (p + cap - c)
            else c % cap + p - c)
        else (if ltb (c % cap + (p - c)) cap then c % cap + (p - c) else c % cap + (p - c) - cap))
mod-around cap c p pos lo hi = elim (dec_lt p c) [
  | yes before ↦
      let at_p : c + (p + cap - c) ≡ p + cap = omega arith in
      ground (
        arith,
        ap (λ k. k % cap) at_p,
        add-mod_right p cap,
        mod-near cap c (p + cap - c) pos (omega arith),
      )
  | no behind ↦
      let at_p : c + (p - c) ≡ p = omega arith in
      ground (arith, ap (λ k. k % cap) at_p, mod-near cap c (p - c) pos (omega arith))
]

module _ {cap : ℕ} (v : IsCapacity cap) where
  -- The two copies at storage offset `o`, at every index of the storage.
  split_copy :
      (buffer src : List ℕ) (o i : ℕ)
      → length buffer ≡ cap
      → o < cap
      → length src ≤ cap
      → i < cap
      → get_or
          (copy
            (copy buffer o (take (min (length src) (cap - o)) src))
            0
            (drop (min (length src) (cap - o)) src))
          i
          0
        ≡ (if leb o i && ltb i (o + length src)
            then get_or src (i - o) 0
            else if ltb (i + cap) (o + length src)
            then get_or src (i + cap - o) 0
            else get_or buffer i 0)
  split_copy buffer src o i size ho hn hi = ground (
    arith,
    get_or-copy 0 (copy buffer o (take first src)) 0 (drop first src) i,
    get_or-copy 0 buffer o (take first src) i,
    length-copy buffer o (take first src),
    length-take first src,
    length-drop first src,
    get_or-take 0 first src (i - o),
    get_or-drop 0 first src (i - 0),
  )
    where
      first : ℕ
      first = min (length src) (cap - o)

  -- A write leaves each position of the last round before it, and holds its bytes behind that.
  pub get_or-write_at :
      (buffer : List ℕ) (c : ℕ) (src : List ℕ) (p : ℕ)
      → length buffer ≡ cap
      → length src ≤ cap
      → p < c + length src
      → c + length src ≤ p + cap
      → get_or (write_at cap buffer c src) (p % cap) 0
        ≡ (if ltb p c then get_or buffer (p % cap) 0 else get_or src (p - c) 0)
  unfolding write_at
  get_or-write_at buffer c src p size n lo hi =
      rw (offset-eq-mod v c, sub_usize-eq cap (c % cap) (omega arith) (omega arith))
        (ground (
          arith,
          split_copy buffer src (c % cap) (p % cap) size (mod-lt c pos) n (mod-lt p pos),
          mod-around cap c p pos,
        ))
    where
      open v use {at_least, fits}

      pos : 0 < cap
      pos = omega arith

      below : c % cap < cap
      below = mod-lt c pos

  pub length-write_at :
      (buffer : List ℕ) (c : ℕ) (src : List ℕ) → length (write_at cap buffer c src) ≡ length buffer
  unfolding write_at
  length-write_at buffer c src =
      let first : ℕ = min (length src) (sub_usize cap (offset cap c)) in
      omega (
        arith,
        length-copy (copy buffer (offset cap c) (take first src)) 0 (drop first src),
        length-copy buffer (offset cap c) (take first src),
      )

  -- The two runs read out from storage offset `o` on.
  split_slice :
      (buffer : List ℕ) (o n i : ℕ)
      → length buffer ≡ cap
      → o < cap
      → n ≤ cap
      → i < n
      → get_or (slice buffer o (min n (cap - o)) ++ slice buffer 0 (n - min n (cap - o))) i 0
        ≡ get_or buffer (if ltb (o + i) cap then o + i else o + i - cap) 0
  split_slice buffer o n i size ho hn hi = ground (
    arith,
    get_or-append 0 (slice buffer o first) (slice buffer 0 (n - first)) i,
    length-slice buffer o first (omega arith),
    get_or-take 0 first (drop o buffer) i,
    get_or-drop 0 o buffer i,
    get_or-take 0 (n - first) (drop 0 buffer) (i - first),
    ap (λ k. get_or buffer k 0) turned,
  )
    where
      first : ℕ
      first = min n (cap - o)

      turned :
          (if ltb (o + i) cap then o + i else i - first)
          ≡ (if ltb (o + i) cap then o + i else o + i - cap)
      turned = ground arith

  -- What is read out is the storage from the cursor on, round its end.
  pub get_or-read_at :
      (buffer : List ℕ) (c n i : ℕ)
      → length buffer ≡ cap
      → n ≤ cap
      → i < n
      → get_or (read_at cap buffer c n) i 0 ≡ get_or buffer ((c + i) % cap) 0
  unfolding read_at
  get_or-read_at buffer c n i size hn hi =
      rw
        (
          offset-eq-mod v c,
          sub_usize-eq cap (c % cap) (omega arith) (omega arith),
          mod-near cap c i pos (omega arith),
        )
        (split_slice buffer (c % cap) n i size below hn hi)
    where
      open v use {at_least, fits}

      pos : 0 < cap
      pos = omega arith

      below : c % cap < cap
      below = mod-lt c pos

  pub length-read_at :
      (buffer : List ℕ) (c n : ℕ)
      → length buffer ≡ cap
      → n ≤ cap
      → length (read_at cap buffer c n) ≡ n
  unfolding read_at
  length-read_at buffer c n size hn =
      rw (offset-eq-mod v c, sub_usize-eq cap (c % cap) (omega arith) (omega arith))
        (omega (
          arith,
          length-append (slice buffer (c % cap) first) (slice buffer 0 (n - first)),
          length-slice buffer (c % cap) first (omega arith),
          length-slice buffer 0 (n - first) (omega arith),
        ))
    where
      open v use {at_least, fits}

      below : c % cap < cap
      below = mod-lt c (omega arith)

      first : ℕ
      first = min n (cap - c % cap)
