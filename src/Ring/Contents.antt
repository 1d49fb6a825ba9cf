-- ===== src/Ring/Contents.antt =====
-- The stream that a ring holds: the bytes between its cursors, round the end of the storage.
use native.Mathlib.Nat.{add-zero}
use io_uring_net_engine.Prelude.{
  ℕ, zero, suc, ◌+◌, ◌-◌, ◌%◌, ◌≤◌, ◌<◌, ◌≡◌, refl, ap, arith, List, [], ◌∷◌, ◌++◌, length, take,
  drop, get_or, length-append, length-take,
}
use io_uring_net_engine.Prelude.Memory.{eq_of_get_or, get_or-append, get_or-take}
use io_uring_net_engine.Ring.Storage.{get_or-write_at, get_or-read_at, length-read_at}
use io_uring_net_engine.Ring.Stream.{Stream}
use io_uring_net_engine.Ring.{Ring, IsCapacity, write_at, read_at}

module _ (cap : ℕ) (buffer : List ℕ) where
  -- The `n` bytes from position `d` on.
  unfoldable pub bytes_from : ℕ → ℕ → Stream
  bytes_from d zero = []
  bytes_from d (suc n) = get_or buffer (d % cap) 0 ∷ bytes_from (suc d) n

  pub length-bytes_from : (d n : ℕ) → length (bytes_from d n) ≡ n
  unfolding bytes_from
  length-bytes_from d zero = refl
  length-bytes_from d (suc n) = ap suc (length-bytes_from (suc d) n)

  pub get_or-bytes_from :
      (d n i : ℕ) → i < n → get_or (bytes_from d n) i 0 ≡ get_or buffer ((d + i) % cap) 0
  unfolding bytes_from
  get_or-bytes_from d zero i h = absurd (omega arith)
  get_or-bytes_from d (suc n) zero h = ap (λ k. get_or buffer (k % cap) 0) (omega arith)
  get_or-bytes_from d (suc n) (suc i) h =
      ground (arith, get_or-bytes_from (suc d) n i (omega arith), ap (λ k. k % cap) shift)
    where
      shift : suc d + i ≡ d + suc i
      shift = omega arith

abbrev pub contents : ℕ → Ring → Stream
contents cap r = bytes_from cap r.buffer r.dequeue_cursor (r.enqueue_cursor - r.dequeue_cursor)

module _ {cap : ℕ} (v : IsCapacity cap) where
  -- The bytes that a write puts behind those of the last round follow them.
  pub bytes_from-write_at :
      (buffer : List ℕ) (d e : ℕ) (src : List ℕ)
      → length buffer ≡ cap
      → d ≤ e
      → e + length src ≤ d + cap
      → bytes_from cap (write_at cap buffer e src) d (e + length src - d)
        ≡ bytes_from cap buffer d (e - d) ++ src
  bytes_from-write_at buffer d e src size le room =
      eq_of_get_or _ _ 0 same_length
        λ i h. same i (omega (arith, length-bytes_from cap _ d (e + length src - d)))
    where
      old : List ℕ
      old = bytes_from cap buffer d (e - d)

      new : List ℕ
      new = bytes_from cap (write_at cap buffer e src) d (e + length src - d)

      same_length : length new ≡ length (old ++ src)
      same_length = omega (
        arith,
        length-append old src,
        length-bytes_from cap buffer d (e - d),
        length-bytes_from cap (write_at cap buffer e src) d (e + length src - d),
      )

      same : (i : ℕ) → i < e + length src - d → get_or new i 0 ≡ get_or (old ++ src) i 0
      same i h = ground (
        arith,
        get_or-append 0 old src i,
        length-bytes_from cap buffer d (e - d),
        get_or-bytes_from cap buffer d (e - d) i,
        get_or-bytes_from cap (write_at cap buffer e src) d (e + length src - d) i h,
        get_or-write_at v buffer e src (d + i) size (omega arith) (omega arith) (omega arith),
        ap (λ k. get_or src k 0) shift,
      )
        where
          shift : d + i - e ≡ i - (e - d)
          shift = omega arith

  -- What is read out from position `d` on are the first bytes from there.
  pub read_at-eq :
      (buffer : List ℕ) (d m n : ℕ)
      → length buffer ≡ cap
      → n ≤ m
      → m ≤ cap
      → read_at cap buffer d n ≡ take n (bytes_from cap buffer d m)
  read_at-eq buffer d m n size le room =
      eq_of_get_or _ _ 0 same_length
        λ i h. same i (omega (arith, length-read_at v buffer d n size (omega arith)))
    where
      all : List ℕ
      all = bytes_from cap buffer d m

      same_length : length (read_at cap buffer d n) ≡ length (take n all)
      same_length = omega (
        arith,
        length-read_at v buffer d n size (omega arith),
        length-take n all,
        length-bytes_from cap buffer d m,
      )

      same : (i : ℕ) → i < n → get_or (read_at cap buffer d n) i 0 ≡ get_or (take n all) i 0
      same i h = ground (
        arith,
        get_or-read_at v buffer d n i size (omega arith) h,
        get_or-take 0 n all i,
        get_or-bytes_from cap buffer d m i (omega arith),
      )

  pub drop-bytes_from :
      (buffer : List ℕ) (n d m : ℕ)
      → drop n (bytes_from cap buffer d m) ≡ bytes_from cap buffer (d + n) (m - n)
  unfolding bytes_from
  drop-bytes_from buffer zero d m = ground (arith, add-zero d)
  drop-bytes_from buffer (suc n) d zero = ground arith
  drop-bytes_from buffer (suc n) d (suc m) =
      ground (arith, drop-bytes_from buffer n (suc d) m, shift)
    where
      shift : suc d + n ≡ d + suc n
      shift = omega arith
