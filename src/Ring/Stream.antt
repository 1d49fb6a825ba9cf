-- ===== src/Ring/Stream.antt =====
-- What a ring promises, whatever its storage: a stream of at most `cap` bytes, oldest first, that
-- takes a whole run of bytes or nothing, and hands out at most what it holds.
use io_uring_net_engine.Prelude.{ℕ, ◌+◌, ◌-◌, List, ◌++◌, length, take, drop, ltb, if◌then◌else◌}

abbrev pub Stream : Type 0
Stream = List ℕ

module _ (cap : ℕ) where
  unfoldable pub free : Stream → ℕ
  free q = cap - length q

  unfoldable pub push : Stream → List ℕ → ℕ × Stream
  push q xs = if ltb cap (length q + length xs) then (0, q) else (length xs, q ++ xs)

unfoldable pub pop : Stream → ℕ → List ℕ × Stream
pop q n = (take n q, drop n q)
