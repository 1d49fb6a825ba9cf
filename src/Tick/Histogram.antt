-- ===== src/Tick/Histogram.antt =====
-- server-epoll/tick_logic.h, `hist`: buckets of 1 us up to 1 s, with the samples past them counted
-- apart. Times are numbers of nanoseconds: `add` turns a negative one into 0 first, which the caller
-- does here. A percentile is asked for by the count `want` that the source computes from `p` in
-- floating point. A bucket is a 32-bit counter; the 64-bit counters, which would take centuries to
-- wrap, are numbers.
pub mod Count
use io_uring_net_engine.Prelude.{
  ℕ, zero, suc, ◌+◌, ◌-◌, ◌*◌, ◌/◌, ◌%◌, ◌^◌, Bool, true, false, List, [], ◌∷◌, get_or, set,
  replicate, ltb, leb, ◌==◌, if◌then◌else◌,
}
use io_uring_net_engine.Prelude.Word.{u32_mod}

abbrev pub bucket_ns : ℕ
bucket_ns = 1000

-- Opaque where nothing asks for it, so that no proof writes out a million buckets.
unfoldable pub buckets : ℕ
buckets = 1000000

pub record Hist : Type 0 where
  pub counts : List ℕ
  pub total : ℕ
  pub overflow : ℕ
  pub max_ns : ℕ
  pub min_ns : ℕ

-- INT64_MAX.
abbrev pub no_minimum : ℕ
no_minimum = 2 ^ 63 - 1

-- init, when mmap succeeds: fresh pages are 0.
unfoldable pub new_hist : Hist
new_hist = record {
  counts = replicate buckets 0;
  total = 0;
  overflow = 0;
  max_ns = 0;
  min_ns = no_minimum;
}

unfoldable pub add : Hist → ℕ → Hist
add h ns =
    let b = ns / bucket_ns in
    let seen = record h {
      total = h.total + 1;
      max_ns = if ltb h.max_ns ns then ns else h.max_ns;
      min_ns = if ltb ns h.min_ns then ns else h.min_ns;
    } in
    if leb buckets b
    then record seen { overflow = h.overflow + 1 }
    else record seen { counts = set h.counts b ((get_or h.counts b 0 + 1) % u32_mod) }

-- pct's loop: from bucket `b` on, with `seen` samples in the buckets before.
unfoldable pub pct_from : ℕ → List ℕ → ℕ → ℕ → ℕ × Bool
pct_from want [] b seen = (b * bucket_ns, true)
pct_from want (n ∷ ns) b seen =
    let rest = pct_from want ns (b + 1) (seen + n) in
    if leb want (seen + n) then (b * bucket_ns, false) else rest

-- The time, and whether it is beyond the range.
unfoldable pub pct : Hist → ℕ → ℕ × Bool
pct h want = if h.total == 0 then (0, false) else pct_from want h.counts 0 0
