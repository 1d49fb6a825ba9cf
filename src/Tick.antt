-- ===== src/Tick.antt =====
-- server-epoll/tick_logic.h: the fixed-rate tick of the epoll server's measurements. A reading of the
-- clock is an argument, a number of nanoseconds that never goes back. The blocks that `touch_block`
-- walks and the time that `spin_ns` burns are left out: nothing reads them.
pub mod Histogram
pub mod Deadline
pub mod Live
mod Tests
use io_uring_net_engine.Prelude.{
  ℕ, zero, suc, ◌+◌, ◌-◌, ◌*◌, ◌/◌, ◌%◌, ◌^◌, Bool, true, false, not, ◌||◌, Option, none, some,
  List, [], ◌∷◌, get_or, set, ltb, leb, ◌==◌, if◌then◌else◌,
}
use io_uring_net_engine.Tick.Histogram.{Hist, bucket_ns, add}

pub record Tick : Type 0 where
  pub enabled : Bool
  pub period : ℕ
  pub slots : ℕ
  -- The bitmap: one bit for each slot, in words of 64.
  pub live : List ℕ
  pub live_n : ℕ
  pub deadline : ℕ
  pub drain_acc : ℕ
  pub flush_acc : ℕ
  pub wakes : ℕ
  pub t_mark : ℕ
  pub ticks : ℕ
  pub overruns : ℕ
  pub msgs : ℕ
  pub h_drain : Hist
  pub h_tick : Hist
  pub h_flush : Hist
  pub h_wakes : Hist

-- word & (1 << i), as 0 or 1.
abbrev pub bit : ℕ → ℕ → ℕ
bit word i = word / 2 ^ i % 2

abbrev pub outside : Tick → ℕ → Bool
outside g fd = not g.enabled || leb g.slots fd

-- A bit that is clear is set by adding it, as `|=` does, and one that is set is cleared by taking it
-- away, as `&= ~` does.
unfoldable pub session_add : Tick → ℕ → Tick
session_add g fd =
    let word = get_or g.live (fd / 64) 0 in
    if outside g fd
    then g
    else if bit word (fd % 64) == 0
    then record g { live = set g.live (fd / 64) (word + 2 ^ (fd % 64)); live_n = g.live_n + 1 }
    else g

unfoldable pub session_remove : Tick → ℕ → Tick
session_remove g fd =
    let word = get_or g.live (fd / 64) 0 in
    if outside g fd
    then g
    else if bit word (fd % 64) == 0
    then g
    else record g { live = set g.live (fd / 64) (word - 2 ^ (fd % 64)); live_n = g.live_n - 1 }

unfoldable pub on_msg : Tick → ℕ → Tick
on_msg g fd = if outside g fd then g else record g { msgs = g.msgs + 1 }

-- `none` is -1: block without a timeout.
unfoldable pub timeout_ns : Tick → ℕ → Option ℕ
timeout_ns g now = if g.enabled then some (g.deadline - now) else none

unfoldable pub drain_begin : Tick → ℕ → Tick
drain_begin g now = if g.enabled then record g { t_mark = now; wakes = g.wakes + 1 } else g

unfoldable pub drain_end : Tick → ℕ → Tick
drain_end g now = if g.enabled then record g { drain_acc = g.drain_acc + (now - g.t_mark) } else g

unfoldable pub flush_begin : Tick → ℕ → Tick
flush_begin g now = if g.enabled then record g { t_mark = now } else g

unfoldable pub flush_end : Tick → ℕ → Tick
flush_end g now = if g.enabled then record g { flush_acc = g.flush_acc + (now - g.t_mark) } else g

abbrev pub due : Tick → ℕ → Bool
due g t0 = if g.enabled then leb g.deadline t0 else false

-- The end of maybe_tick, with the clock read before and after the tick.
unfoldable pub settle : Tick → ℕ → ℕ → Tick
settle g t0 t1 =
    let late = ltb (g.deadline + g.period) t1 in
    record g {
      ticks = g.ticks + 1;
      h_drain = add g.h_drain g.drain_acc;
      h_flush = add g.h_flush g.flush_acc;
      h_tick = add g.h_tick (t1 - t0);
      h_wakes = add g.h_wakes (g.wakes * bucket_ns);
      drain_acc = 0;
      flush_acc = 0;
      wakes = 0;
      overruns = if late then g.overruns + 1 else g.overruns;
      deadline = if late then t1 + g.period else g.deadline + g.period;
    }

-- maybe_tick, where `on_tick` works on a state of its own.
unfoldable pub maybe_tick : Tick → ℕ → ℕ → Tick
maybe_tick g t0 t1 = if due g t0 then settle g t0 t1 else g
