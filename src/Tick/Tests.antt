-- ===== src/Tick/Tests.antt =====
-- A tick of 100 ns over two words of sessions: runs of the code, and each theorem at an input that
-- meets its hypotheses.
use io_uring_net_engine.Prelude.{◌+◌, ◌≤◌, ◌<◌, ◌≡◌, ◌⊎◌, refl, arith, true, false, [], ◌∷◌}
use io_uring_net_engine.Prelude.Word.{u32_mod}
use io_uring_net_engine.Tick.{Tick, session_add, maybe_tick, settle}
use io_uring_net_engine.Tick.Histogram.{Hist, new_hist, add, pct, pct_from}
use io_uring_net_engine.Tick.Histogram.Count.{
  Counted, new_hist-Counted, add-Counted, Reaches, pct-Reaches,
}
use io_uring_net_engine.Tick.Deadline.{maybe_tick_deadline}

-- Six samples, one of them beyond the buckets that are shown.
abbrev few : Hist
few = record { counts = 2 ∷ 0 ∷ 3 ∷ []; total = 6; overflow = 1; max_ns = 9000; min_ns = 10 }

abbrev g : Tick
g = record {
  enabled = true;
  period = 100;
  slots = 128;
  live = 0 ∷ 4 ∷ [];
  live_n = 1;
  deadline = 1000;
  drain_acc = 0;
  flush_acc = 0;
  wakes = 3;
  t_mark = 0;
  ticks = 7;
  overruns = 0;
  msgs = 0;
  h_drain = few;
  h_tick = few;
  h_flush = few;
  h_wakes = few;
}

median : pct few 3 ≡ (2000, false)
unfolding pct pct_from
median = refl

beyond : pct few 6 ≡ (3000, true)
unfolding pct pct_from
beyond = refl

late : (maybe_tick g 1010 1150).deadline ≡ 1250
unfolding maybe_tick settle
late = refl

adds : (session_add g 70).live ≡ 0 ∷ 68 ∷ []
unfolding session_add
adds = refl

maybe_tick_deadline_example :
    let g' = maybe_tick g 1010 1150 in
    (1150 ≤ g'.deadline)
    × ((g'.deadline ≤ 1150 + 100)
        × ((g'.ticks ≡ 7 + 1)
            × ((g'.deadline ≡ 1000 + 100) × (g'.overruns ≡ 0)
                ⊎ (1000 + 100 < 1150) × (g'.overruns ≡ 0 + 1))))
maybe_tick_deadline_example = maybe_tick_deadline g 1010 1150 refl (omega arith) (omega arith)

fits : new_hist.total + 1 < u32_mod
unfolding new_hist
fits = omega arith

add-Counted_example : Counted (add new_hist 1500) × ((add new_hist 1500).total ≡ new_hist.total + 1)
add-Counted_example = add-Counted new_hist 1500 new_hist-Counted fits

pct-Reaches_example : Reaches 3 few.counts 0 0 (pct few 3)
pct-Reaches_example = pct-Reaches few 3 (omega arith) (omega arith)
