-- ===== src/Bench/Corpus/Tests.antt =====
-- The corpus: runs of the code, and each theorem at an input that meets its hypotheses.
use io_uring_net_engine.Prelude.{◌≤◌, ◌<◌, ◌≡◌, ◌⊎◌, refl, [], ◌∷◌, length}
use io_uring_net_engine.Epoll.State.{Bytes}
use io_uring_net_engine.Bench.Corpus.{
  Corpus, Tables, multiplier, increment, new_lcg, advance, draw, cut_back, truncate, add_line,
  build_loop, build,
}
use io_uring_net_engine.Bench.Corpus.Cutting.{Cut, truncate-Cut}
use io_uring_net_engine.Bench.Corpus.Lines.{Measured, build-Measured}

abbrev tables : Tables
tables = record {
  tiny = (97 ∷ []) ∷ (98 ∷ []) ∷ [];
  short = (97 ∷ 98 ∷ 99 ∷ []) ∷ [];
  mid = (100 ∷ 101 ∷ 102 ∷ 103 ∷ []) ∷ [];
  long = (104 ∷ 234 ∷ 176 ∷ 128 ∷ []) ∷ [];
  xlong = (105 ∷ 234 ∷ 176 ∷ 128 ∷ 105 ∷ []) ∷ [];
}

abbrev none_yet : Corpus
none_yet = record { lines = []; cursor = 0; total = 0; min_bytes = 0; max_bytes = 0 }

-- A character of three bytes does not fit.
abbrev korean : Bytes
korean = 104 ∷ 234 ∷ 176 ∷ 128 ∷ []

shorter : truncate 3 korean ≡ 104 ∷ []
unfolding truncate cut_back
shorter = refl

-- The first state for the seed 1.
seeded : new_lcg 1 ≡ 7806831264735756412
unfolding new_lcg multiplier increment
seeded = refl

five : (build tables 8 1 5 none_yet).total ≡ 19
unfolding build build_loop add_line draw truncate cut_back new_lcg advance multiplier increment
five = refl

truncate-Cut_example :
    (Cut 3 korean (truncate 3 korean) × (3 < length korean))
    ⊎ ((truncate 3 korean ≡ korean) × (length korean ≤ 3))
truncate-Cut_example = truncate-Cut 3 korean

build-Measured_example :
    Measured 8 (build tables 8 1 5 none_yet) × (length (build tables 8 1 5 none_yet).lines ≡ 5)
build-Measured_example = build-Measured tables 8 1 5 none_yet

abbrev three : Corpus
three = record none_yet { lines = (1 ∷ []) ∷ (2 ∷ []) ∷ (3 ∷ []) ∷ [] }
