-- ===== src/Bench/Corpus.antt =====
-- client-bench/src/corpus.h and corpus.cpp: the chat lines that the load generator sends. The tables
-- of corpus_data.cpp are arguments; none of them is empty.
pub mod Cutting
pub mod Lines
pub mod Rounds
mod Tests
use io_uring_net_engine.Prelude.{
  ℕ, zero, suc, ◌+◌, ◌-◌, ◌*◌, ◌/◌, ◌%◌, ◌^◌, Bool, true, false, List, [], ◌∷◌, ◌++◌, length, take,
  get_or, min, ltb, ◌==◌, if◌then◌else◌,
}
use Prim.Native.Nat.{max, bit_and}
use io_uring_net_engine.Prelude.Word.{u64_mod}
use io_uring_net_engine.Epoll.State.{Bytes}

pub record Corpus : Type 0 where
  pub lines : List Bytes
  pub cursor : ℕ
  pub total : ℕ
  pub min_bytes : ℕ
  pub max_bytes : ℕ

pub record Tables : Type 0 where
  pub tiny : List Bytes
  pub short : List Bytes
  pub mid : List Bytes
  pub long : List Bytes
  pub xlong : List Bytes

-- lcg's multiplier and increment.
unfoldable pub multiplier : ℕ
multiplier = 6364136223846793005

unfoldable pub increment : ℕ
increment = 1442695040888963407

-- lcg's constructor and next; its state is a number.
unfoldable pub new_lcg : ℕ → ℕ
new_lcg seed = (seed * multiplier + increment) % u64_mod

unfoldable pub advance : ℕ → ℕ
advance s = (s * multiplier + increment) % u64_mod

abbrev pub lcg_value : ℕ → ℕ
lcg_value s = s / 2 ^ 33 % 2 ^ 32

-- A choice or a roll is made in the state that `advance` gives.
abbrev pub pick_from : ℕ → List Bytes → Bytes
pick_from s table = get_or table (lcg_value (advance s) % length table) []

abbrev pub roll : ℕ → ℕ
roll s = lcg_value (advance s) % 100

module _ (t : Tables) where
  -- The text of an entry, and the state behind it.
  unfoldable pub draw : ℕ → Bytes × ℕ
  draw s =
      let s1 = advance s in
      let s2 = advance s1 in
      let s3 = advance s2 in
      let k = roll s in
      if ltb k 45
      then (if ltb (roll s2) 25
          then (pick_from s1 t.tiny ++ (32 ∷ []) ++ pick_from s3 t.tiny, advance s3)
          else (pick_from s1 t.tiny, s3))
      else if ltb k 75
      then (pick_from s1 t.short, s2)
      else if ltb k 94
      then (pick_from s1 t.mid, s2)
      else if ltb k 99
      then (pick_from s1 t.mid ++ (32 ∷ []) ++ pick_from s2 t.mid, s3)
      else if ltb (roll s1) 70
      then (pick_from s2 t.long, s3)
      else (pick_from s2 t.xlong, s3)

-- A byte that goes on with a character.
abbrev pub is_continuation : ℕ → Bool
is_continuation b = bit_and b 192 == 128

-- The loop that moves the cut to the front.
unfoldable pub cut_back : ℕ → Bytes → ℕ
cut_back zero s = 0
cut_back (suc cut) s = if is_continuation (get_or s (suc cut) 0) then cut_back cut s else suc cut

unfoldable pub truncate : ℕ → Bytes → Bytes
truncate max_bytes s = if ltb max_bytes (length s) then take (cut_back max_bytes s) s else s

-- A line is counted and put behind the others.
unfoldable pub add_line : Corpus → Bytes → Corpus
add_line c s = record c {
  lines = c.lines ++ (s ∷ []);
  total = c.total + length s;
  min_bytes = min c.min_bytes (length s);
  max_bytes = max c.max_bytes (length s);
}

abbrev pub no_lines : List Bytes → Bool
no_lines [] = true
no_lines (l ∷ ls) = false

module _ (t : Tables) (max_bytes : ℕ) where
  unfoldable pub build_loop : ℕ → ℕ → Corpus → Corpus
  build_loop zero s c = c
  build_loop (suc entries) s c =
      build_loop entries (draw t s).1 (add_line c (truncate max_bytes (draw t s).0))

  unfoldable pub build : ℕ → ℕ → Corpus → Corpus
  build seed entries c =
      let built =
        build_loop entries (new_lcg seed)
          (record c { lines = []; total = 0; min_bytes = u64_mod - 1; max_bytes = 0 }) in
      if no_lines built.lines then record built { min_bytes = 0 } else built

unfoldable pub next : Corpus → Bytes × Corpus
next c = (
  get_or c.lines c.cursor [],
  record c { cursor = if c.cursor + 1 == length c.lines then 0 else c.cursor + 1 },
)
