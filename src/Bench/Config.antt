-- ===== src/Bench/Config.antt =====
-- client-bench/src/config.h and config.cpp: the command line. An argument is a String; atoi, atof and
-- the type double are arguments. What is printed on the way is left out.
pub mod Usable
mod Tests
use Prim.Native.String.{String}
use text.Mathlib.Text.{◌==◌}
use io_uring_net_engine.Prelude.{
  ℕ, ◌+◌, ◌-◌, ◌%◌, ◌^◌, Bool, true, false, not, ◌&&◌, ◌||◌, Option, none, some, List, [], ◌∷◌, ltb,
  leb, if◌then◌else◌,
}
use io_uring_net_engine.Prelude.Int.{ℤ, pos, negsuc, is_negative, is_positive, to_nat}
use io_uring_net_engine.Prelude.Word.{u16_mod}
use io_uring_net_engine.Bench.{blob_header}

-- k_max_blob
abbrev pub max_blob : ℕ
max_blob = 1024 - 16

-- static_cast<uint16_t>
abbrev pub to_u16 : ℤ → ℕ
to_u16 (pos n) = n % u16_mod
to_u16 (negsuc n) = u16_mod - 1 - n % u16_mod

module _ (Double : Type 0) where
  -- The last field is g_proto's.
  pub record Config : Type 0 where
    pub host : String
    pub port : ℕ
    pub conns : ℤ
    pub per_room : ℤ
    pub src_ips : ℤ
    pub src_ip_base : ℤ
    pub inflight : ℤ
    pub rcvbuf : ℤ
    pub sndbuf : ℤ
    pub rate : Double
    pub duration : ℤ
    pub size : ℤ
    pub size_mix : Bool
    pub node : ℕ
    pub use_corpus : Bool
    pub corpus_seed : ℕ
    pub dump : String
    pub server_pid : ℤ
    pub len_includes_header : Bool

  -- parse_args returns false, or adds beyond an int, which is undefined, or returns true.
  pub data Parsed : Type 0 where
    rejected : Parsed
    overflowed : Parsed
    accepted : Config → Parsed

module _ {Double : Type 0} where
  -- An option that stands alone.
  unfoldable pub set_flag : String → Config Double → Option (Config Double)
  set_flag a cfg =
      if a == "--size-mix"
      then some (record cfg { size_mix = true })
      else if a == "--corpus"
      then some (record cfg { use_corpus = true })
      else none

  -- What an option with a negative number is refused for.
  abbrev unless_negative : ℤ → Config Double → Option (Config Double)
  unless_negative (pos n) cfg = some cfg
  unless_negative (negsuc n) cfg = none

  unfoldable pub set_proto : String → Config Double → Option (Config Double)
  set_proto p cfg =
      if p == "study"
      then some (record cfg { len_includes_header = false })
      else if p == "iouring"
      then some (record cfg { len_includes_header = true })
      else none

  -- The last two tests, on a size that is not negative.
  unfoldable pub clamp_size : Config Double → Config Double
  clamp_size cfg =
      if ltb max_blob (to_nat cfg.size + blob_header)
      then record cfg { size = pos (max_blob - blob_header) }
      else record cfg { size = pos (to_nat cfg.size) }

-- `negative` is the comparison of a double with 0.
module _ {Double : Type 0} (negative : Double → Bool) where
  -- The tests behind the loop.
  unfoldable pub check : Config Double → Parsed Double
  check cfg =
      if not (is_positive cfg.conns)
        || not (is_positive cfg.per_room)
        || not (is_positive cfg.src_ips)
        || not (is_positive cfg.inflight)
      then rejected
      else if not (is_positive cfg.src_ip_base)
      then rejected
      else if leb (2 ^ 31) (to_nat cfg.src_ip_base + to_nat cfg.src_ips)
      then overflowed
      else if ltb 255 (to_nat cfg.src_ip_base + to_nat cfg.src_ips - 1)
      then rejected
      else if is_negative cfg.server_pid
      then rejected
      else if negative cfg.rate || is_negative cfg.duration
      then rejected
      else accepted (clamp_size cfg)

module _ {Double : Type 0} (atoi : String → ℤ) (atof : String → Double) where
  -- An option and its value; usage is `none`.
  unfoldable pub set_value : String → String → Config Double → Option (Config Double)
  set_value a v cfg =
      if a == "--host"
      then some (record cfg { host = v })
      else if a == "--port"
      then some (record cfg { port = to_u16 (atoi v) })
      else if a == "--rate"
      then some (record cfg { rate = atof v })
      else if a == "--corpus-seed"
      then unless_negative (atoi v) (record cfg { corpus_seed = to_nat (atoi v) })
      else if a == "--proto"
      then set_proto v cfg
      else if a == "--conns"
      then some (record cfg { conns = atoi v })
      else if a == "--per-room"
      then some (record cfg { per_room = atoi v })
      else if a == "--src-ips"
      then some (record cfg { src_ips = atoi v })
      else if a == "--src-ip-base"
      then some (record cfg { src_ip_base = atoi v })
      else if a == "--dump"
      then some (record cfg { dump = v })
      else if a == "--node"
      then unless_negative (atoi v) (record cfg { node = to_nat (atoi v) })
      else if a == "--server-pid"
      then some (record cfg { server_pid = atoi v })
      else if a == "--inflight"
      then some (record cfg { inflight = atoi v })
      else if a == "--rcvbuf"
      then some (record cfg { rcvbuf = atoi v })
      else if a == "--sndbuf"
      then some (record cfg { sndbuf = atoi v })
      else if a == "--duration"
      then some (record cfg { duration = atoi v })
      else if a == "--size"
      then some (record cfg { size = atoi v })
      else none

  -- The loop over argv, from argv[1].
  unfoldable pub parse_loop : List String → Config Double → Option (Config Double)
  parse_loop [] cfg = some cfg
  parse_loop (a ∷ []) cfg = set_flag a cfg
  parse_loop (a ∷ (v ∷ rest)) cfg = elim (set_flag a cfg) [
    | some flagged ↦ parse_loop (v ∷ rest) flagged
    | none ↦ elim (set_value a v cfg) [ some valued ↦ parse_loop rest valued | none ↦ none ]
  ]

  unfoldable pub parse_args : (Double → Bool) → List String → Config Double → Parsed Double
  parse_args negative argv cfg = elim (parse_loop argv cfg) [
    | some c ↦ check negative c
    | none ↦ rejected
  ]
