-- ===== src/Bench/Config/Tests.antt =====
-- The command line: runs of the code, and each theorem at an input that meets its hypotheses.
use Prim.Native.String.{String}
use text.Mathlib.Text.{◌==◌}
use io_uring_net_engine.Prelude.{◌≡◌, refl, true, false, List, [], ◌∷◌, if◌then◌else◌}
use io_uring_net_engine.Prelude.Int.{ℤ, pos, negsuc, is_negative}
use io_uring_net_engine.Bench.Config.{
  Config, Parsed, rejected, overflowed, accepted, set_flag, set_proto, set_value, parse_loop,
  clamp_size, check, parse_args,
}
use io_uring_net_engine.Bench.Config.Usable.{Usable, parse_args-Usable}

-- config's initialisers, with a rate in whole messages.
abbrev defaults : Config ℤ
defaults = record {
  host = "127.0.0.1";
  port = 9000;
  conns = pos 10000;
  per_room = pos 10;
  src_ips = pos 1;
  src_ip_base = pos 1;
  inflight = pos 256;
  rcvbuf = pos 8192;
  sndbuf = pos 8192;
  rate = pos 1;
  duration = pos 10;
  size = pos 64;
  size_mix = false;
  node = 0;
  use_corpus = false;
  corpus_seed = 1;
  dump = "";
  server_pid = pos 0;
  len_includes_header = false;
}

-- Some numbers.
abbrev numeral : String → ℤ
numeral s =
    if s == "-1"
    then negsuc 0
    else if s == "4000"
    then pos 4000
    else if s == "200"
    then pos 200
    else if s == "2147483647"
    then pos 2147483647
    else pos 0

abbrev parsed : List String → Parsed ℤ
parsed argv = parse_args numeral numeral is_negative argv defaults

abbrev size_of : Parsed ℤ → ℤ
size_of rejected = negsuc 0
size_of overflowed = negsuc 1
size_of (accepted c) = c.size

clamped : size_of (parsed ("--corpus" ∷ "--size" ∷ "4000" ∷ [])) ≡ pos 988
unfolding parse_args parse_loop set_flag set_value check clamp_size
clamped = refl

too_far : parsed ("--src-ip-base" ∷ "200" ∷ "--src-ips" ∷ "200" ∷ []) ≡ rejected
unfolding parse_args parse_loop set_flag set_value check clamp_size
too_far = refl

-- 2147483647 + 200 is no int.
beyond_int : parsed ("--src-ip-base" ∷ "2147483647" ∷ "--src-ips" ∷ "200" ∷ []) ≡ overflowed
unfolding parse_args parse_loop set_flag set_value check clamp_size
beyond_int = refl

no_value : parsed ("--size" ∷ []) ≡ rejected
unfolding parse_args parse_loop set_flag set_value check clamp_size
no_value = refl

abbrev iouring : Config ℤ
iouring = record defaults { len_includes_header = true; size = pos 988; port = 4000 }

accepts :
    parsed ("--proto" ∷ "iouring" ∷ "--port" ∷ "4000" ∷ "--size" ∷ "4000" ∷ []) ≡ accepted iouring
unfolding parse_args parse_loop set_flag set_value set_proto check clamp_size
accepts = refl

parse_args-Usable_example : Usable is_negative iouring
parse_args-Usable_example =
    parse_args-Usable numeral numeral is_negative
      ("--proto" ∷ "iouring" ∷ "--port" ∷ "4000" ∷ "--size" ∷ "4000" ∷ []) defaults iouring accepts
