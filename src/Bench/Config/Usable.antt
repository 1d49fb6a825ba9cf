-- ===== src/Bench/Config/Usable.antt =====
-- client-bench/src/config.cpp: what holds of a configuration that parse_args accepts.
use Prim.Native.String.{String}
use io_uring_net_engine.Prelude.{
  ℕ, ◌+◌, ◌-◌, ◌^◌, ◌≤◌, ◌≡◌, refl, ap, subst, arith, Bool, true, false, not, ◌||◌, Option, none,
  some, List, ltb, leb, if◌then◌else◌, Bool-cases, inl, inr,
}
use io_uring_net_engine.Prelude.Int.{ℤ, pos, is_negative, is_positive, to_nat}
use io_uring_net_engine.Bench.{blob_header}
use io_uring_net_engine.Bench.Config.{
  Config, max_blob, Parsed, rejected, overflowed, accepted, parse_loop, clamp_size, check,
  parse_args,
}

module _ {Double : Type 0} (negative : Double → Bool) where
  pub record Usable (cfg : Config Double) : Type 0 where
    pub conns : is_positive cfg.conns ≡ true
    pub per_room : is_positive cfg.per_room ≡ true
    pub src_ips : is_positive cfg.src_ips ≡ true
    pub inflight : is_positive cfg.inflight ≡ true
    pub src_ip_base : is_positive cfg.src_ip_base ≡ true
    pub last_address : to_nat cfg.src_ip_base + to_nat cfg.src_ips ≤ 256
    pub server_pid : is_negative cfg.server_pid ≡ false
    pub rate : negative cfg.rate ≡ false
    pub duration : is_negative cfg.duration ≡ false
    pub blob : (n : ℕ) × ((cfg.size ≡ pos n) × (n + blob_header ≤ max_blob))

neither : (a b : Bool) → (a || b) ≡ false → (a ≡ false) × (b ≡ false)
neither true b e = absurd (ground (arith, e))
neither false b e = (refl, e)

so : (b : Bool) → not b ≡ false → b ≡ true
so true e = refl
so false e = absurd (ground (arith, e))

module _ {Double : Type 0} where
  -- A test that has let a configuration pass.
  passed :
      (b : Bool) (y : Parsed Double) (c : Config Double)
      → (if b then rejected else y) ≡ accepted c
      → (b ≡ false) × (y ≡ accepted c)
  passed true y c e = absurd (ground (arith, e))
  passed false y c e = (refl, e)

  passed_sum :
      (b : Bool) (y : Parsed Double) (c : Config Double)
      → (if b then overflowed else y) ≡ accepted c
      → (b ≡ false) × (y ≡ accepted c)
  passed_sum true y c e = absurd (ground (arith, e))
  passed_sum false y c e = (refl, e)

  abbrev config_of : Config Double → Parsed Double → Config Double
  config_of d rejected = d
  config_of d overflowed = d
  config_of d (accepted c) = c

  clamp_size-Usable :
      (negative : Double → Bool) (cfg : Config Double)
      → ((n : ℕ) → n + blob_header ≤ max_blob → Usable negative (record cfg { size = pos n }))
      → Usable negative (clamp_size cfg)
  unfolding clamp_size
  clamp_size-Usable negative cfg u =
      elim (Bool-cases (ltb max_blob (to_nat cfg.size + blob_header))) [
        | inl e ↦ rw (e, clamp_size) (u (max_blob - blob_header) (omega arith))
        | inr e ↦ rw (e, clamp_size) (u (to_nat cfg.size) (ground (arith, e)))
      ]

  check-Usable :
      (negative : Double → Bool) (cfg c : Config Double)
      → check negative cfg ≡ accepted c
      → Usable negative c
  unfolding check
  check-Usable negative cfg c e =
      let counts =
        passed
          (not (is_positive cfg.conns)
            || not (is_positive cfg.per_room)
            || not (is_positive cfg.src_ips)
            || not (is_positive cfg.inflight))
          _ c e in
      let base = passed (not (is_positive cfg.src_ip_base)) _ c counts.1 in
      let sum =
        passed_sum (leb (2 ^ 31) (to_nat cfg.src_ip_base + to_nat cfg.src_ips)) _ c base.1 in
      let last = passed (ltb 255 (to_nat cfg.src_ip_base + to_nat cfg.src_ips - 1)) _ c sum.1 in
      let pid = passed (is_negative cfg.server_pid) _ c last.1 in
      let rates = passed (negative cfg.rate || is_negative cfg.duration) _ c pid.1 in
      let n3 =
        neither
          (not (is_positive cfg.conns)
            || not (is_positive cfg.per_room)
            || not (is_positive cfg.src_ips))
          (not (is_positive cfg.inflight)) counts.0 in
      let n2 =
        neither (not (is_positive cfg.conns) || not (is_positive cfg.per_room))
          (not (is_positive cfg.src_ips)) n3.0 in
      let n1 = neither (not (is_positive cfg.conns)) (not (is_positive cfg.per_room)) n2.0 in
      let nr = neither (negative cfg.rate) _ rates.0 in
      subst (λ d. Usable negative d) (ap (λ x. config_of cfg x) rates.1)
        (clamp_size-Usable negative cfg (λ n fits. record {
          conns = so (is_positive cfg.conns) n1.0;
          per_room = so (is_positive cfg.per_room) n1.1;
          src_ips = so (is_positive cfg.src_ips) n2.1;
          inflight = so (is_positive cfg.inflight) n3.1;
          src_ip_base = so (is_positive cfg.src_ip_base) base.0;
          last_address = ground (arith, last.0);
          server_pid = pid.0;
          rate = nr.0;
          duration = nr.1;
          blob = (n, (refl, fits));
        }))

  -- A configuration that parse_args accepts, whatever the command line and the defaults: the counts are
  -- positive, the source addresses end at 127.0.0.255 at most, the server's pid, the rate and the
  -- duration are not negative, and the filler with its header fits the server's cap on a payload.
  pub parse_args-Usable :
      (atoi : String → ℤ) (atof : String → Double) (negative : Double → Bool) (argv : List String)
      (cfg c : Config Double)
      → parse_args atoi atof negative argv cfg ≡ accepted c
      → Usable negative c
  unfolding parse_args
  parse_args-Usable atoi atof negative argv cfg c e = go (parse_loop atoi atof argv cfg) e
    where
      go :
          (r : Option (Config Double))
          → (elim r [ some x ↦ check negative x | none ↦ rejected ]) ≡ accepted c
          → Usable negative c
      go (some x) h = check-Usable negative x c h
      go none h = absurd (ground (arith, h))
