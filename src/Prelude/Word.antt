-- ===== src/Prelude/Word.antt =====
-- `usize` (64 bits, unsigned) and the range of `i64`: sums and differences with their wrap-around.
use Prim.Native.Nat.{ℕ, ◌+◌, ◌-◌, ◌%◌, ◌^◌, ◌≤◌, ◌<◌}
use mathlib.Core.Path.{◌≡◌}
use native.Mathlib.Omega.{arith}

abbrev pub u64_mod : ℕ
u64_mod = 2 ^ 64

abbrev pub u32_mod : ℕ
u32_mod = 2 ^ 32

abbrev pub u16_mod : ℕ
u16_mod = 2 ^ 16

-- One more than the largest `i64`.
abbrev pub i64_limit : ℕ
i64_limit = 2 ^ 63

abbrev pub add_usize : ℕ → ℕ → ℕ
add_usize a b = (a + b) % u64_mod

-- `-` on ℕ stops at 0, so the modulus is added first.
abbrev pub sub_usize : ℕ → ℕ → ℕ
sub_usize a b = (a + u64_mod - b) % u64_mod

pub sub_usize-eq : (a b : ℕ) → b ≤ a → a < u64_mod → sub_usize a b ≡ a - b
sub_usize-eq a b h l = omega arith
