-- ===== src/Prelude/Mask.antt =====
-- `x & (2^k - 1)` is the remainder by `2^k`: the masked cursor of a ring whose size is a power of 2.
use Prim.Native.Nat.{
  ℕ, zero, suc, ◌+◌, ◌-◌, ◌*◌, ◌/◌, ◌%◌, ◌^◌, ◌≤◌, ◌<◌, min, max, bit_and, bit_or, digits,
  bit_and-bitwise, bit_or-bitwise,
}
use mathlib.Core.Path.{◌≡◌, refl, ◌∙◌, ap}
use native.Mathlib.Omega.{arith}
use native.Mathlib.Nat.{two-pow-succ, mod-eq_of_lt, mul-add-mod_self_left, div-add-mod, mod-lt}

pub pow2_pos : (k : ℕ) → 1 ≤ 2 ^ k
pow2_pos zero = omega arith
pow2_pos (suc k) = omega (arith, pow2_pos k, two-pow-succ k)

-- The remainder by an even number, from the lowest digit and the rest.
mod_double : (p x : ℕ) → 1 ≤ p → x % (p + p) ≡ (x / 2) % p * 2 + x % 2
mod_double p x h = ap (λ y. y % (p + p)) split ∙ mul-add-mod_self_left _ q low ∙ mod-eq_of_lt small
  where
    q : ℕ
    q = x / 2 / p

    low : ℕ
    low = (x / 2) % p * 2 + x % 2

    split : x ≡ (p + p) * q + low
    split = omega (arith, div-add-mod (x / 2) p)

    small : low < p + p
    small = omega (arith, mod-lt (x / 2) {m = p} h)

and_digits : ℕ → ℕ → ℕ → ℕ
and_digits = digits (λ b. zero) min

and_digits-zero : (n b : ℕ) → and_digits n zero b ≡ 0
unfolding and_digits
and_digits-zero zero b = refl
and_digits-zero (suc n) b = refl

and_digits-suc :
    (n a b : ℕ)
    → and_digits (suc n) (suc a) b ≡ and_digits n (suc a / 2) (b / 2) * 2 + min (suc a % 2) (b % 2)
unfolding and_digits
and_digits-suc n a b = refl

-- Half of a mask is the mask that is one digit shorter.
mask-half : (p : ℕ) → 1 ≤ p → ((p + p - 1) / 2 ≡ p - 1) × ((p + p - 1) % 2 ≡ 1)
mask-half p h = omega arith

low_digits : (n x k : ℕ) → x ≤ n → and_digits n x (2 ^ k - 1) ≡ x % 2 ^ k
low_digits n zero k h = omega (arith, pow2_pos k, and_digits-zero n (2 ^ k - 1))
low_digits zero (suc x) k h = absurd (omega arith)
low_digits (suc n) (suc x) zero h =
    omega (arith, and_digits-suc n x 0, low_digits n (suc x / 2) 0 (omega arith))
low_digits (suc n) (suc x) (suc k) h =
    rw (two-pow-succ k, and_digits-suc, (mask-half (2 ^ k) (pow2_pos k)).0)
      (omega (
        arith,
        pow2_pos k,
        mask-half (2 ^ k) (pow2_pos k),
        mod_double (2 ^ k) (suc x) (pow2_pos k),
        low_digits n (suc x / 2) k (omega arith),
      ))

pub bit_and-mask : (k x : ℕ) → bit_and x (2 ^ k - 1) ≡ x % 2 ^ k
unfolding and_digits
bit_and-mask k x = bit_and-bitwise x (2 ^ k - 1) ∙ low_digits x x k (omega arith)

and_digits_le : (n a b : ℕ) → and_digits n a b ≤ b
unfolding and_digits
and_digits_le zero a b = omega arith
and_digits_le (suc n) zero b = omega arith
and_digits_le (suc n) (suc a) b = omega (arith, and_digits_le n (suc a / 2) (b / 2))

pub bit_and_le : (a b : ℕ) → bit_and a b ≤ b
unfolding and_digits
bit_and_le a b = rw (bit_and-bitwise a b) (and_digits_le a a b)

or_digits : ℕ → ℕ → ℕ → ℕ
or_digits = digits (λ b. b) max

or_digits_lt : (n k a b : ℕ) → a < 2 ^ k → b < 2 ^ k → or_digits n a b < 2 ^ k
unfolding or_digits
or_digits_lt zero k a b g h = h
or_digits_lt (suc n) k zero b g h = h
or_digits_lt (suc n) zero (suc a) b g h = absurd (omega (arith, g))
or_digits_lt (suc n) (suc k) (suc a) b g h = omega (
  arith,
  two-pow-succ k,
  or_digits_lt n k (suc a / 2) (b / 2) (omega (arith, g, two-pow-succ k))
      (omega (arith, h, two-pow-succ k)),
)

-- Of two numbers with `k` digits.
pub bit_or_lt : (k a b : ℕ) → a < 2 ^ k → b < 2 ^ k → bit_or a b < 2 ^ k
unfolding or_digits
bit_or_lt k a b g h = rw (bit_or-bitwise a b) (or_digits_lt a k a b g h)
