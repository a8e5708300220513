-- ===== src/Base/Words.antt =====
-- 32-bit words: `unsigned`, `unsigned long` and the bit patterns of `int` on the ARM32 targets.
use Prim.Native.Nat.{
  ℕ, zero, suc, ◌+◌, ◌-◌, ◌*◌, ◌/◌, ◌%◌, ◌^◌, ◌≤◌, ◌<◌, min, bit_and, bit_and-bitwise, digits,
}
use mathlib.Core.Path.{◌≡◌, refl, sym, ◌∙◌}
use native.Mathlib.Nat.{pow-suc}
use native.Mathlib.Omega.{arith}

abbrev pub word : ℕ
word = 2 ^ 32

abbrev pub add32 : ℕ → ℕ → ℕ
add32 a b = (a + b) % word

abbrev pub sub32 : ℕ → ℕ → ℕ
sub32 a b = (a + word - b) % word

-- The remainder by an even number, from that of the half.
mod-double : (a p : ℕ) → 0 < p → a % (p * 2) ≡ (a / 2) % p * 2 + a % 2
mod-double a p h = grind arith

pub pow_pos : (k : ℕ) → 0 < 2 ^ k
pow_pos zero = omega arith
pow_pos (suc k) = rw pow-suc (omega (arith, pow_pos k))

digits-zero : (n a : ℕ) → digits (λ b. zero) min n a 0 ≡ 0
digits-zero zero a = refl
digits-zero (suc n) zero = refl
digits-zero (suc n) (suc a) = omega (arith, digits-zero n (suc a / 2))

-- The two parts of a mask of `k + 1` ones: its half, and its lowest digit.
half-mask : (k : ℕ) → (2 ^ suc k - 1) / 2 ≡ 2 ^ k - 1
half-mask k = rw pow-suc (omega (arith, pow_pos k))

odd-mask : (k : ℕ) → (2 ^ suc k - 1) % 2 ≡ 1
odd-mask k = rw pow-suc (omega (arith, pow_pos k))

zero-mod : (m : ℕ) → 0 < m → 0 % m ≡ 0
zero-mod m h = grind arith

pub digits_mask : (k n a : ℕ) → a ≤ n → digits (λ b. zero) min n a (2 ^ k - 1) ≡ a % 2 ^ k
digits_mask zero n a h = omega (arith, digits-zero n a)
digits_mask (suc k) zero zero h = sym (zero-mod _ (pow_pos (suc k)))
digits_mask (suc k) zero (suc a) h = elim h [ ]
digits_mask (suc k) (suc n) zero h = sym (zero-mod _ (pow_pos (suc k)))
digits_mask (suc k) (suc n) (suc a) h =
    rw (half-mask k, odd-mask k, digits_mask k n (suc a / 2) (omega arith), pow-suc)
      (omega (arith, mod-double (suc a) (2 ^ k) (pow_pos k)))

-- `x & (2^k - 1)` is the remainder by `2^k`.
pub bit_and_mask : (k a : ℕ) → bit_and a (2 ^ k - 1) ≡ a % 2 ^ k
bit_and_mask k a = bit_and-bitwise a (2 ^ k - 1) ∙ digits_mask k a a (omega arith)
