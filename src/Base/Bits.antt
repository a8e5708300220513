-- ===== src/Base/Bits.antt =====
-- The operations on the bits of words that the code uses: numbers joined by `|`, and masks of ones
-- with zeros behind them.
use Prim.Native.Nat.{
  ℕ, zero, suc, ◌+◌, ◌-◌, ◌*◌, ◌/◌, ◌%◌, ◌^◌, ◌≤◌, ◌<◌, min, max, bit_and, bit_and-bitwise, bit_or,
  bit_or-bitwise, digits,
}
use mathlib.Core.Path.{◌≡◌, refl, ◌∙◌}
use native.Mathlib.Nat.{div-div-eq-div-mul}
use native.Mathlib.Omega.{arith}
use ampi.Base.Words.{pow_pos, digits_mask}

abbrev or_digits : ℕ → ℕ → ℕ → ℕ
or_digits n a b = digits (λ b. b) max n a b

abbrev and_digits : ℕ → ℕ → ℕ → ℕ
and_digits n a b = digits (λ b. zero) min n a b

or_digits-zero : (n b : ℕ) → or_digits n 0 b ≡ b
or_digits-zero zero b = refl
or_digits-zero (suc n) b = refl

and_digits-zero : (n b : ℕ) → and_digits n 0 b ≡ 0
and_digits-zero zero b = refl
and_digits-zero (suc n) b = refl

-- One digit, also of the number zero.
or_digits_step :
    (n a b : ℕ) → or_digits (suc n) a b ≡ or_digits n (a / 2) (b / 2) * 2 + max (a % 2) (b % 2)
or_digits_step n zero b = omega (arith, or_digits-zero n (b / 2))
or_digits_step n (suc a) b = refl

and_digits_step :
    (n a b : ℕ) → and_digits (suc n) a b ≡ and_digits n (a / 2) (b / 2) * 2 + min (a % 2) (b % 2)
and_digits_step n zero b = omega (arith, and_digits-zero n (b / 2))
and_digits_step n (suc a) b = refl

or_digits_none : (n a : ℕ) → a ≤ n → or_digits n a 0 ≡ a
or_digits_none zero a h = omega arith
or_digits_none (suc n) a h =
    omega (arith, or_digits_step n a 0, or_digits_none n (a / 2) (omega (arith, h)))

doubled : (a k : ℕ) → a * 2 ^ suc k ≡ a * 2 ^ k * 2
doubled a k = grind arith

or_digits_join :
    (k n a b : ℕ) → a * 2 ^ k ≤ n → b < 2 ^ k → or_digits n (a * 2 ^ k) b ≡ a * 2 ^ k + b
or_digits_join zero n a b h l =
    let none : b ≡ 0 = omega (arith, l) in
    rw none (grind (arith, or_digits_none n (a * 1) (omega (arith, h))))
or_digits_join (suc k) zero a b h l =
    let nothing : a * 2 ^ suc k ≡ 0 = omega (arith, h) in rw nothing (omega arith)
or_digits_join (suc k) (suc n) a b h l =
    let double = doubled a k in
    let half : a * 2 ^ suc k / 2 ≡ a * 2 ^ k = omega (arith, double) in
    let rest = or_digits_join k n a (b / 2) (omega (arith, double, h)) (omega (arith, l)) in
    or_digits_step n (a * 2 ^ suc k) b ∙ rw (half, rest) (omega (arith, double))

-- `a << k | b`, for `b` of `k` bits
pub bit_or_join : (k a b : ℕ) → b < 2 ^ k → bit_or (a * 2 ^ k) b ≡ a * 2 ^ k + b
bit_or_join k a b l =
    bit_or-bitwise (a * 2 ^ k) b ∙ or_digits_join k (a * 2 ^ k) a b (omega arith) l

and_digits_range :
    (k w n a : ℕ) → a ≤ n → and_digits n a ((2 ^ w - 1) * 2 ^ k) ≡ a / 2 ^ k % 2 ^ w * 2 ^ k
and_digits_range zero w n a h =
    let one : (2 ^ w - 1) * 1 ≡ 2 ^ w - 1 = omega arith in
    rw one (digits_mask w n a h ∙ grind arith)
and_digits_range (suc k) w zero a h =
    let nothing : a ≡ 0 = omega (arith, h) in rw nothing (grind (arith, pow_pos w, pow_pos (suc k)))
and_digits_range (suc k) w (suc n) a h =
    let m = 2 ^ w - 1 in
    let double = doubled m k in
    let half : m * 2 ^ suc k / 2 ≡ m * 2 ^ k = omega (arith, double) in
    let low : m * 2 ^ suc k % 2 ≡ 0 = omega (arith, double) in
    let same : 2 * 2 ^ k ≡ 2 ^ suc k = omega (arith, doubled 1 k) in
    let rest = and_digits_range k w n (a / 2) (omega (arith, h)) in
    and_digits_step n a (m * 2 ^ suc k)
    ∙ rw (half, low, rest, div-div-eq-div-mul, same)
        (omega (arith, doubled (a / 2 ^ suc k % 2 ^ w) k))

-- `a & m`, for a mask `m` of `w` ones with `k` zeros behind them
pub bit_and_range : (k w a : ℕ) → bit_and a ((2 ^ w - 1) * 2 ^ k) ≡ a / 2 ^ k % 2 ^ w * 2 ^ k
bit_and_range k w a = bit_and-bitwise a _ ∙ and_digits_range k w a a (omega arith)

or_digits_below : (k n a b : ℕ) → b ≤ n → b < 2 ^ k → or_digits n b (a * 2 ^ k) ≡ b + a * 2 ^ k
or_digits_below zero n a b h l =
    let none : b ≡ 0 = omega (arith, l) in rw none (omega (arith, or_digits-zero n (a * 1)))
or_digits_below (suc k) zero a b h l =
    let none : b ≡ 0 = omega (arith, h) in rw none (omega (arith, or_digits-zero 0 (a * 2 ^ suc k)))
or_digits_below (suc k) (suc n) a b h l =
    let double = doubled a k in
    let half : a * 2 ^ suc k / 2 ≡ a * 2 ^ k = omega (arith, double) in
    let rest = or_digits_below k n a (b / 2) (omega (arith, h)) (omega (arith, l)) in
    or_digits_step n b (a * 2 ^ suc k) ∙ rw (half, rest) (omega (arith, double))

-- `b | a << k`, for `b` of `k` bits
pub bit_or_below : (k a b : ℕ) → b < 2 ^ k → bit_or b (a * 2 ^ k) ≡ b + a * 2 ^ k
bit_or_below k a b l = bit_or-bitwise b (a * 2 ^ k) ∙ or_digits_below k b a b (omega arith) l
