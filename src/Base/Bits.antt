-- ===== src/Base/Bits.antt =====
-- Bit operations on native numbers one binary digit at a time, and with powers of two.
use Prim.Native.Nat.{
  ℕ, zero, suc, ◌+◌, ◌-◌, ◌*◌, ◌/◌, ◌%◌, ◌^◌, ◌≤◌, ◌<◌, min, max, bit_and, bit_or, digits,
  bit_and-bitwise, bit_or-bitwise,
}
use mathlib.Core.Path.{◌≡◌, refl, ap}
use native.Mathlib.Nat.{div-div-eq-div-mul}
use native.Mathlib.Omega.{arith}

-- The digit recursion does not depend on its fuel, once that reaches the first number.
digits_fuel :
    (rest : ℕ → ℕ) (join : ℕ → ℕ → ℕ) (k l a b : ℕ)
    → a ≤ k
    → a ≤ l
    → digits rest join k a b ≡ digits rest join l a b
digits_fuel rest join (suc k) (suc l) (suc a) b p q =
    omega (arith, digits_fuel rest join k l (suc a / 2) (b / 2) (omega arith) (omega arith))
digits_fuel rest join (suc k) (suc l) zero b p q = refl
digits_fuel rest join (suc k) zero zero b p q = refl
digits_fuel rest join zero (suc l) zero b p q = refl
digits_fuel rest join zero zero a b p q = refl
digits_fuel rest join (suc k) zero (suc a) b p q = absurd (omega arith)
digits_fuel rest join zero (suc l) (suc a) b p q = absurd (omega arith)

bit_and_step : (a b : ℕ) → bit_and a b ≡ bit_and (a / 2) (b / 2) * 2 + min (a % 2) (b % 2)
bit_and_step zero b = omega (arith, bit_and-bitwise 0 b, bit_and-bitwise 0 (b / 2))
bit_and_step (suc a) b = omega (
  arith,
  bit_and-bitwise (suc a) b,
  bit_and-bitwise (suc a / 2) (b / 2),
  digits_fuel (λ _. zero) min a (suc a / 2) (suc a / 2) (b / 2) (omega arith) (omega arith),
)

bit_or_step : (a b : ℕ) → bit_or a b ≡ bit_or (a / 2) (b / 2) * 2 + max (a % 2) (b % 2)
bit_or_step zero b = omega (arith, bit_or-bitwise 0 b, bit_or-bitwise 0 (b / 2))
bit_or_step (suc a) b = omega (
  arith,
  bit_or-bitwise (suc a) b,
  bit_or-bitwise (suc a / 2) (b / 2),
  digits_fuel (λ x. x) max a (suc a / 2) (suc a / 2) (b / 2) (omega arith) (omega arith),
)

pub zero-bit_or : (b : ℕ) → bit_or 0 b ≡ b
zero-bit_or b = bit_or-bitwise 0 b

bit_or-zero_below : (n a : ℕ) → a ≤ n → bit_or a 0 ≡ a
bit_or-zero_below n zero h = zero-bit_or 0
bit_or-zero_below zero (suc a) h = absurd (omega arith)
bit_or-zero_below (suc n) (suc a) h =
    omega (arith, bit_or_step (suc a) 0, bit_or-zero_below n (suc a / 2) (omega arith))

bit_and-zero_below : (n a : ℕ) → a ≤ n → bit_and a 0 ≡ 0
bit_and-zero_below n zero h = bit_and-bitwise 0 0
bit_and-zero_below zero (suc a) h = absurd (omega arith)
bit_and-zero_below (suc n) (suc a) h =
    omega (arith, bit_and_step (suc a) 0, bit_and-zero_below n (suc a / 2) (omega arith))

pow_suc_left : (k : ℕ) → 2 * 2 ^ k ≡ 2 ^ suc k
pow_suc_left k = omega arith

double_power : (k a : ℕ) → a * 2 ^ suc k ≡ a * 2 ^ k * 2
double_power k a = omega (arith, ap (λ (t : ℕ). a * t) (pow_suc_left k))

-- Below a multiple of a power of two there is room for a smaller number.
pub bit_or_room : (k a b : ℕ) → b < 2 ^ k → bit_or (a * 2 ^ k) b ≡ a * 2 ^ k + b
bit_or_room zero a b h = omega (
  arith,
  bit_or_step (a * 1) b,
  bit_or-zero_below (a * 1) (a * 1) (omega arith),
  ap (bit_or (a * 1)) (let e : b ≡ 0 = omega arith in e),
)
bit_or_room (suc k) a b h =
    let double : a * 2 ^ suc k ≡ a * 2 ^ k * 2 = double_power k a in
    let half : a * 2 ^ suc k / 2 ≡ a * 2 ^ k = omega arith in
    omega (
      arith,
      bit_or_step (a * 2 ^ suc k) b,
      ap (λ (t : ℕ). bit_or t (b / 2)) half,
      bit_or_room k a (b / 2) (omega arith),
    )

pub bit_or_add : (k a x b : ℕ) → x ≡ a * 2 ^ k → b < 2 ^ k → bit_or x b ≡ x + b
bit_or_add k a x b e h = rw e (bit_or_room k a b h)

-- The bit at a place, as a mask reads it.
pub bit_and_place : (k a : ℕ) → bit_and a (2 ^ k) ≡ a / 2 ^ k % 2 * 2 ^ k
bit_and_place zero a =
    omega (arith, bit_and_step a 1, bit_and-zero_below (a / 2) (a / 2) (omega arith))
bit_and_place (suc k) a =
    let half : 2 ^ suc k / 2 ≡ 2 ^ k = omega arith in
    omega (
      arith,
      bit_and_step a (2 ^ suc k),
      ap (λ (t : ℕ). bit_and (a / 2) t) half,
      bit_and_place k (a / 2),
      double_power k (a / 2 ^ suc k % 2),
      ap (λ (t : ℕ). t % 2 * 2 ^ k) (div-div-eq-div-mul a 2 (2 ^ k)),
      ap (λ (t : ℕ). a / t % 2 * 2 ^ k) (pow_suc_left k),
    )

-- Setting the bit at a place.
pub bit_or_place : (k a : ℕ) → bit_or a (2 ^ k) ≡ a + (1 - a / 2 ^ k % 2) * 2 ^ k
bit_or_place zero a =
    omega (arith, bit_or_step a 1, bit_or-zero_below (a / 2) (a / 2) (omega arith))
bit_or_place (suc k) a =
    let half : 2 ^ suc k / 2 ≡ 2 ^ k = omega arith in
    omega (
      arith,
      bit_or_step a (2 ^ suc k),
      ap (λ (t : ℕ). bit_or (a / 2) t) half,
      bit_or_place k (a / 2),
      double_power k (1 - a / 2 ^ suc k % 2),
      ap (λ (t : ℕ). (1 - t % 2) * 2 ^ k) (div-div-eq-div-mul a 2 (2 ^ k)),
      ap (λ (t : ℕ). (1 - a / t % 2) * 2 ^ k) (pow_suc_left k),
    )

bit_and_three : (a : ℕ) → bit_and a 3 ≡ a % 4
bit_and_three a = omega (
  arith,
  bit_and_step a 3,
  bit_and_step (a / 2) 1,
  bit_and-zero_below (a / 2 / 2) (a / 2 / 2) (omega arith),
)

bit_and_fifteen : (a : ℕ) → bit_and a 15 ≡ a % 16
bit_and_fifteen a =
    omega (arith, bit_and_step a 15, bit_and_step (a / 2) 7, bit_and_three (a / 2 / 2))

-- The mask of a byte.
pub bit_and_byte : (a : ℕ) → bit_and a 255 ≡ a % 256
bit_and_byte a = omega (
  arith,
  bit_and_step a 255,
  bit_and_step (a / 2) 127,
  bit_and_step (a / 2 / 2) 63,
  bit_and_step (a / 2 / 2 / 2) 31,
  bit_and_fifteen (a / 2 / 2 / 2 / 2),
)

power_positive : (k : ℕ) → 0 < 2 ^ k
power_positive zero = omega arith
power_positive (suc k) = omega (arith, power_positive k, pow_suc_left k)

-- The mask of the lowest bits leaves what is above them out.
pub bit_and_mask : (k a : ℕ) → bit_and a (2 ^ k - 1) + a / 2 ^ k * 2 ^ k ≡ a
bit_and_mask zero a = omega (arith, bit_and-zero_below a a (omega arith))
bit_and_mask (suc k) a =
    let p = pow_suc_left k in
    let positive = power_positive k in
    let half : (2 ^ suc k - 1) / 2 ≡ 2 ^ k - 1 = omega (arith, p, positive) in
    let odd : (2 ^ suc k - 1) % 2 ≡ 1 = omega (arith, p, positive) in
    omega (
      arith,
      bit_and_step a (2 ^ suc k - 1),
      ap (λ (t : ℕ). bit_and (a / 2) t) half,
      bit_and_mask k (a / 2),
      odd,
      double_power k (a / 2 ^ suc k),
      ap (λ (t : ℕ). t * 2 ^ k) (div-div-eq-div-mul a 2 (2 ^ k)),
      ap (λ (t : ℕ). a / t * 2 ^ k) (pow_suc_left k),
    )
