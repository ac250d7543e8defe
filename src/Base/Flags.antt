-- ===== src/Base/Flags.antt =====
-- Single bits of a number, tested with `&` and set with `|`.
use Prim.Native.Nat.{ℕ, zero, suc, ◌*◌, ◌/◌, ◌%◌, ◌^◌, ◌≤◌, bit_and, bit_or}
use mathlib.Core.Path.{◌≡◌, ap, ◌∙◌}
use mathlib.Core.Logic.{inl, inr}
use mathlib.Core.Bool.{◌||◌}
use native.Mathlib.Nat.{pow-suc, one-le-pow}
use native.Mathlib.Omega.{arith}
use sys_grid.Base.Bits.{bit_and_digit, bit_or_digit, bit_and-zero, bit_or-zero_below}
use sys_grid.Base.Tests.{◌==◌, ◌!=◌, Bool-cases, if◌then◌else◌}

abbrev bit_at : ℕ → ℕ → ℕ
bit_at zero b = b % 2
bit_at (suc j) b = bit_at j (b / 2)

bit_at-le : (j b : ℕ) → bit_at j b ≤ 1
bit_at-le zero b = omega arith
bit_at-le (suc j) b = bit_at-le j (b / 2)

half_power : (k : ℕ) → 2 ^ suc k / 2 ≡ 2 ^ k
half_power k = omega (arith, pow-suc 2 k)

even_power : (k : ℕ) → 2 ^ suc k % 2 ≡ 0
even_power k = omega (arith, pow-suc 2 k)

bit_and_power : (j b : ℕ) → bit_and b (2 ^ j) ≡ bit_at j b * 2 ^ j
bit_and_power zero b = omega (arith, bit_and_digit b 1, bit_and-zero (b / 2))
bit_and_power (suc j) b =
    let digit = bit_and_digit b (2 ^ suc j) in
    let deeper = ap (λ (t : ℕ). bit_and (b / 2) t) (half_power j) ∙ bit_and_power j (b / 2) in
    let power = ap (λ (t : ℕ). bit_at j (b / 2) * t) (pow-suc 2 j) in
    omega (arith, digit, even_power j, deeper, power)

bit_or_half : (k b : ℕ) → bit_or b (2 ^ suc k) / 2 ≡ bit_or (b / 2) (2 ^ k)
bit_or_half k b = omega (
  arith,
  bit_or_digit b (2 ^ suc k),
  even_power k,
  ap (λ (t : ℕ). bit_or (b / 2) t) (half_power k),
)

same_suc : (j k : ℕ) → (suc j == suc k) ≡ (j == k)
same_suc j k = ground arith

bit_at-bit_or : (j k b : ℕ) → bit_at j (bit_or b (2 ^ k)) ≡ (if j == k then 1 else bit_at j b)
bit_at-bit_or zero zero b = omega (arith, bit_or_digit b 1)
bit_at-bit_or zero (suc k) b = ground (arith, bit_or_digit b (2 ^ suc k), even_power k)
bit_at-bit_or (suc j) zero b =
    let half : bit_or b 1 / 2 ≡ b / 2 =
      omega (arith, bit_or_digit b 1, bit_or-zero_below (b / 2) (b / 2) (omega arith)) in
    ground (arith, ap (bit_at j) half)
bit_at-bit_or (suc j) (suc k) b =
    rw (same_suc j k) (ap (bit_at j) (bit_or_half k b) ∙ bit_at-bit_or j k (b / 2))

has_bit_lem : (j b : ℕ) → (bit_and b (2 ^ j) != 0) ≡ (bit_at j b == 1)
has_bit_lem j b =
    let power = one-le-pow j 2 in
    let small = bit_at-le j b in
    elim (Bool-cases (bit_at j b == 1)) [
      | inl on ↦
          let one : bit_at j b ≡ 1 = ground arith in
          ground (arith, bit_and_power j b, ap (λ (t : ℕ). t * 2 ^ j) one)
      | inr off ↦
          let nil : bit_at j b ≡ 0 = ground arith in
          ground (arith, bit_and_power j b, ap (λ (t : ℕ). t * 2 ^ j) nil)
    ]

-- A bit is set after it has been set, and any other is what it was.
pub has_bit-bit_or :
    (j k b : ℕ) → (bit_and (bit_or b (2 ^ k)) (2 ^ j) != 0) ≡ (j == k || bit_and b (2 ^ j) != 0)
has_bit-bit_or j k b =
    let now = bit_at-bit_or j k b in
    rw (has_bit_lem j (bit_or b (2 ^ k)), has_bit_lem j b)
      (elim (Bool-cases (j == k)) [ inl same ↦ ground arith | inr other ↦ ground arith ])
