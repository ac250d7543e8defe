-- ===== src/Base/Masks.antt =====
-- Masks whose width is a variable: the ones above bit `k`, and those below it.
use Prim.Native.Nat.{ℕ, zero, suc, ◌+◌, ◌-◌, ◌*◌, ◌/◌, ◌%◌, ◌^◌, ◌<◌, bit_and, bit_or}
use mathlib.Core.Path.{◌≡◌, sym, ap, ap₂, ◌∙◌}
use native.Mathlib.Nat.{pow-suc, one-le-pow, div-add-mod', mod-lt, div-lt_iff_lt-mul, suc-add}
use native.Mathlib.Omega.{arith}
use sys_grid.Base.Bits.{bit_and-fields, bit_and-shift, bit_or_digit, bit_or-add}

pub pow-add : (a b : ℕ) → 2 ^ (a + b) ≡ 2 ^ a * 2 ^ b
pow-add zero b = grind arith
pow-add (suc a) b =
    let deeper = pow-add a b in
    let left : 2 ^ (suc a + b) ≡ 2 ^ (a + b) * 2 =
      ap (λ (t : ℕ). 2 ^ t) (suc-add a b) ∙ pow-suc 2 (a + b) in
    grind (arith, left, ap (λ (t : ℕ). t * 2 ^ b) (pow-suc 2 a), ap (λ (t : ℕ). t * 2) deeper)

-- The ones below bit `k` fill the low field.
bit_or-fields :
    (k q r : ℕ) → r < 2 ^ k → bit_or (q * 2 ^ k + r) (2 ^ k - 1) ≡ q * 2 ^ k + (2 ^ k - 1)
bit_or-fields zero q r h =
    ap (λ (t : ℕ). bit_or t 0) (omega arith)
    ∙ bit_or-add 0 (q * 1 + r) 0 (omega arith)
    ∙ omega arith
bit_or-fields (suc k) q r h =
    let shift : q * 2 ^ suc k ≡ 2 * (q * 2 ^ k) =
      omega (arith, ap (λ (t : ℕ). q * t) (pow-suc 2 k)) in
    let width = pow-suc 2 k in
    let room = one-le-pow k 2 in
    let half : (q * 2 ^ suc k + r) / 2 ≡ q * 2 ^ k + r / 2 = omega arith in
    let mask : (2 ^ suc k - 1) / 2 ≡ 2 ^ k - 1 = omega arith in
    let below = bit_or-fields k q (r / 2) (omega arith) in
    omega (
      arith,
      bit_or_digit (q * 2 ^ suc k + r) (2 ^ suc k - 1),
      ap₂ (λ (s t : ℕ). bit_or s t) half mask,
    )

module _ (k x : ℕ) where
  parts : x / 2 ^ k * 2 ^ k + x % 2 ^ k ≡ x
  parts = div-add-mod' x (2 ^ k)

  low-lt : x % 2 ^ k < 2 ^ k
  low-lt = mod-lt x (omega (arith, one-le-pow k 2))

  pub bit_or-low : bit_or x (2 ^ k - 1) ≡ x / 2 ^ k * 2 ^ k + (2 ^ k - 1)
  bit_or-low =
      ap (λ (t : ℕ). bit_or t (2 ^ k - 1)) (sym parts)
      ∙ bit_or-fields k (x / 2 ^ k) (x % 2 ^ k) low-lt

  pub bit_and-high :
      (n : ℕ) → x < 2 ^ n * 2 ^ k → bit_and x ((2 ^ n - 1) * 2 ^ k) ≡ x / 2 ^ k * 2 ^ k
  bit_and-high n h =
      let q = x / 2 ^ k in
      let positive : 0 < 2 ^ k = omega (arith, one-le-pow k 2) in
      let below : q < 2 ^ n = (div-lt_iff_lt-mul positive).1 h in
      let padded : q ≡ 0 * 2 ^ n + q = omega arith in
      ap (λ (t : ℕ). bit_and t ((2 ^ n - 1) * 2 ^ k)) (sym parts)
      ∙ bit_and-shift k (2 ^ n - 1) q (x % 2 ^ k) low-lt
      ∙ ap (λ (t : ℕ). t * 2 ^ k)
          (ap (λ (t : ℕ). bit_and t (2 ^ n - 1)) padded ∙ bit_and-fields n 0 q below)
