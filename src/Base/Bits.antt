-- ===== src/Base/Bits.antt =====
-- `&` and `|` as arithmetic, at every width.
use Prim.Native.Nat.{
  ℕ, zero, suc, ◌+◌, ◌-◌, ◌*◌, ◌/◌, ◌%◌, ◌^◌, ◌≤◌, ◌<◌, min, max, bit_and, bit_or,
}
use Prim.Native.Nat.{digits, bit_and-bitwise, bit_or-bitwise}
use mathlib.Core.Path.{◌≡◌, refl, ap, ap₂}
use native.Mathlib.Nat.{pow-suc, one-le-pow}
use native.Mathlib.Omega.{arith}

-- The recursion behind the native operations does not depend on its fuel.
digits_enough :
    (z : ℕ → ℕ) (f : ℕ → ℕ → ℕ) (n m a b : ℕ) → a ≤ n → a ≤ m → digits z f n a b ≡ digits z f m a b
digits_enough z f zero zero a b p q = refl
digits_enough z f zero (suc m) zero b p q = refl
digits_enough z f zero (suc m) (suc a) b p q = absurd (omega arith)
digits_enough z f (suc n) zero zero b p q = refl
digits_enough z f (suc n) zero (suc a) b p q = absurd (omega arith)
digits_enough z f (suc n) (suc m) zero b p q = refl
digits_enough z f (suc n) (suc m) (suc a) b p q =
    let deeper = digits_enough z f n m (suc a / 2) (b / 2) (omega arith) (omega arith) in
    omega arith

-- Both operations, one binary digit at a time.
pub bit_and_digit : (a b : ℕ) → bit_and a b ≡ 2 * bit_and (a / 2) (b / 2) + min (a % 2) (b % 2)
bit_and_digit zero b =
    let top = bit_and-bitwise 0 b in let half = bit_and-bitwise 0 (b / 2) in omega arith
bit_and_digit (suc a) b =
    let top = bit_and-bitwise (suc a) b in
    let half = bit_and-bitwise (suc a / 2) (b / 2) in
    omega (
      arith,
      digits_enough (λ y. 0) min a (suc a / 2) (suc a / 2) (b / 2) (omega arith) (omega arith),
    )

pub bit_or_digit : (a b : ℕ) → bit_or a b ≡ 2 * bit_or (a / 2) (b / 2) + max (a % 2) (b % 2)
bit_or_digit zero b =
    let top = bit_or-bitwise 0 b in let half = bit_or-bitwise 0 (b / 2) in omega arith
bit_or_digit (suc a) b =
    let top = bit_or-bitwise (suc a) b in
    let half = bit_or-bitwise (suc a / 2) (b / 2) in
    omega (
      arith,
      digits_enough (λ y. y) max a (suc a / 2) (suc a / 2) (b / 2) (omega arith) (omega arith),
    )

bit_and-zero_below : (n a : ℕ) → a ≤ n → bit_and a 0 ≡ 0
bit_and-zero_below n zero h = refl
bit_and-zero_below zero (suc a) h = absurd (omega arith)
bit_and-zero_below (suc n) (suc a) h =
    omega (arith, bit_and_digit (suc a) 0, bit_and-zero_below n (suc a / 2) (omega arith))

pub bit_and-zero : (a : ℕ) → bit_and a 0 ≡ 0
bit_and-zero a = bit_and-zero_below a a (omega arith)

pub bit_or-zero_below : (n a : ℕ) → a ≤ n → bit_or a 0 ≡ a
bit_or-zero_below n zero h = refl
bit_or-zero_below zero (suc a) h = absurd (omega arith)
bit_or-zero_below (suc n) (suc a) h =
    omega (arith, bit_or_digit (suc a) 0, bit_or-zero_below n (suc a / 2) (omega arith))

twice_shift : (q k : ℕ) → q * 2 ^ suc k ≡ 2 * (q * 2 ^ k)
twice_shift q k = omega (arith, ap (λ (t : ℕ). q * t) (pow-suc 2 k))

-- Disjoint fields joined by `|` add up.
pub bit_or-add : (k q r : ℕ) → r < 2 ^ k → bit_or (q * 2 ^ k) r ≡ q * 2 ^ k + r
bit_or-add zero q r h =
    let none_left : r ≡ 0 = omega arith in
    omega (
      arith,
      ap (λ (t : ℕ). bit_or (q * 1) t) none_left,
      bit_or-zero_below (q * 1) (q * 1) (omega arith),
    )
bit_or-add (suc k) q r h =
    let shift = twice_shift q k in
    let half : q * 2 ^ suc k / 2 ≡ q * 2 ^ k = omega arith in
    let width = pow-suc 2 k in
    let below = bit_or-add k q (r / 2) (omega arith) in
    omega (arith, bit_or_digit (q * 2 ^ suc k) r, ap (λ (t : ℕ). bit_or t (r / 2)) half)

-- A mask of `k` ones keeps the low field.
pub bit_and-fields : (k q r : ℕ) → r < 2 ^ k → bit_and (q * 2 ^ k + r) (2 ^ k - 1) ≡ r
bit_and-fields zero q r h = omega (arith, bit_and-zero (q * 1 + r))
bit_and-fields (suc k) q r h =
    let shift = twice_shift q k in
    let width = pow-suc 2 k in
    let room = one-le-pow k 2 in
    let half : (q * 2 ^ suc k + r) / 2 ≡ q * 2 ^ k + r / 2 = omega arith in
    let mask : (2 ^ suc k - 1) / 2 ≡ 2 ^ k - 1 = omega arith in
    let below = bit_and-fields k q (r / 2) (omega arith) in
    omega (
      arith,
      bit_and_digit (q * 2 ^ suc k + r) (2 ^ suc k - 1),
      ap₂ (λ (s t : ℕ). bit_and s t) half mask,
    )

-- A mask that starts at bit `k` sees only the field above it.
pub bit_and-shift :
    (k m q r : ℕ) → r < 2 ^ k → bit_and (q * 2 ^ k + r) (m * 2 ^ k) ≡ bit_and q m * 2 ^ k
bit_and-shift zero m q r h =
    let left : q * 1 + r ≡ q = omega arith in
    let right : m * 1 ≡ m = omega arith in omega (arith, ap₂ (λ (s t : ℕ). bit_and s t) left right)
bit_and-shift (suc k) m q r h =
    let left = twice_shift q k in
    let right = twice_shift m k in
    let result = twice_shift (bit_and q m) k in
    let width = pow-suc 2 k in
    let half : (q * 2 ^ suc k + r) / 2 ≡ q * 2 ^ k + r / 2 = omega arith in
    let mask : m * 2 ^ suc k / 2 ≡ m * 2 ^ k = omega arith in
    let below = bit_and-shift k m q (r / 2) (omega arith) in
    omega (
      arith,
      bit_and_digit (q * 2 ^ suc k + r) (m * 2 ^ suc k),
      ap₂ (λ (s t : ℕ). bit_and s t) half mask,
    )

-- The masks of the source.
pub bit_and_0f : (a : ℕ) → bit_and a 0x0f ≡ a % 16
bit_and_0f a =
    let parts : a / 16 * 16 + a % 16 ≡ a = omega arith in
    omega (
      arith,
      bit_and-fields 4 (a / 16) (a % 16) (omega arith),
      ap (λ (t : ℕ). bit_and t 0x0f) parts,
    )

pub bit_and_1fff : (a : ℕ) → bit_and a 0x1fff ≡ a % 8192
bit_and_1fff a =
    let parts : a / 8192 * 8192 + a % 8192 ≡ a = omega arith in
    omega (
      arith,
      bit_and-fields 13 (a / 8192) (a % 8192) (omega arith),
      ap (λ (t : ℕ). bit_and t 0x1fff) parts,
    )

pub bit_and_ffff : (a : ℕ) → bit_and a 0xffff ≡ a % 65536
bit_and_ffff a =
    let parts : a / 65536 * 65536 + a % 65536 ≡ a = omega arith in
    omega (
      arith,
      bit_and-fields 16 (a / 65536) (a % 65536) (omega arith),
      ap (λ (t : ℕ). bit_and t 0xffff) parts,
    )

bit_and_one : (a : ℕ) → bit_and a 1 ≡ a % 2
bit_and_one a =
    let parts : a / 2 * 2 + a % 2 ≡ a = omega arith in
    omega (arith, bit_and-fields 1 (a / 2) (a % 2) (omega arith), ap (λ (t : ℕ). bit_and t 1) parts)

pub bit_and_ff : (a : ℕ) → bit_and a 0xff ≡ a % 256
bit_and_ff a =
    let parts : a / 256 * 256 + a % 256 ≡ a = omega arith in
    omega (
      arith,
      bit_and-fields 8 (a / 256) (a % 256) (omega arith),
      ap (λ (t : ℕ). bit_and t 0xff) parts,
    )

pub bit_and_2000 : (a : ℕ) → bit_and a 0x2000 ≡ a / 8192 % 2 * 8192
bit_and_2000 a =
    let parts : a / 8192 * 8192 + a % 8192 ≡ a = omega arith in
    omega (
      arith,
      bit_and-shift 13 1 (a / 8192) (a % 8192) (omega arith),
      bit_and_one (a / 8192),
      ap (λ (t : ℕ). bit_and t 0x2000) parts,
    )

pub bit_and_ff00 : (a : ℕ) → bit_and a 0xff00 ≡ a / 256 % 256 * 256
bit_and_ff00 a =
    let parts : a / 256 * 256 + a % 256 ≡ a = omega arith in
    omega (
      arith,
      bit_and-shift 8 0xff (a / 256) (a % 256) (omega arith),
      bit_and_ff (a / 256),
      ap (λ (t : ℕ). bit_and t 0xff00) parts,
    )

pub bit_and_ff0000 : (a : ℕ) → bit_and a 0xff0000 ≡ a / 65536 % 256 * 65536
bit_and_ff0000 a =
    let parts : a / 65536 * 65536 + a % 65536 ≡ a = omega arith in
    omega (
      arith,
      bit_and-shift 16 0xff (a / 65536) (a % 65536) (omega arith),
      bit_and_ff (a / 65536),
      ap (λ (t : ℕ). bit_and t 0xff0000) parts,
    )

pub bit_and_ff000000 : (a : ℕ) → bit_and a 0xff000000 ≡ a / 16777216 % 256 * 16777216
bit_and_ff000000 a =
    let parts : a / 16777216 * 16777216 + a % 16777216 ≡ a = omega arith in
    omega (
      arith,
      bit_and-shift 24 0xff (a / 16777216) (a % 16777216) (omega arith),
      bit_and_ff (a / 16777216),
      ap (λ (t : ℕ). bit_and t 0xff000000) parts,
    )

-- `|` of a value above bit `k` and one below it, with the shift recognised by an equation.
pub bit_or-sum : (k q a r : ℕ) → a ≡ q * 2 ^ k → r < 2 ^ k → bit_or a r ≡ a + r
bit_or-sum k q a r e h = omega (arith, ap (λ (t : ℕ). bit_or t r) e, bit_or-add k q r h)
