-- ===== src/Base/Counting.antt =====
-- How often a number stands in a list, and sums over the cells of an array.
use Prim.Native.Nat.{ℕ, zero, suc, ◌+◌, ◌≤◌, ◌<◌}
use mathlib.Core.Path.{◌≡◌, refl, subst}
use mathlib.Core.Logic.{◌≢◌, ◌⊎◌, inl, inr}
use mathlib.Core.List.{List, [], ◌∷◌, ◌++◌}
use native.Mathlib.Omega.{arith}
use sys_grid.Base.Tests.{◌==◌, if◌then◌else◌}
use sys_grid.Base.Lists.{length}

abbrev pub one_if_eq : ℕ → ℕ → ℕ
one_if_eq i j = if i == j then 1 else 0

abbrev pub count : ℕ → List ℕ → ℕ
count i [] = 0
count i (x ∷ xs) = one_if_eq i x + count i xs

pub count-append : (i : ℕ) (xs ys : List ℕ) → count i (xs ++ ys) ≡ count i xs + count i ys
count-append i [] ys = omega arith
count-append i (x ∷ xs) ys = omega (arith, count-append i xs ys)

pub one_if_eq_self : (i : ℕ) → one_if_eq i i ≡ 1
one_if_eq_self i = ground arith

-- f 0 + … + f (n - 1).
pub total : ℕ → (ℕ → ℕ) → ℕ
total zero f = 0
total (suc n) f = total n f + f n

pub total-ge : (n : ℕ) (f : ℕ → ℕ) (s : ℕ) → s < n → f s ≤ total n f
unfolding total
total-ge zero f s h = absurd (omega arith)
total-ge (suc n) f s h = ground (arith, total-ge n f s)

-- Sums of functions that agree below `n`.
pub total-cong : (n : ℕ) (f g : ℕ → ℕ) → ((s : ℕ) → s < n → f s ≡ g s) → total n f ≡ total n g
unfolding total
total-cong zero f g h = refl
total-cong (suc n) f g h =
    let rest = total-cong n f g (λ s p. h s (omega arith)) in
    let last = h n (omega arith) in omega arith

-- One cell changes.
pub total_change :
    (n : ℕ) (f g : ℕ → ℕ) (s : ℕ)
    → s < n
    → ((j : ℕ) → (j ≡ s → ⊥) → f j ≡ g j)
    → total n f + g s ≡ total n g + f s
unfolding total
total_change zero f g s h e = absurd (omega arith)
total_change (suc n) f g s h e = elim (split n s) [
  | inl q ↦
      let same = total-cong n f g (λ j p. e j (λ r. omega arith)) in
      subst (λ (k : ℕ). total n f + f n + g k ≡ total n g + g n + f k) q (omega arith)
  | inr q ↦
      let rest = total_change n f g s (omega arith) e in
      let top = e n (λ r. omega arith) in omega arith
]
  where
    split : (a b : ℕ) → (a ≡ b) ⊎ (a ≢ b)
    split a b = ground arith

-- Two cells lie in the sum side by side.
pub total-ge_two : (n : ℕ) (f : ℕ → ℕ) (s t : ℕ) → s < n → t < n → s ≢ t → f s + f t ≤ total n f
unfolding total
total-ge_two zero f s t h k ne = absurd (omega arith)
total-ge_two (suc n) f s t h k ne =
    ground (arith, total-ge_two n f s t, total-ge n f s, total-ge n f t)

pub total-add : (n : ℕ) (f g : ℕ → ℕ) → total n (λ i. f i + g i) ≡ total n f + total n g
unfolding total
total-add zero f g = refl
total-add (suc n) f g = omega (arith, total-add n f g)

pub total-le_one : (n : ℕ) (f : ℕ → ℕ) → ((i : ℕ) → f i ≤ 1) → total n f ≤ n
unfolding total
total-le_one zero f h = omega arith
total-le_one (suc n) f h = omega (arith, total-le_one n f h, h n)

length-le-total :
    (n : ℕ) (l : List ℕ) → ((i : ℕ) → n ≤ i → count i l ≡ 0) → length l ≤ total n (λ i. count i l)
length-le-total n [] h = omega arith
length-le-total n (x ∷ l) h =
    let inside : x < n = ground (arith, h x) in
    let here = total-ge n (λ i. one_if_eq i x) x inside in
    let sum = total-add n (λ i. one_if_eq i x) (λ i. count i l) in
    let rest = length-le-total n l (λ i k. omega (arith, h i k)) in omega (arith, one_if_eq_self x)

-- Different numbers below `n` are at most `n`.
pub length-le_of_distinct :
    (n : ℕ) (l : List ℕ)
    → ((i : ℕ) → count i l ≤ 1)
    → ((i : ℕ) → n ≤ i → count i l ≡ 0)
    → length l ≤ n
length-le_of_distinct n l once inside =
    omega (arith, length-le-total n l inside, total-le_one n (λ i. count i l) once)

pub total-zero : (n : ℕ) → total n (λ s. 0) ≡ 0
unfolding total
total-zero zero = refl
total-zero (suc n) = omega (arith, total-zero n)
