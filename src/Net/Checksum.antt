-- ===== src/Net/Checksum.antt =====
-- The internet checksum against its definition: the complement of a sum modulo 65535.
use sys_grid.Base.{
  ℕ, suc, ◌+◌, ◌-◌, ◌*◌, ◌/◌, ◌%◌, ◌<◌, ◌≤◌, ◌≡◌, refl, ◌∙◌, ap, arith, [], ◌∷◌, ◌++◌, All, length,
  bit_and, bit_or, bit_or-sum, bit_and_ffff, u32, false, ◌==◌, ◌⊎◌, inl, inr,
}
use sys_grid.Net.{Bytes, sum_words, fold_carries, checksum16}

abbrev pub IsBytes : Bytes → Type 0
IsBytes = All (λ b. b < 256)

-- The sum of the big-endian 16-bit words, an odd last byte padded with zero.
abbrev pub word_sum : Bytes → ℕ
word_sum [] = 0
word_sum (b ∷ []) = b * 256
word_sum (b ∷ c ∷ rest) = b * 256 + c + word_sum rest

pub word_sum-le : (p : Bytes) → IsBytes p → word_sum p ≤ 65536 * length p
word_sum-le [] h = omega arith
word_sum-le (b ∷ []) h = omega arith
word_sum-le (b ∷ c ∷ rest) h = omega (arith, word_sum-le rest h.1.1)

-- The u32 accumulator does not wrap on a packet of this program.
pub sum_words_lem :
    (initial : ℕ) (p : Bytes)
    → IsBytes p
    → initial + word_sum p < 4294967296
    → sum_words initial p ≡ initial + word_sum p
unfolding sum_words
sum_words_lem initial [] h fits = omega arith
sum_words_lem initial (b ∷ []) h fits = omega arith
sum_words_lem initial (b ∷ c ∷ rest) h fits =
    let word = bit_or-sum 8 b (b * 256) c refl h.1.0 in
    let step : u32 (initial + bit_or (b * 256) c) ≡ initial + (b * 256 + c) = omega arith in
    rw step (omega (arith, sum_words_lem (initial + (b * 256 + c)) rest h.1.1 (omega arith)))

fold_small : (fuel s : ℕ) → s < 65536 → fold_carries (suc fuel) s ≡ s
unfolding fold_carries
fold_small fuel s h = ground arith

fold_large :
    (fuel s : ℕ)
    → 65536 ≤ s
    → s < 4294967296
    → fold_carries (suc fuel) s ≡ fold_carries fuel (s % 65536 + s / 65536)
unfolding fold_carries
fold_large fuel s big h =
    let test : (s / 65536 == 0) ≡ false = ground arith in
    let sum : u32 (bit_and s 0xffff + s / 65536) ≡ s % 65536 + s / 65536 =
      omega (arith, bit_and_ffff s) in
    rw (test, fold_carries) (ap (fold_carries fuel) sum)

abbrev Folds : ℕ → ℕ → Type 0
Folds s r = (r < 65536) × (r % 65535 ≡ s % 65535) × (r ≡ 0 → s ≡ 0)

Folds-small : (s : ℕ) → s < 65536 → Folds s s
Folds-small s h = (h, refl, λ z. z)

Folds-round : (s r : ℕ) → Folds (s % 65536 + s / 65536) r → Folds s r
Folds-round s r f = (f.0, omega arith, λ z. omega (arith, f.2 z))

-- The loop reaches its exit within three rounds, keeps the sum modulo 65535, and is zero on zero
-- alone.
pub fold_ends :
    (s : ℕ)
    → s < 4294967296
    → (fold_carries 3 s < 65536)
      × (fold_carries 3 s % 65535 ≡ s % 65535)
      × (fold_carries 3 s ≡ 0 → s ≡ 0)
fold_ends s h = elim (below s) [
  | inl small ↦ rw (fold_small 2 s small) (Folds-small s small)
  | inr big ↦
      rw (fold_large 2 s big h) (Folds-round s _ (second (s % 65536 + s / 65536) (omega arith)))
]
  where
    below : (n : ℕ) → (n < 65536) ⊎ (65536 ≤ n)
    below n = omega arith

    second : (t : ℕ) → t ≤ 131070 → Folds t (fold_carries 2 t)
    second t k = elim (below t) [
      | inl small ↦ rw (fold_small 1 t small) (Folds-small t small)
      | inr big ↦
          rw (fold_large 1 t big (omega arith), fold_small 0 (t % 65536 + t / 65536) (omega arith))
            (Folds-round t _ (Folds-small (t % 65536 + t / 65536) (omega arith)))
    ]

-- What the function returns is the ones' complement of the folded sum.
pub checksum16_lem :
    (p : Bytes) (initial : ℕ)
    → IsBytes p
    → initial + word_sum p < 4294967296
    → checksum16 p initial ≡ 65535 - fold_carries 3 (initial + word_sum p)
unfolding checksum16
checksum16_lem p initial h fits =
    let sum = sum_words_lem initial p h fits in
    let fold = fold_carries 3 (initial + word_sum p) in
    let ends = fold_ends (initial + word_sum p) fits in
    rw sum (omega (arith, bit_and_ffff (4294967295 - fold)))

-- A sum that its own complement completes folds to all ones.
pub fold_complement :
    (s c : ℕ)
    → s + c < 4294967296
    → (c + fold_carries 3 s) % 65535 ≡ 0
    → (s ≡ 0 → c ≡ 0 → ⊥)
    → fold_carries 3 (s + c) ≡ 65535
fold_complement s c fits e pos =
    let f = fold_ends s (omega arith) in
    let g = fold_ends (s + c) fits in
    let whole : fold_carries 3 (s + c) % 65535 ≡ 0 = omega arith in
    let not_zero : fold_carries 3 (s + c) ≡ 0 → ⊥ =
      λ z. pos (omega (arith, g.2 z)) (omega (arith, g.2 z)) in
    omega arith

-- The sum of a list that is cut at an even place.
pub word_sum-append :
    (front back : Bytes)
    → length front % 2 ≡ 0
    → word_sum (front ++ back) ≡ word_sum front + word_sum back
word_sum-append [] back e = omega arith
word_sum-append (b ∷ []) back e = absurd (omega arith)
word_sum-append (b ∷ c ∷ rest) back e = omega (arith, word_sum-append rest back (omega arith))

pub IsBytes-append : (p q : Bytes) → IsBytes p → IsBytes q → IsBytes (p ++ q)
IsBytes-append [] q hp hq = hq
IsBytes-append (b ∷ p) q hp hq = (hp.0, IsBytes-append p q hp.1 hq)

-- A checksum c that completes the sum of the rest makes the packet verify.
pub checksum16-zero :
    (p : Bytes) (initial s c : ℕ)
    → IsBytes p
    → initial + word_sum p ≡ s + c
    → s + c < 4294967296
    → (c + fold_carries 3 s) % 65535 ≡ 0
    → (s ≡ 0 → c ≡ 0 → ⊥)
    → checksum16 p initial ≡ 0
checksum16-zero p initial s c h e fits complete pos =
    checksum16_lem p initial h (rw e fits)
    ∙ ap (λ (t : ℕ). 65535 - fold_carries 3 t) e
    ∙ ap (λ (t : ℕ). 65535 - t) (fold_complement s c fits complete pos)

-- A packet whose checksum field, at an even offset, holds the checksum of the packet with that
-- field zero verifies: `checksum16` of it is 0.
pub checksum16_seals :
    (front back : Bytes) (initial : ℕ)
    → IsBytes front
    → IsBytes back
    → length front % 2 ≡ 0
    → initial + 65536 * (length front + length back) + 65536 < 4294967296
    → let c = checksum16 (front ++ 0 ∷ 0 ∷ back) initial in
      checksum16 (front ++ c / 256 ∷ c % 256 ∷ back) initial ≡ 0
checksum16_seals front back initial hf hb even fits =
    let low : s + 65535 < 4294967296 = omega (arith, word_sum-le front hf, word_sum-le back hb) in
    let split : initial + word_sum (front ++ 0 ∷ 0 ∷ back) ≡ s =
      omega (arith, word_sum-append front (0 ∷ 0 ∷ back) even) in
    let f = fold_ends s (omega arith) in
    let value : c ≡ 65535 - fold_carries 3 s =
      checksum16_lem (front ++ 0 ∷ 0 ∷ back) initial
        (IsBytes-append front _ hf (omega arith, (omega arith, hb))) (omega arith)
      ∙ ap (λ (t : ℕ). 65535 - fold_carries 3 t) split in
    checksum16-zero (front ++ c / 256 ∷ c % 256 ∷ back) initial s c
      (IsBytes-append front _ hf (omega arith, (omega arith, hb)))
      (omega (arith, word_sum-append front (c / 256 ∷ c % 256 ∷ back) even)) (omega arith)
      (omega arith) (λ z w. omega (arith, ap (fold_carries 3) z, fold_small 2 0 (omega arith)))
  where
    s : ℕ
    s = initial + word_sum front + word_sum back

    c : ℕ
    c = checksum16 (front ++ 0 ∷ 0 ∷ back) initial

pub checksum16-lt : (p : Bytes) (initial : ℕ) → checksum16 p initial < 65536
unfolding checksum16
checksum16-lt p initial = omega arith
