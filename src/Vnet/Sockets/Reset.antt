-- ===== src/Vnet/Sockets/Reset.antt =====
-- After `reset` all packets are free and every queue is empty.
use sys_grid.Base.{
  ℕ, zero, suc, ◌+◌, ◌≡◌, refl, arith, List, [], ◌∷◌, length, total, none, some, ltb, if◌then◌else◌,
  count, total-zero,
}
use sys_grid.Vnet.{VNet, Index, max_sockets, pool_packets}
use sys_grid.Vnet.Address.{reset}
use sys_grid.Vnet.Pool.Chain.{Chain}
use sys_grid.Vnet.Sockets.Mailbox.{Implements}

abbrev upward : ℕ → ℕ → List ℕ
upward i zero = []
upward i (suc n) = i ∷ upward (suc i) n

length-upward : (i n : ℕ) → length (upward i n) ≡ n
length-upward i zero = refl
length-upward i (suc n) = omega (arith, length-upward (suc i) n)

count-upward :
    (j i n : ℕ) → count j (upward i n) ≡ (if ltb j i then 0 else if ltb j (i + n) then 1 else 0)
count-upward j i zero = ground arith
count-upward j i (suc n) = ground (arith, count-upward j (suc i) n)

abbrev start_of : ℕ → Index
start_of i = if ltb i pool_packets then some i else none

Chain-reset :
    (v : VNet) (n i : ℕ) → i + n ≡ pool_packets → Chain (reset v).pool (start_of i) (upward i n)
unfolding reset
Chain-reset v zero i e = ground arith
Chain-reset v (suc n) i e =
    let rest = Chain-reset v n (suc i) (omega arith) in
    let next : ((reset v).pool i).next ≡ start_of (suc i) = ground arith in
    (ground arith, rw next rest)

everywhere : (i n m : ℕ) → count i (upward 0 n) + total m (λ s. 0) + 0 ≡ (if ltb i n then 1 else 0)
everywhere i n m = ground (arith, count-upward i 0 n, total-zero m)

-- A reset empties every queue and makes all 32 packets available, whatever the state before.
pub reset-Implements :
    (v : VNet) → Implements (reset v) (record { boxes = λ s. []; spare = pool_packets })
unfolding reset
reset-Implements v = record {
  free = upward 0 pool_packets;
  queue = λ s. [];
  sound = record {
    free_linked = Chain-reset v pool_packets 0 refl;
    linked = λ s h. ground arith;
    tails = λ s h. ground arith;
    counts = λ s h. ground arith;
    unused = λ s h u. refl;
    placed = λ i. everywhere i pool_packets max_sockets;
  };
  stored = λ s h. refl;
  stock = length-upward 0 pool_packets;
}
