-- ===== src/Vnet/Pool/Chain.antt =====
-- Lists of packets linked by `next`, and what writes to the pool do to them.
use sys_grid.Base.{ℕ, ◌≤◌, ◌≡◌, arith, List, [], ◌∷◌, ◌++◌, none, some, update, count, get_last?}
use sys_grid.Vnet.{Pkt, Index}
use sys_grid.Vnet.Pool.{with_next}

-- From `start`, following `next`, one meets the packets `l` and then the end.
abbrev pub Chain : (ℕ → Pkt) → Index → List ℕ → Type 0
Chain pool start [] = start ≡ none
Chain pool start (i ∷ l) = (start ≡ some i) × Chain pool (pool i).next l

-- A write to a packet that is not in the list leaves the chain.
pub Chain-update :
    (pool : ℕ → Pkt) (start : Index) (l : List ℕ) (j : ℕ) (pk : Pkt)
    → count j l ≡ 0
    → Chain pool start l
    → Chain (update pool j pk) start l
Chain-update pool start [] j pk h c = c
Chain-update pool start (i ∷ l) j pk h c =
    let same : (update pool j pk i).next ≡ (pool i).next = ground arith in
    (c.0, rw same (Chain-update pool (pool i).next l j pk (omega arith) c.1))

-- A write that keeps `next` leaves every chain.
pub Chain-keep :
    (pool : ℕ → Pkt) (start : Index) (l : List ℕ) (j : ℕ) (pk : Pkt)
    → pk.next ≡ (pool j).next
    → Chain pool start l
    → Chain (update pool j pk) start l
Chain-keep pool start [] j pk h c = c
Chain-keep pool start (i ∷ l) j pk h c =
    let same : (update pool j pk i).next ≡ (pool i).next = ground arith in
    (c.0, rw same (Chain-keep pool (pool i).next l j pk h c.1))

pub count-get_last? : (l : List ℕ) (x : ℕ) → get_last? l ≡ some x → 1 ≤ count x l
count-get_last? [] x e = cc
count-get_last? (a ∷ []) x e = ground arith
count-get_last? (a ∷ b ∷ l) x e = omega (arith, count-get_last? (b ∷ l) x e)

-- Linking the last packet to a single one extends the chain by it.
pub Chain-snoc :
    (pool : ℕ → Pkt) (start : Index) (l : List ℕ) (last i : ℕ)
    → get_last? l ≡ some last
    → ((j : ℕ) → count j l ≤ 1)
    → count i l ≡ 0
    → (pool i).next ≡ none
    → Chain pool start l
    → Chain (with_next pool last (some i)) start (l ++ i ∷ [])
Chain-snoc pool start [] last i e once new end c = cc
Chain-snoc pool start (a ∷ []) last i e once new end c = (c.0, (ground arith, ground arith))
Chain-snoc pool start (a ∷ b ∷ l) last i e once new end c =
    let same : (with_next pool last (some i) a).next ≡ (pool a).next =
      ground (arith, once a, count-get_last? (b ∷ l) last e) in
    (
      c.0,
      rw same (
          Chain-snoc pool (pool a).next (b ∷ l) last i e (λ j. omega (arith, once j)) (omega arith)
            end c.1),
    )
