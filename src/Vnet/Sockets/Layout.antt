-- ===== src/Vnet/Sockets/Layout.antt =====
-- The invariant of the pool and the socket queues, and the steps that keep it.
use sys_grid.Base.{
  ℕ, suc, ◌+◌, ◌≤◌, ◌<◌, ◌≡◌, ◌≢◌, refl, arith, false, none, some, List, [], ◌∷◌, length, get_last?,
  count, total, total-ge, total-ge_two, sym, total_change, ltb, ◌==◌, if◌then◌else◌, update,
  Bool-cases, inl, inr, ne→==, ap, subst,
}
use sys_grid.Vnet.{Pkt, Socket, Index, max_sockets, pool_packets}
use sys_grid.Vnet.Pool.{with_next}
use sys_grid.Vnet.Pool.Chain.{Chain, Chain-update}

-- The free list holds the packets `free`, socket s the packets `queue s`, and the packets `held`
-- are in the hands of an operation.
pub record Sound (pool : ℕ → Pkt) (free_list : Index) (socks : ℕ → Socket) (free : List ℕ)
    (queue : ℕ → List ℕ) (held : List ℕ) : Type 0 where
  pub free_linked : Chain pool free_list free
  pub linked : (s : ℕ) → s < max_sockets → Chain pool (socks s).q_head (queue s)
  pub tails : (s : ℕ) → s < max_sockets → (socks s).q_tail ≡ get_last? (queue s)
  pub counts : (s : ℕ) → s < max_sockets → (socks s).q_count ≡ length (queue s)
  pub unused : (s : ℕ) → s < max_sockets → (socks s).used ≡ false → queue s ≡ []
  -- Every packet of the pool is in exactly one place, once; no index lies outside the pool.
  pub placed :
      (i : ℕ)
      → count i free + total max_sockets (λ s. count i (queue s)) + count i held
        ≡ (if ltb i pool_packets then 1 else 0)

module _ {pool : ℕ → Pkt} {free_list : Index} {socks : ℕ → Socket} {free : List ℕ}
    {queue : ℕ → List ℕ} {held : List ℕ} where
  -- A packet of one list is in no other.
  pub placed_once :
      Sound pool free_list socks free queue held
      → (i s : ℕ) → s < max_sockets
      → count i free + count i (queue s) + count i held ≤ 1
  placed_once ok i s h =
      ground (arith, ok.placed i, total-ge max_sockets (λ t. count i (queue t)) s h)

  -- Nor in the queue of another socket.
  pub placed_apart :
      Sound pool free_list socks free queue held
      → (i s t : ℕ) → s < max_sockets
      → t < max_sockets
      → t ≢ s
      → count i (queue s) + count i (queue t) ≤ 1
  placed_apart ok i s t h k ne = ground (
    arith,
    ok.placed i,
    total-ge_two max_sockets (λ u. count i (queue u)) s t h k (λ e. ne (sym e)),
  )

  -- Another description of the free list and of one socket.
  pub Sound-at :
      {pool' : ℕ → Pkt} {free_list' : Index} {free' held' q : List ℕ} (s : ℕ) (sk : Socket)
      → Sound pool free_list socks free queue held
      → s < max_sockets
      → Chain pool' free_list' free'
      → ((t : ℕ) → t < max_sockets → t ≢ s → Chain pool' (socks t).q_head (queue t))
      → Chain pool' sk.q_head q
      → sk.q_tail ≡ get_last? q
      → sk.q_count ≡ length q
      → (sk.used ≡ false → q ≡ [])
      → ((i : ℕ)
          → count i free' + count i q + count i held'
            ≡ count i free + count i (queue s) + count i held)
      → Sound pool' free_list' (update socks s sk) free' (update queue s q) held'
  Sound-at {q} s sk ok h links others here tail number idle moved = record {
    free_linked = links;
    linked = λ t k. elim (Bool-cases (t == s)) [
      | inl e ↦ rw e here
      | inr e ↦ rw e (others t k (ground arith))
    ];
    tails = λ t k. ground (arith, ok.tails t k);
    counts = λ t k. ground (arith, ok.counts t k);
    unused = λ t k u. ground (arith, ok.unused t k);
    placed = λ i.
        let change =
          total_change max_sockets (λ t. count i (update queue s q t)) (λ t. count i (queue t)) s h
            (λ t ne. ap (count i) (rw (ne→== t s ne))) in
        let now : count i (update queue s q s) ≡ count i q = ground arith in
        ground (arith, ok.placed i, moved i, change, now);
  }

  -- The head of the free list is taken off it.
  pub Sound-alloc :
      {idx : ℕ} {rest : List ℕ}
      → free ≡ idx ∷ rest
      → Sound pool free_list socks free queue held
      → Sound (with_next pool idx none) (pool idx).next socks rest queue (idx ∷ held)
  Sound-alloc {idx} {rest} e ok =
      let links : Chain pool free_list (idx ∷ rest) =
        subst (Chain pool free_list) e ok.free_linked in
      let once = λ (s : ℕ) (h : s < max_sockets). placed_once ok idx s h in
      let size = ap (count idx) e in
      let here : count idx (idx ∷ rest) ≡ suc (count idx rest) = ground arith in
      record {
        free_linked =
            Chain-update pool (pool idx).next rest idx _ (ground (arith, once 0 (omega arith)))
              links.1;
        linked = λ s h.
            Chain-update pool (socks s).q_head (queue s) idx _ (ground (arith, once s h))
              (ok.linked s h);
        tails = ok.tails;
        counts = ok.counts;
        unused = ok.unused;
        placed = λ i. ground (arith, ok.placed i, ap (count i) e);
      }

  held_apart :
      {idx : ℕ}
      → Sound pool free_list socks free queue (idx ∷ held)
      → (s : ℕ) → s < max_sockets
      → (count idx free ≡ 0) × (count idx (queue s) ≡ 0)
  held_apart {idx} ok s h =
      let here : count idx (idx ∷ held) ≡ suc (count idx held) = ground arith in
      ground (arith, ok.placed idx, total-ge max_sockets (λ t. count idx (queue t)) s h)

  -- A held packet is written.
  pub Sound-fill :
      {idx : ℕ} (pk : Pkt)
      → Sound pool free_list socks free queue (idx ∷ held)
      → Sound (update pool idx pk) free_list socks free queue (idx ∷ held)
  Sound-fill {idx} pk ok =
      let out = held_apart ok in
      record {
        free_linked =
            Chain-update pool free_list free idx pk (out 0 (omega arith)).0 ok.free_linked;
        linked =
            λ s h. Chain-update pool (socks s).q_head (queue s) idx pk (out s h).1 (ok.linked s h);
        tails = ok.tails;
        counts = ok.counts;
        unused = ok.unused;
        placed = ok.placed;
      }

  -- A held packet goes to the head of the free list.
  pub Sound-free :
      {idx : ℕ}
      → Sound pool free_list socks free queue (idx ∷ held)
      → Sound (with_next pool idx free_list) (some idx) socks (idx ∷ free) queue held
  Sound-free {idx} ok =
      let filled = Sound-fill (let pk = pool idx in record pk { next = free_list }) ok in
      let link : (with_next pool idx free_list idx).next ≡ free_list = ground arith in
      record {
        free_linked = (refl, rw link filled.free_linked);
        linked = filled.linked;
        tails = ok.tails;
        counts = ok.counts;
        unused = ok.unused;
        placed = λ i. omega (arith, ok.placed i);
      }

  -- Packets in use lie in the pool.
  pub held_in_pool :
      {idx : ℕ} → Sound pool free_list socks free queue (idx ∷ held) → idx < pool_packets
  held_in_pool {idx} ok =
      let here : count idx (idx ∷ held) ≡ suc (count idx held) = ground arith in
      ground (arith, ok.placed idx)
