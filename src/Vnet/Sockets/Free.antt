-- ===== src/Vnet/Sockets/Free.antt =====
-- `udpClose` gives every packet of the queue back.
use sys_grid.Base.{
  ℕ, zero, suc, ◌+◌, ◌≤◌, ◌<◌, ◌≡◌, refl, arith, true, List, [], ◌∷◌, length, none, some, ◌==◌,
  update, count, ap, Bool-cases, inl, inr, ◌∙◌, total-ge, length-le_of_distinct, length-map,
}
use sys_grid.Vnet.{VNet, Socket, Index, max_sockets, pool_packets}
use sys_grid.Vnet.Address.{empty_socket}
use sys_grid.Vnet.Pool.{free_pkt, with_next}
use sys_grid.Vnet.Pool.Chain.{Chain, Chain-update}
use sys_grid.Vnet.Sockets.{udp_close, free_chain, is_open}
use sys_grid.Vnet.Sockets.Layout.{Sound, Sound-at, Sound-free, held_in_pool, placed_once}
use sys_grid.Vnet.Sockets.Mailbox.{
  Mailboxes, Implements, SameSetup, discard, message, mail, mail-with_next,
}

-- The free list after the packets of a chain have been freed one by one.
abbrev freed : List ℕ → List ℕ → List ℕ
freed [] free = free
freed (i ∷ l) free = freed l (i ∷ free)

length-freed : (l free : List ℕ) → length (freed l free) ≡ length l + length free
length-freed [] free = omega arith
length-freed (i ∷ l) free = omega (arith, length-freed l (i ∷ free))

abbrev freed_one : VNet → ℕ → VNet
freed_one v idx = record v { pool = with_next v.pool idx v.free_list; free_list = some idx }

free_chain_end : (fuel : ℕ) (v : VNet) → free_chain fuel v none ≡ v
unfolding free_chain
free_chain_end zero v = refl
free_chain_end (suc fuel) v = refl

free_chain_step :
    (fuel : ℕ) (v : VNet) (i : ℕ)
    → i < pool_packets
    → free_chain (suc fuel) v (some i) ≡ free_chain fuel (freed_one v i) (v.pool i).next
unfolding free_chain
free_chain_step fuel v i h =
    let one : free_pkt v i ≡ freed_one v i = unfold free_pkt in ground arith in
    ap (λ (w : VNet). free_chain fuel w (v.pool i).next) one

-- The loop with enough fuel: it reaches the end of the chain.
module _ (socks : ℕ → Socket) (queue : ℕ → List ℕ) where
  abbrev Freed : VNet → List ℕ → List ℕ → VNet → Type 0
  Freed v l free w =
      Sound w.pool w.free_list socks (freed l free) queue []
      × (w.socks ≡ v.socks)
      × ((m : List ℕ) → mail w.pool m ≡ mail v.pool m)

  free_chain-Freed :
      (fuel : ℕ) (v : VNet) (start : Index) (l free : List ℕ)
      → length l ≤ fuel
      → Chain v.pool start l
      → Sound v.pool v.free_list socks free queue l
      → Freed v l free (free_chain fuel v start)
  free_chain-Freed fuel v start [] free h c ok =
      rw c (rw (free_chain_end fuel v) (ok, refl, λ m. refl))
  free_chain-Freed zero v start (i ∷ l) free h c ok = absurd (omega arith)
  free_chain-Freed (suc fuel) v start (i ∷ l) free h c ok =
      let inside = held_in_pool ok in
      let out : count i l ≡ 0 = ground (arith, ok.placed i) in
      let rest =
        free_chain-Freed fuel (freed_one v i) (v.pool i).next l (i ∷ free) (omega arith)
          (Chain-update v.pool _ l i _ out c.1) (Sound-free ok) in
      rw (c.0) (
        rw (free_chain_step fuel v i inside)
          (rest.0, rest.1, λ m. rest.2 m ∙ mail-with_next v.pool m i v.free_list))

-- Closing an open socket empties its queue and returns its packets to the stock; the other queues
-- stay.
pub udp_close-Implements :
    (v : VNet) (b : Mailboxes) (i : ℕ)
    → is_open v i ≡ true
    → Implements v b
    → Implements (udp_close v (some i)) (discard b i)
udp_close-Implements v b i o r = rw closed (record {
  free = freed (r.queue i) r.free;
  queue = update r.queue i [];
  sound = rw same result.0;
  stored =
      λ t k. result.2 _ ∙ elim (Bool-cases (t == i)) [ inl e ↦ rw e | inr e ↦ rw e (r.stored t k) ];
  stock = omega (
    arith,
    length-freed (r.queue i) r.free,
    r.stock,
    ap length (r.stored i below),
    length-map (λ j. message (v.pool j)) (r.queue i),
  );
})
  where
    below : i < max_sockets
    below = ground arith

    emptied :
        Sound v.pool v.free_list
          (update v.socks i empty_socket)
          r.free
          (update r.queue i [])
          (r.queue i)
    emptied =
        Sound-at i empty_socket r.sound below r.sound.free_linked (λ t k ne. r.sound.linked t k)
          refl refl refl (λ u. refl) (λ j. omega arith)

    size : length (r.queue i) ≤ pool_packets
    size =
        length-le_of_distinct pool_packets (r.queue i)
          (λ j. omega (arith, placed_once r.sound j i below))
          (λ j k.
            ground
              (arith, r.sound.placed j, total-ge max_sockets (λ t. count j (r.queue t)) i below))

    result :
        Freed
          (update v.socks i empty_socket)
          (update r.queue i [])
          v
          (r.queue i)
          r.free
          (free_chain pool_packets v (v.socks i).q_head)
    result =
        free_chain-Freed (update v.socks i empty_socket) (update r.queue i []) pool_packets v
          (v.socks i).q_head (r.queue i) r.free size (r.sound.linked i below) emptied

    same :
        update (free_chain pool_packets v (v.socks i).q_head).socks i empty_socket
        ≡ update v.socks i empty_socket
    same = ap (λ (k : ℕ → Socket). update k i empty_socket) result.1

    closed : udp_close v (some i) ≡ (
        let w = free_chain pool_packets v (v.socks i).q_head in
        record w { socks = update w.socks i empty_socket })
    closed = unfold udp_close in rw o

free_chain-SameSetup : (fuel : ℕ) (v : VNet) (start : Index) → SameSetup v (free_chain fuel v start)
unfolding free_chain free_pkt
free_chain-SameSetup zero v none = ground arith
free_chain-SameSetup zero v (some i) = ground arith
free_chain-SameSetup (suc fuel) v none = ground arith
free_chain-SameSetup (suc fuel) v (some i) =
    ground (arith, free_chain-SameSetup fuel (free_pkt v i) (v.pool i).next)

pub udp_close-SameSetup : (v : VNet) (i : ℕ) → SameSetup v (udp_close v (some i))
unfolding udp_close
udp_close-SameSetup v i = ground (arith, free_chain-SameSetup pool_packets v (v.socks i).q_head)
