-- ===== src/Vnet/Sockets/Table.antt =====
-- Opening, binding and resetting: the calls that move no datagram.
use sys_grid.Base.{
  ℕ, zero, suc, ◌+◌, ◌≤◌, ◌<◌, ◌≡◌, refl, arith, Bool, true, false, List, [], ◌∷◌, length, none,
  some, ◌==◌, update, ap, Bool-cases, Option-cases, inl, inr, sym, ◌∙◌, subst, fun_ext, get_last?,
}
use sys_grid.Vnet.{VNet, Socket, max_sockets}
use sys_grid.Vnet.Address.{empty_socket}
use sys_grid.Vnet.Pool.Chain.{Chain}
use sys_grid.Vnet.Sockets.{
  is_open, find_unused, udp_open, udp_bind, udp_set_broadcast, find_ephemeral, bind_socket,
  bind_ephemeral,
}
use sys_grid.Vnet.Sockets.Layout.{Sound, Sound-at}
use sys_grid.Vnet.Sockets.Mailbox.{Mailboxes, Implements, Implements-ext, mail}

-- A socket is written and keeps its queue.
pub Implements-socket :
    (v w : VNet) (b : Mailboxes) (i : ℕ) (sk : Socket)
    → i < max_sockets
    → w.pool ≡ v.pool
    → w.free_list ≡ v.free_list
    → w.socks ≡ update v.socks i sk
    → (sk.q_head ≡ (v.socks i).q_head)
      × (sk.q_tail ≡ (v.socks i).q_tail)
      × (sk.q_count ≡ (v.socks i).q_count)
    → (sk.used ≡ false → (v.socks i).used ≡ false)
    → Implements v b
    → Implements w b
Implements-socket v w b i sk h p f s e idle r = record {
  free = r.free;
  queue = r.queue;
  sound =
      rw (p, f, s)
        (subst (λ (q : ℕ → List ℕ). Sound v.pool v.free_list (update v.socks i sk) r.free q [])
          unchanged written);
  stored = rw p r.stored;
  stock = r.stock;
}
  where
    unchanged : update r.queue i (r.queue i) ≡ r.queue
    unchanged = fun_ext (λ t. ground arith)

    written :
        Sound v.pool v.free_list (update v.socks i sk) r.free (update r.queue i (r.queue i)) []
    written =
        Sound-at i sk r.sound h r.sound.free_linked (λ t k ne. r.sound.linked t k)
          (rw (e.0) (r.sound.linked i h)) (e.1 ∙ r.sound.tails i h) (e.2 ∙ r.sound.counts i h)
          (λ u. r.sound.unused i h (idle u)) (λ j. refl)

find_unused_lem :
    (socks : ℕ → Socket) (left i j : ℕ)
    → find_unused socks left i ≡ some j
    → ((socks j).used ≡ false) × (i ≤ j) × (j < i + left)
unfolding find_unused
find_unused_lem socks zero i j e = cc
find_unused_lem socks (suc left) i j e = ground (arith, find_unused_lem socks left (suc i) j)

find_unused-none :
    (socks : ℕ → Socket) (left i j : ℕ)
    → find_unused socks left i ≡ none
    → i ≤ j
    → j < i + left
    → (socks j).used ≡ true
unfolding find_unused
find_unused-none socks zero i j e low high = absurd (omega arith)
find_unused-none socks (suc left) i j e low high =
    ground (arith, find_unused-none socks left (suc i) j)

abbrev opened : VNet → ℕ → VNet
opened v i = record v { socks = update v.socks i (record empty_socket { used = true }) }

udp_open-some :
    (v : VNet) (i : ℕ)
    → (udp_open v).1 ≡ some i
    → (find_unused v.socks max_sockets 0 ≡ some i) × ((udp_open v).0 ≡ opened v i)
unfolding udp_open
udp_open-some v i e = elim (Option-cases (find_unused v.socks max_sockets 0)) [
  | inl none_left ↦ ground arith
  | inr (k, found) ↦
      let same : k ≡ i = ground arith in
      (found ∙ ap (λ (n : ℕ). some n) same, rw (found, udp_open) (ap (λ (n : ℕ). opened v n) same))
]

-- A socket that is opened was not in use and starts with an empty queue; no other queue changes.
pub udp_open-Implements :
    (v : VNet) (b : Mailboxes) (i : ℕ)
    → (udp_open v).1 ≡ some i
    → Implements v b
    → (i < max_sockets)
      × ((v.socks i).used ≡ false)
      × (((udp_open v).0.socks i).used ≡ true)
      × (b.boxes i ≡ [])
      × Implements (udp_open v).0 b
udp_open-Implements v b i e r =
    let found = udp_open-some v i e in
    let fact = find_unused_lem v.socks max_sockets 0 i found.0 in
    let below : i < max_sockets = omega (arith, fact) in
    let empty = r.sound.unused i below fact.0 in
    let head : none ≡ (v.socks i).q_head =
      ground (arith, empty_head (r.queue i) empty (r.sound.linked i below)) in
    let tail : none ≡ (v.socks i).q_tail = sym (r.sound.tails i below ∙ ap get_last? empty) in
    let number : 0 ≡ (v.socks i).q_count = sym (r.sound.counts i below ∙ ap length empty) in
    (
      below,
      fact.0,
      rw (found.1) (ground arith),
      sym (r.stored i below) ∙ ap (mail v.pool) empty,
      rw (found.1) (
          Implements-socket v (opened v i) b i (record empty_socket { used = true }) below refl refl
            refl (head, tail, number) (λ u. cc) r),
    )
  where
    empty_head :
        (l : List ℕ) → l ≡ [] → Chain v.pool (v.socks i).q_head l → (v.socks i).q_head ≡ none
    empty_head [] e c = c
    empty_head (a ∷ l) e c = cc

-- Opening fails only when every socket is in use.
pub udp_open_full :
    (v : VNet) (j : ℕ) → (udp_open v).1 ≡ none → j < max_sockets → (v.socks j).used ≡ true
unfolding udp_open
udp_open_full v j e h =
    find_unused-none v.socks max_sockets 0 j (ground arith) (omega arith) (omega arith)

-- Binding and the broadcast flag move no datagram.
pub udp_bind-Implements :
    (v : VNet) (b : Mailboxes) (i ip port : ℕ)
    → Implements v b
    → Implements (udp_bind v (some i) ip port).0 b
unfolding udp_bind
udp_bind-Implements v b i ip port r = elim (Bool-cases (is_open v i)) [
  | inl o ↦ elim (Bool-cases (port == 0)) [
    | inl z ↦ elim (Bool-cases ((find_ephemeral v.socks 4096 v.next_ephemeral).0 == 0)) [
      | inl failed ↦ rw (o, z, failed, bind_ephemeral) (Implements-ext v _ b refl refl refl r)
      | inr port_found ↦ rw (o, z, port_found, bind_ephemeral) (bound o _ _)
    ]
    | inr given ↦ rw (o, given) (bound o _ _)
  ]
  | inr c ↦ rw c r
]
  where
    bound :
        is_open v i ≡ true
        → (p n : ℕ) → Implements (bind_socket (record v { next_ephemeral = n }) i ip p) b
    bound o p n =
        Implements-socket v _ b i _ (ground arith) refl refl refl (refl, refl, refl) (λ u. u) r

pub udp_set_broadcast-Implements :
    (v : VNet) (b : Mailboxes) (i : ℕ) (on : Bool)
    → Implements v b
    → Implements (udp_set_broadcast v (some i) on) b
unfolding udp_set_broadcast
udp_set_broadcast-Implements v b i on r = elim (Bool-cases (is_open v i)) [
  | inl o ↦
      rw o (Implements-socket v _ b i _ (ground arith) refl refl refl (refl, refl, refl) (λ u. u) r)
  | inr c ↦ rw c r
]
