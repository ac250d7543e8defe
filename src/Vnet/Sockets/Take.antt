-- ===== src/Vnet/Sockets/Take.antt =====
-- `udpRecvFrom` takes from the mailbox of the socket.
use sys_grid.Base.{
  ℕ, ◌-◌, ◌<◌, ◌≡◌, refl, arith, Bool, true, false, List, [], ◌∷◌, length, none, some, ltb, ◌==◌,
  if◌then◌else◌, not, update, count, ap, get_last?, Bool-cases, Option-cases, inl, inr, sym, ◌∙◌,
  subst, is_some, ◌&&◌,
}
use sys_grid.Vnet.{VNet, Socket, Index, max_sockets}
use sys_grid.Vnet.Pool.{free_pkt, with_next}
use sys_grid.Vnet.Pool.Chain.{Chain}
use sys_grid.Vnet.Sockets.{Datagram, udp_recv_from, udp_readable, dequeue, is_open, view_pkt}
use sys_grid.Vnet.Sockets.Layout.{Sound, Sound-at, Sound-free, held_in_pool}
use sys_grid.Vnet.Sockets.Mailbox.{
  Mailboxes, Implements, consume, read_front, is_empty, message, mail, mail-with_next, view_pkt_lem,
}
use sys_grid.Vnet.Sockets.Push.{Chain-none, Chain-some}

-- The head `idx` of the queue of socket `s` leaves it.
module _ (v : VNet) (free : List ℕ) (queue : ℕ → List ℕ) (s idx : ℕ) (rest : List ℕ)
    (ok : Sound v.pool v.free_list v.socks free queue []) (h : s < max_sockets)
    (used : (v.socks s).used ≡ true) (split : queue s ≡ idx ∷ rest)
    (links : Chain v.pool (v.pool idx).next rest) where
  abbrev sk : Socket
  sk = v.socks s

  abbrev taken : Socket
  taken = record sk {
    q_head = (v.pool idx).next;
    q_tail = if is_some (v.pool idx).next then (v.socks s).q_tail else none;
    q_count = (v.socks s).q_count - 1;
  }

  -- The tail of the rest.
  rest_tail :
      (l : List ℕ) (next tail : Index)
      → Chain v.pool next l
      → tail ≡ get_last? (idx ∷ l)
      → (if is_some next then tail else none) ≡ get_last? l
  rest_tail [] next tail c e = rw c
  rest_tail (a ∷ l) next tail c e = rw (c.0) e

  held_Sound :
      Sound v.pool v.free_list (update v.socks s taken) free (update queue s rest) (idx ∷ [])
  held_Sound =
      Sound-at s taken ok h ok.free_linked (λ t k ne. ok.linked t k) links
        (rest_tail rest _ _ links (ok.tails s h ∙ ap get_last? split))
        (omega (arith, ok.counts s h, ap length split)) (λ u. cc)
        (λ i. omega (arith, ap (count i) split))

  dequeued : dequeue v s idx ≡ record v {
    socks = update v.socks s taken;
    pool = with_next v.pool idx v.free_list;
    free_list = some idx;
  }
  unfolding dequeue free_pkt
  dequeued = let inside = held_in_pool held_Sound in ground arith

  dequeue-Implements :
      (b : Mailboxes)
      → ((t : ℕ) → t < max_sockets → mail v.pool (queue t) ≡ b.boxes t)
      → length free ≡ b.spare
      → Implements (dequeue v s idx) (consume b s)
  dequeue-Implements b stored stock =
      let here : b.boxes s ≡ message (v.pool idx) ∷ mail v.pool rest =
        sym (stored s h) ∙ ap (mail v.pool) split in
      rw (dequeued, here)
        (record {
          free = idx ∷ free;
          queue = update queue s rest;
          sound = Sound-free held_Sound;
          stored = λ t k.
              mail-with_next v.pool _ idx v.free_list
              ∙ elim (Bool-cases (t == s)) [ inl e ↦ rw e | inr e ↦ rw e (stored t k) ];
          stock = omega arith;
        })

-- A read from an open socket returns its oldest datagram, cut to the buffer, or nothing if there is
-- none; it takes the datagram off the queue unless it peeks, and changes no other queue.
pub udp_recv_from-Implements :
    (v : VNet) (b : Mailboxes) (i limit : ℕ) (peek : Bool)
    → is_open v i ≡ true
    → Implements v b
    → ((udp_recv_from v (some i) limit peek).1 ≡ read_front limit (b.boxes i))
      × Implements (udp_recv_from v (some i) limit peek).0 (if peek then b else consume b i)
unfolding udp_recv_from
udp_recv_from-Implements v b i limit peek o r =
    let below : i < max_sockets = ground arith in
    let used : (v.socks i).used ≡ true = ground arith in
    let chain = r.sound.linked i below in
    elim (Option-cases (v.socks i).q_head) [
      | inl e ↦
          let none_left : r.queue i ≡ [] =
            Chain-none v.pool (r.queue i)
              (subst (λ (x : Index). Chain v.pool x (r.queue i)) e chain) in
          let box : b.boxes i ≡ [] = sym (r.stored i below) ∙ ap (mail v.pool) none_left in
          let kept : (if peek then b else consume b i) ≡ b = ground arith in
          rw kept (rw (o, e, box) (refl, r))
      | inr (idx, e) ↦
          let (rest, split, links) =
            Chain-some v.pool idx (r.queue i)
              (subst (λ (x : Index). Chain v.pool x (r.queue i)) e chain) in
          let box : b.boxes i ≡ message (v.pool idx) ∷ mail v.pool rest =
            sym (r.stored i below) ∙ ap (mail v.pool) split in
          let seen : read_front limit (b.boxes i) ≡ some (view_pkt (v.pool idx) limit) =
            ap (read_front limit) box ∙ ap some (sym (view_pkt_lem (v.pool idx) limit)) in
          let taken =
            dequeue-Implements v r.free r.queue i idx rest r.sound below used split links b r.stored
              r.stock in
          rw seen (rw (o, e) (refl, kept_or_taken peek idx r taken))
    ]
  where
    kept_or_taken :
        (p : Bool) (idx : ℕ)
        → Implements v b
        → Implements (dequeue v i idx) (consume b i)
        → Implements (if p then v else dequeue v i idx) (if p then b else consume b i)
    kept_or_taken true idx before after = before
    kept_or_taken false idx before after = after

-- A socket is readable exactly when it is open and its queue holds a datagram.
pub udp_readable_lem :
    (v : VNet) (b : Mailboxes) (i : ℕ)
    → Implements v b
    → udp_readable v (some i) ≡ is_open v i && not (is_empty (b.boxes i))
unfolding udp_readable
udp_readable_lem v b i r = elim (Bool-cases (is_open v i)) [
  | inl o ↦
      let below : i < max_sockets = ground arith in
      let number = r.sound.counts i below in
      rw o (nonempty (r.queue i) (b.boxes i) (v.socks i).q_count (r.stored i below) number)
  | inr c ↦ rw c
]
  where
    nonempty :
        (l : List ℕ) (box : List Datagram) (n : ℕ)
        → mail v.pool l ≡ box
        → n ≡ length l
        → ltb 0 n ≡ not (is_empty box)
    nonempty [] [] n e k = ground arith
    nonempty [] (d ∷ box) n e k = cc
    nonempty (a ∷ l) [] n e k = cc
    nonempty (a ∷ l) (d ∷ box) n e k = ground arith
