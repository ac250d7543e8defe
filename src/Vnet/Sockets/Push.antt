-- ===== src/Vnet/Sockets/Push.antt =====
-- `pushToSocket` delivers to the mailbox of the socket.
use sys_grid.Base.{
  ℕ, suc, ◌+◌, ◌-◌, ◌<◌, ◌≤◌, ◌≡◌, ◌≢◌, refl, arith, true, false, List, [], ◌∷◌, ◌++◌, length,
  length-append, none, some, ltb, ◌==◌, update, count, ap₂, count-append, one_if_eq_self, ap,
  get_last?, get_last?-snoc, take_all, map-append, Bool-cases, Option-cases, inl, inr, sym, ◌∙◌,
  subst,
}
use sys_grid.Net.{Bytes}
use sys_grid.Vnet.{VNet, Pkt, Index, max_sockets, max_datagram}
use sys_grid.Vnet.Stats.{drop_no_buffer}
use sys_grid.Vnet.Pool.{alloc_pkt, with_next}
use sys_grid.Vnet.Pool.Chain.{Chain, Chain-update, Chain-snoc, count-get_last?}
use sys_grid.Vnet.Sockets.{Datagram, push_to_socket, enqueue, fill_pkt}
use sys_grid.Vnet.Sockets.Layout.{
  Sound, Sound-at, Sound-alloc, Sound-fill, placed_once, placed_apart,
}
use sys_grid.Vnet.Sockets.Mailbox.{
  Mailboxes, Implements, Implements-ext, deliver, message, mail, mail-outside, mail-with_next,
}

pub Chain-none : (pool : ℕ → Pkt) (l : List ℕ) → Chain pool none l → l ≡ []
Chain-none pool [] c = refl
Chain-none pool (i ∷ l) c = cc (c.0)

pub Chain-some :
    (pool : ℕ → Pkt) (i : ℕ) (l : List ℕ)
    → Chain pool (some i) l
    → (rest : List ℕ) × (l ≡ i ∷ rest) × Chain pool (pool i).next rest
Chain-some pool i [] c = cc
Chain-some pool i (j ∷ l) c =
    let e : j ≡ i = ground arith in
    (l, ap (λ (k : ℕ). k ∷ l) e, subst (λ (k : ℕ). Chain pool (pool k).next l) e c.1)

get_last?-none : (l : List ℕ) → get_last? l ≡ none → l ≡ []
get_last?-none [] e = refl
get_last?-none (a ∷ []) e = cc
get_last?-none (a ∷ b ∷ l) e = cc (get_last?-none (b ∷ l) e)

-- The held packet `idx` goes behind the queue of socket `s`.
module _ (v : VNet) (free : List ℕ) (queue : ℕ → List ℕ) (held : List ℕ) (s idx : ℕ)
    (ok : Sound v.pool v.free_list v.socks free queue (idx ∷ held)) (h : s < max_sockets)
    (used : (v.socks s).used ≡ true) (end : (v.pool idx).next ≡ none) where
  moved :
      (i : ℕ)
      → count i free + count i (queue s ++ idx ∷ []) + count i held
        ≡ count i free + count i (queue s) + count i (idx ∷ held)
  moved i = omega (arith, count-append i (queue s) (idx ∷ []))

  new : count idx (queue s) ≡ 0
  new = omega (arith, placed_once ok idx s h, one_if_eq_self idx)

  linked_behind :
      (tail : ℕ)
      → (v.socks s).q_tail ≡ some tail
      → (count tail free ≡ 0)
        × ((t : ℕ) → t < max_sockets → t ≢ s → count tail (queue t) ≡ 0)
        × (get_last? (queue s) ≡ some tail)
  linked_behind tail e =
      let last = sym (ok.tails s h) ∙ e in
      let there = count-get_last? (queue s) tail last in
      (
        omega (arith, placed_once ok tail s h),
        λ t k ne. omega (arith, placed_apart ok tail s t h k ne),
        last,
      )

  enqueue-Sound :
      let w = enqueue v s idx in
      Sound w.pool w.free_list w.socks free (update queue s (queue s ++ idx ∷ [])) held
  unfolding enqueue
  enqueue-Sound = elim (Option-cases (v.socks s).q_tail) [
    | inl e ↦
        let empty : queue s ≡ [] = get_last?-none (queue s) (sym (ok.tails s h) ∙ e) in
        rw (e, enqueue)
          (Sound-at s _ ok h ok.free_linked (λ t k ne. ok.linked t k) (rw empty (refl, end))
            (rw empty) (omega (arith, ok.counts s h, length-append (queue s) (idx ∷ []))) (λ u. cc)
            moved)
    | inr (tail, e) ↦
        let behind = linked_behind tail e in
        rw (e, enqueue)
          (Sound-at s _ ok h (Chain-update v.pool v.free_list free tail _ behind.0 ok.free_linked)
            (λ t k ne. Chain-update v.pool _ (queue t) tail _ (behind.1 t k ne) (ok.linked t k))
            (Chain-snoc v.pool _ (queue s) tail idx behind.2
              (λ j. omega (arith, placed_once ok j s h)) new end (ok.linked s h))
            (sym (get_last?-snoc (queue s) idx))
            (omega (arith, ok.counts s h, length-append (queue s) (idx ∷ []))) (λ u. cc) moved)
  ]

  -- Linking changes no stored datagram.
  mail-enqueue : (l : List ℕ) → mail (enqueue v s idx).pool l ≡ mail v.pool l
  unfolding enqueue
  mail-enqueue l = elim (Option-cases (v.socks s).q_tail) [
    | inl e ↦ rw (e, enqueue)
    | inr (tail, e) ↦ rw (e, enqueue) (mail-with_next v.pool l tail (some idx))
  ]

abbrev pub datagram : Bytes → ℕ → ℕ → Datagram
datagram content src_ip src_port = record {
  content = content;
  src_ip = src_ip;
  src_port = src_port;
}

-- The stored datagrams of all sockets after a delivery into packet `idx`.
stored_after :
    (v : VNet) (l : List ℕ) (idx src_ip src_port : ℕ) (content : Bytes)
    → length content ≤ max_datagram
    → count idx l ≡ 0
    → let w = fill_pkt v idx src_ip src_port content in
      (mail w.pool l ≡ mail v.pool l)
      × (mail w.pool (l ++ idx ∷ []) ≡ mail v.pool l ++ datagram content src_ip src_port ∷ [])
unfolding fill_pkt
stored_after v l idx src_ip src_port content fits new =
    let w = fill_pkt v idx src_ip src_port content in
    let outside : mail w.pool l ≡ mail v.pool l = mail-outside v.pool l idx _ new in
    let size : (w.pool idx).len ≡ length content = ground arith in
    let text : (w.pool idx).content ≡ content = ground arith in
    let whole : message (w.pool idx) ≡ datagram content src_ip src_port =
      ground (arith, take_all (length content) content (omega arith)) in
    (
      outside,
      map-append (λ i. message (w.pool i)) l (idx ∷ [])
          ∙ ap₂ ◌++◌ outside (ap (λ (d : Datagram). d ∷ []) whole),
    )

abbrev allocated : VNet → ℕ → VNet
allocated v idx = record v { free_list = (v.pool idx).next; pool = with_next v.pool idx none }

push_full :
    (v : VNet) (s src_ip src_port : ℕ) (content : Bytes)
    → ltb max_datagram (length content) ≡ false
    → v.free_list ≡ none
    → push_to_socket v s src_ip src_port content ≡ drop_no_buffer v
unfolding push_to_socket alloc_pkt
push_full v s src_ip src_port content short e = ground arith

push_room :
    (v : VNet) (s src_ip src_port idx : ℕ) (content : Bytes)
    → ltb max_datagram (length content) ≡ false
    → v.free_list ≡ some idx
    → push_to_socket v s src_ip src_port content
      ≡ enqueue (fill_pkt (allocated v idx) idx src_ip src_port content) s idx
unfolding push_to_socket alloc_pkt
push_room v s src_ip src_port idx content short e = ground arith

-- A delivery that finds the packet `idx`.
module _ (v : VNet) (b : Mailboxes) (s src_ip src_port idx : ℕ) (content : Bytes)
    (h : s < max_sockets) (used : (v.socks s).used ≡ true) (fits : length content ≤ max_datagram)
    (r : Implements v b) (rest : List ℕ) (split : r.free ≡ idx ∷ rest) where
  abbrev filled : VNet
  filled = fill_pkt (allocated v idx) idx src_ip src_port content

  taken_Sound : Sound filled.pool filled.free_list filled.socks rest r.queue (idx ∷ [])
  unfolding fill_pkt
  taken_Sound = Sound-fill _ (Sound-alloc split r.sound)

  filled_end : (filled.pool idx).next ≡ none
  unfolding fill_pkt
  filled_end = ground arith

  filled_socks : (filled.socks s).used ≡ true
  unfolding fill_pkt
  filled_socks = used

  abbrev d : Datagram
  d = datagram content src_ip src_port

  written :
      (t : ℕ)
      → t < max_sockets
      → (mail filled.pool (r.queue t) ≡ b.boxes t)
        × (mail filled.pool (r.queue t ++ idx ∷ []) ≡ b.boxes t ++ d ∷ [])
  written t k =
      let free_of : count idx (r.queue t) ≡ 0 =
        omega (arith, placed_once taken_Sound idx t k, one_if_eq_self idx) in
      let after =
        stored_after (allocated v idx) (r.queue t) idx src_ip src_port content fits free_of in
      let before : mail (allocated v idx).pool (r.queue t) ≡ b.boxes t =
        mail-with_next v.pool (r.queue t) idx none ∙ r.stored t k in
      (after.0 ∙ before, after.1 ∙ ap (λ (m : List Datagram). m ++ d ∷ []) before)

  stored_here :
      (t : ℕ)
      → t < max_sockets
      → mail (enqueue filled s idx).pool (update r.queue s (r.queue s ++ idx ∷ []) t)
        ≡ update b.boxes s (b.boxes s ++ d ∷ []) t
  stored_here t k =
      let linked =
        mail-enqueue filled rest r.queue [] s idx taken_Sound h filled_socks filled_end in
      elim (Bool-cases (t == s)) [
        | inl e ↦ rw e (linked (r.queue s ++ idx ∷ []) ∙ (written s h).1)
        | inr e ↦ rw e (linked (r.queue t) ∙ (written t k).0)
      ]

  push_room-Implements : Implements (enqueue filled s idx) (deliver b s d)
  push_room-Implements =
      let spare : b.spare ≡ suc (length rest) = sym r.stock ∙ ap length split in
      let delivered : deliver b s d
          ≡ record { boxes = update b.boxes s (b.boxes s ++ d ∷ []); spare = b.spare - 1 } =
        ground arith in
      rw delivered (record {
        free = rest;
        queue = update r.queue s (r.queue s ++ idx ∷ []);
        sound = enqueue-Sound filled rest r.queue [] s idx taken_Sound h filled_socks filled_end;
        stored = stored_here;
        stock = omega arith;
      })

-- A delivery to a socket in use puts the datagram at the end of its queue, if it fits and a packet
-- is spare; otherwise nothing changes. The other queues stay.
pub push_to_socket-Implements :
    (v : VNet) (b : Mailboxes) (s src_ip src_port : ℕ) (content : Bytes)
    → s < max_sockets
    → (v.socks s).used ≡ true
    → Implements v b
    → Implements
        (push_to_socket v s src_ip src_port content)
        (deliver b s (datagram content src_ip src_port))
push_to_socket-Implements v b s src_ip src_port content h used r =
    elim (Bool-cases (ltb max_datagram (length content))) [
      | inl long ↦ rw long (
          Implements-ext v _ b (unfold push_to_socket in rw long) (unfold push_to_socket in rw long)
            (unfold push_to_socket in rw long) r)
      | inr short ↦ elim (Option-cases v.free_list) [
        | inl e ↦
            let empty =
              Chain-none v.pool r.free
                (subst (λ (i : Index). Chain v.pool i r.free) e r.sound.free_linked) in
            let none_spare : b.spare ≡ 0 = sym r.stock ∙ ap length empty in
            let same : deliver b s (datagram content src_ip src_port) ≡ b = ground arith in
            rw (push_full v s src_ip src_port content short e, same)
              (Implements-ext v _ b refl refl refl r)
        | inr (idx, e) ↦
            let (rest, split, _) =
              Chain-some v.pool idx r.free
                (subst (λ (i : Index). Chain v.pool i r.free) e r.sound.free_linked) in
            rw (push_room v s src_ip src_port idx content short e) (
              push_room-Implements v b s src_ip src_port idx content h used (ground arith) r rest
                split)
      ]
    ]
