-- ===== src/Vnet/Sockets/Mailbox.antt =====
-- What the socket table promises: each socket has a queue of datagrams, oldest first, and all of
-- them share a stock of packets.
use sys_grid.Base.{
  ◌∙◌, ℕ, zero, suc, ◌+◌, ◌-◌, ◌<◌, ◌≡◌, refl, arith, List, [], ◌∷◌, ◌++◌, map, length, take, ltb,
  Bool, true, false, Option, none, some, ◌==◌, if◌then◌else◌, update, count, ap, ap₂,
}
use sys_grid.Net.{Bytes}
use sys_grid.Vnet.{VNet, Pkt, Index, max_sockets, max_datagram}
use sys_grid.Vnet.Sockets.{Datagram, view_pkt}
use sys_grid.Vnet.Pool.{with_next}
use sys_grid.Vnet.Sockets.Layout.{Sound}

pub record Mailboxes : Type 0 where
  pub boxes : ℕ → List Datagram
  pub spare : ℕ

-- A datagram that is too big, or that finds no packet, is dropped.
abbrev pub deliver : Mailboxes → ℕ → Datagram → Mailboxes
deliver b s d =
    if ltb max_datagram (length d.content)
    then b
    else if b.spare == 0
    then b
    else record { boxes = update b.boxes s (b.boxes s ++ d ∷ []); spare = b.spare - 1 }

abbrev pub take_front : Mailboxes → ℕ → List Datagram → Mailboxes
take_front b s [] = b
take_front b s (d ∷ rest) = record { boxes = update b.boxes s rest; spare = b.spare + 1 }

-- The oldest datagram leaves its queue.
abbrev pub consume : Mailboxes → ℕ → Mailboxes
consume b s = take_front b s (b.boxes s)

abbrev pub discard : Mailboxes → ℕ → Mailboxes
discard b s = record { boxes = update b.boxes s []; spare = b.spare + length (b.boxes s) }

-- Reading into a buffer of `limit` bytes.
abbrev pub truncated : ℕ → Datagram → Datagram
truncated limit d = record d { content = take limit d.content }

-- What a reader is given: the oldest datagram.
abbrev pub read_front : ℕ → List Datagram → Option Datagram
read_front limit [] = none
read_front limit (d ∷ rest) = some (truncated limit d)

abbrev pub is_empty : List Datagram → Bool
is_empty [] = true
is_empty (d ∷ rest) = false

-- The datagram that a packet stores.
abbrev pub message : Pkt → Datagram
message pk = record { content = take pk.len pk.content; src_ip = pk.src_ip; src_port = pk.src_port }

abbrev pub mail : (ℕ → Pkt) → List ℕ → List Datagram
mail pool = map (λ i. message (pool i))

-- The table of `v` implements the mailboxes `b`.
pub record Implements (v : VNet) (b : Mailboxes) : Type 0 where
  pub free : List ℕ
  pub queue : ℕ → List ℕ
  pub sound : Sound v.pool v.free_list v.socks free queue []
  pub stored : (s : ℕ) → s < max_sockets → mail v.pool (queue s) ≡ b.boxes s
  pub stock : length free ≡ b.spare

take-take : (a b : ℕ) (xs : Bytes) → take (if ltb a b then a else b) xs ≡ take b (take a xs)
take-take zero zero xs = refl
take-take zero (suc b) xs = ground arith
take-take (suc a) zero xs = ground arith
take-take (suc a) (suc b) [] = ground arith
take-take (suc a) (suc b) (x ∷ xs) = ground (arith, take-take a b xs)

-- What `udpRecvFrom` copies is the stored datagram, cut to the buffer.
pub view_pkt_lem : (pk : Pkt) (limit : ℕ) → view_pkt pk limit ≡ truncated limit (message pk)
view_pkt_lem pk limit =
    ap (λ (c : Bytes). record { content = c; src_ip = pk.src_ip; src_port = pk.src_port })
      (take-take pk.len limit pk.content)

-- Writes to the pool that leave the stored datagrams of a list.
pub mail-outside :
    (pool : ℕ → Pkt) (l : List ℕ) (j : ℕ) (pk : Pkt)
    → count j l ≡ 0
    → mail (update pool j pk) l ≡ mail pool l
mail-outside pool [] j pk h = refl
mail-outside pool (i ∷ l) j pk h =
    let other : update pool j pk i ≡ pool i = ground arith in
    ap₂ ◌∷◌ (ap message other) (mail-outside pool l j pk (omega arith))

pub mail-with_next :
    (pool : ℕ → Pkt) (l : List ℕ) (j : ℕ) (next : Index)
    → mail (with_next pool j next) l ≡ mail pool l
mail-with_next pool [] j next = refl
mail-with_next pool (i ∷ l) j next = ap₂ ◌∷◌ (ground arith) (mail-with_next pool l j next)

pub Implements-ext :
    (v w : VNet) (b : Mailboxes)
    → w.pool ≡ v.pool
    → w.free_list ≡ v.free_list
    → w.socks ≡ v.socks
    → Implements v b
    → Implements w b
Implements-ext v w b p f s h = record {
  free = h.free;
  queue = h.queue;
  sound = rw (p, f, s) h.sound;
  stored = rw p h.stored;
  stock = h.stock;
}

-- A step that leaves the pool and the socket table alone.
abbrev pub SameTable : VNet → VNet → Type 0
SameTable v w = (w.pool ≡ v.pool) × (w.free_list ≡ v.free_list) × (w.socks ≡ v.socks)

pub SameTable-trans : (u v w : VNet) → SameTable u v → SameTable v w → SameTable u w
SameTable-trans u v w a b = (b.0 ∙ a.0, b.1 ∙ a.1, b.2 ∙ a.2)

pub Implements-SameTable :
    (v w : VNet) (b : Mailboxes) → SameTable v w → Implements v b → Implements w b
Implements-SameTable v w b s r = Implements-ext v w b (s.0) (s.1) (s.2) r

-- A step that leaves the configuration and the next ephemeral port alone.
abbrev pub SameSetup : VNet → VNet → Type 0
SameSetup v w =
    (w.next_ephemeral ≡ v.next_ephemeral)
    × (w.mtu ≡ v.mtu)
    × (w.ip ≡ v.ip)
    × (w.netmask ≡ v.netmask)
    × (w.mac ≡ v.mac)
    × (w.configured ≡ v.configured)
    × (w.has_emit ≡ v.has_emit)

pub SameSetup-trans : (u v w : VNet) → SameSetup u v → SameSetup v w → SameSetup u w
SameSetup-trans u v w a b = ground arith
