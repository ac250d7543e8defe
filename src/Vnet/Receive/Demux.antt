-- ===== src/Vnet/Receive/Demux.antt =====
-- A datagram reaches every socket that listens for it, and no other.
use sys_grid.Base.{
  ℕ, zero, suc, leb, ◌-◌, ◌++◌, [], ◌∷◌, ◌==◌, ap, ap₂, List, ◌⊎◌, fun_ext, subst, ◌+◌, ◌≤◌, ◌≡◌,
  refl, arith, Bool, true, false, not, ◌&&◌, ◌||◌, ◌!=◌, Bool-cases, inl, inr, ltb, if◌then◌else◌,
  length, drop, take, ◌∙◌,
}
use sys_grid.Net.{Bytes, rd16, checksum16}
use sys_grid.Vnet.{VNet, Socket, max_sockets, max_datagram}
use sys_grid.Vnet.Stats.{count_rx_udp}
use sys_grid.Vnet.Address.{is_broadcast}
use sys_grid.Vnet.Protocols.{listens, deliver_udp, udp_length, udp_body, on_udp, drop_no_socket}
use sys_grid.Vnet.Sockets.{push_to_socket, enqueue, fill_pkt, Datagram}
use sys_grid.Vnet.Transmit.{pseudo_sum}
use sys_grid.Vnet.Pool.{alloc_pkt}
use sys_grid.Vnet.Sockets.Mailbox.{Mailboxes, Implements, Implements-SameTable, deliver}
use sys_grid.Vnet.Sockets.Push.{push_to_socket-Implements, datagram}

-- What a delivery leaves: who listens, and to what.
abbrev Settings : Socket → Socket → Type 0
Settings s t = (t.used ≡ s.used) × (t.local_port ≡ s.local_port) × (t.local_ip ≡ s.local_ip)

push_to_socket-Settings :
    (v : VNet) (s src_ip src_port : ℕ) (content : Bytes) (i : ℕ)
    → let w = push_to_socket v s src_ip src_port content in
      Settings (v.socks i) (w.socks i) × (w.ip ≡ v.ip) × (w.netmask ≡ v.netmask)
unfolding push_to_socket enqueue fill_pkt alloc_pkt
push_to_socket-Settings v s src_ip src_port content i = ground arith

push_to_socket-listens :
    (v : VNet) (s src_ip src_port : ℕ) (content : Bytes) (dst_ip dst_port i : ℕ)
    → listens (push_to_socket v s src_ip src_port content) dst_ip dst_port i
      ≡ listens v dst_ip dst_port i
unfolding is_broadcast listens
push_to_socket-listens v s src_ip src_port content dst_ip dst_port i =
    ground (arith, push_to_socket-Settings v s src_ip src_port content i)

-- Every mailbox below `n` from `i` on whose socket listens gets the datagram, in order.
unfoldable pub deliver_listening : (ℕ → Bool) → ℕ → ℕ → Mailboxes → Datagram → Mailboxes
deliver_listening hears zero i b d = b
deliver_listening hears (suc left) i b d =
    deliver_listening hears left (suc i) (if hears i then deliver b i d else b) d

unfoldable pub any_listening : (ℕ → Bool) → ℕ → ℕ → Bool
any_listening hears zero i = false
any_listening hears (suc left) i = hears i || any_listening hears left (suc i)

-- How many sockets below `n` from `i` on listen.
abbrev pub count_listening : (ℕ → Bool) → ℕ → ℕ → ℕ
count_listening hears zero i = 0
count_listening hears (suc left) i = (if hears i then 1 else 0) + count_listening hears left (suc i)

-- Socket `j` gets a datagram: it is a socket of the table that listens, the datagram is not too big, and
-- a packet is spare for it when every listening socket before it has taken one.
abbrev pub gets : (ℕ → Bool) → Mailboxes → Datagram → ℕ → Bool
gets hears b d j =
    not (ltb max_datagram (length d.content))
    && ltb j max_sockets
    && hears j
    && ltb (count_listening hears j 0) b.spare

abbrev pub served : (ℕ → Bool) → Mailboxes → Datagram → Mailboxes
served hears b d = record {
  boxes = λ j. if gets hears b d j then b.boxes j ++ d ∷ [] else b.boxes j;
  spare =
      if ltb max_datagram (length d.content)
      then b.spare
      else b.spare - count_listening hears max_sockets 0;
}

ltb-sub : (a b c : ℕ) → ltb a (b - c) ≡ ltb (c + a) b
ltb-sub a b c = ground arith

module _ (hears : ℕ → Bool) (i : ℕ) (b : Mailboxes) (d : Datagram) where
  abbrev with_first : Mailboxes
  with_first = if hears i then deliver b i d else b

  module _ (small : ltb max_datagram (length d.content) ≡ false) where
    with_first-boxes :
        (j : ℕ)
        → with_first.boxes j
          ≡ (if j == i && hears i && ltb 0 b.spare then b.boxes j ++ d ∷ [] else b.boxes j)
    with_first-boxes j = elim (Bool-cases (hears i)) [
      | inl hit ↦ elim (Bool-cases (b.spare == 0)) [
        | inl empty ↦
            let nothing : ltb 0 b.spare ≡ false = ground arith in
            rw (hit, small, empty, nothing)
              (elim (Bool-cases (j == i)) [ inl e ↦ rw e refl | inr e ↦ rw e refl ])
        | inr left ↦
            let something : ltb 0 b.spare ≡ true = ground arith in
            rw (hit, small, left, something)
              (elim (Bool-cases (j == i)) [ inl e ↦ ground arith | inr e ↦ ground arith ])
      ]
      | inr miss ↦ rw miss (elim (Bool-cases (j == i)) [ inl e ↦ rw e refl | inr e ↦ rw e refl ])
    ]

    with_first-spare : with_first.spare ≡ b.spare - (if hears i then 1 else 0)
    with_first-spare = elim (Bool-cases (hears i)) [
      | inl hit ↦ elim (Bool-cases (b.spare == 0)) [
        | inl empty ↦ rw (hit, small, empty) (ground arith)
        | inr left ↦ rw (hit, small, left) refl
      ]
      | inr miss ↦ rw miss (omega arith)
    ]

-- What the loop leaves in a mailbox, from socket `i` on.
deliver_listening-boxes :
    (hears : ℕ → Bool) (left i : ℕ) (b : Mailboxes) (d : Datagram) (j : ℕ)
    → ltb max_datagram (length d.content) ≡ false
    → (deliver_listening hears left i b d).boxes j ≡ (
        if leb i j && ltb j (i + left) && hears j && ltb (count_listening hears (j - i) i) b.spare
        then b.boxes j ++ d ∷ []
        else b.boxes j)
unfolding deliver_listening
deliver_listening-boxes hears zero i b d j small = elim (Bool-cases (leb i j)) [
  | inl up ↦ let out : ltb j (i + 0) ≡ false = ground arith in rw (up, out) refl
  | inr below ↦ rw below refl
]
deliver_listening-boxes hears (suc left) i b d j small =
    deliver_listening-boxes hears left (suc i) (with_first hears i b d) d j small
    ∙ rw (with_first-boxes hears i b d small j, with_first-spare hears i b d small)
        (elim (Bool-cases (j == i)) [
          | inl here ↦
              let e : j ≡ i = ground arith in
              let none_before : j - i ≡ 0 = omega arith in
              let later : leb (suc i) j ≡ false = ground arith in
              let from : leb i j ≡ true = ground arith in
              let to : ltb j (i + suc left) ≡ true = ground arith in
              rw
                (later, here, from, to, ap (λ n. count_listening hears n i) none_before, ap hears e)
                refl
          | inr far ↦ elim (Bool-cases (leb i j)) [
            | inl up ↦
                let later : leb (suc i) j ≡ true = ground arith in
                let to : ltb j (suc i + left) ≡ ltb j (i + suc left) = ground arith in
                let one : j - i ≡ suc (j - suc i) = ground arith in
                rw
                  (
                    later,
                    far,
                    up,
                    to,
                    ap (λ n. count_listening hears n i) one,
                    ltb-sub (count_listening hears (j - suc i) (suc i)) b.spare
                        (if hears i then 1 else 0),
                  )
                  refl
            | inr below ↦
                let later : leb (suc i) j ≡ false = ground arith in rw (later, far, below) refl
          ]
        ])

deliver_listening-spare :
    (hears : ℕ → Bool) (left i : ℕ) (b : Mailboxes) (d : Datagram)
    → ltb max_datagram (length d.content) ≡ false
    → (deliver_listening hears left i b d).spare ≡ b.spare - count_listening hears left i
unfolding deliver_listening
deliver_listening-spare hears zero i b d small = omega arith
deliver_listening-spare hears (suc left) i b d small = omega (
  arith,
  deliver_listening-spare hears left (suc i) (with_first hears i b d) d small,
  with_first-spare hears i b d small,
)

deliver_listening-big :
    (hears : ℕ → Bool) (left i : ℕ) (b : Mailboxes) (d : Datagram)
    → ltb max_datagram (length d.content) ≡ true
    → deliver_listening hears left i b d ≡ b
unfolding deliver_listening
deliver_listening-big hears zero i b d big = refl
deliver_listening-big hears (suc left) i b d big = elim (Bool-cases (hears i)) [
  | inl hit ↦ rw (hit, big) (deliver_listening-big hears left (suc i) b d big)
  | inr miss ↦ rw miss (deliver_listening-big hears left (suc i) b d big)
]

-- The loop serves the sockets in the order of the table.
pub deliver_listening-served :
    (hears : ℕ → Bool) (b : Mailboxes) (d : Datagram)
    → deliver_listening hears max_sockets 0 b d ≡ served hears b d
deliver_listening-served hears b d =
    ap₂ (λ (f : ℕ → List Datagram) (n : ℕ). record { boxes = f; spare = n })
      (fun_ext (λ j. box j (Bool-cases (ltb max_datagram (length d.content)))))
      (elim (Bool-cases (ltb max_datagram (length d.content))) [
        | inl big ↦ rw (deliver_listening-big hears max_sockets 0 b d big, big) refl
        | inr small ↦ rw (deliver_listening-spare hears max_sockets 0 b d small, small) refl
      ])
  where
    order : (j : ℕ) → j - 0 ≡ j
    order j = omega arith

    box :
        (j : ℕ)
        → (ltb max_datagram (length d.content) ≡ true)
          ⊎ (ltb max_datagram (length d.content) ≡ false)
        → (deliver_listening hears max_sockets 0 b d).boxes j ≡ (served hears b d).boxes j
    box j (inl big) = rw (deliver_listening-big hears max_sockets 0 b d big, big) refl
    box j (inr small) =
        let low : leb 0 j ≡ true = ground arith in
        let range : ltb j (0 + max_sockets) ≡ ltb j max_sockets = refl in
        deliver_listening-boxes hears max_sockets 0 b d j small
        ∙ rw (small, low, ap (λ n. count_listening hears n 0) (order j)) refl

deliver_udp_step :
    (left i : ℕ) (v : VNet) (src_ip src_port dst_ip dst_port : ℕ) (content : Bytes)
    (delivered : Bool)
    → deliver_udp (suc left) i v src_ip src_port dst_ip dst_port content delivered
      ≡ deliver_udp left
          (suc i)
          (if listens v dst_ip dst_port i then push_to_socket v i src_ip src_port content else v)
          src_ip
          src_port
          dst_ip
          dst_port
          content
          (if listens v dst_ip dst_port i then true else delivered)
unfolding deliver_udp
deliver_udp_step left i v src_ip src_port dst_ip dst_port content delivered = refl

deliver_udp-Implements :
    (left i : ℕ) (v : VNet) (b : Mailboxes) (hears : ℕ → Bool) (src_ip src_port dst_ip dst_port : ℕ)
    (content : Bytes) (delivered : Bool)
    → i + left ≤ max_sockets
    → ((j : ℕ) → listens v dst_ip dst_port j ≡ hears j)
    → Implements v b
    → let d = datagram content src_ip src_port in
      let r = deliver_udp left i v src_ip src_port dst_ip dst_port content delivered in
      Implements r.0 (deliver_listening hears left i b d)
      × (r.1 ≡ any_listening hears left i || delivered)
unfolding deliver_listening any_listening
deliver_udp-Implements zero i v b hears src_ip src_port dst_ip dst_port content delivered h same r =
    unfold deliver_udp in (r, refl)
deliver_udp-Implements (suc left) i v b hears src_ip src_port dst_ip dst_port content delivered h
      same r =
    elim (Bool-cases (hears i)) [
      | inl hit ↦
          let here : listens v dst_ip dst_port i ≡ true = same i ∙ hit in
          let used : (v.socks i).used ≡ true = unfold listens in ground arith in
          let now = push_to_socket-Implements v b i src_ip src_port content (omega arith) used r in
          let rest =
            deliver_udp-Implements left (suc i) (push_to_socket v i src_ip src_port content)
              (deliver b i d) hears src_ip src_port dst_ip dst_port content true (omega arith)
              (λ j. push_to_socket-listens v i src_ip src_port content dst_ip dst_port j ∙ same j)
              now in
          rw
            (deliver_udp_step left i v src_ip src_port dst_ip dst_port content delivered, here, hit)
            (rest.0, rest.1 ∙ or-true _)
      | inr miss ↦
          let here : listens v dst_ip dst_port i ≡ false = same i ∙ miss in
          rw
            (
              deliver_udp_step left i v src_ip src_port dst_ip dst_port content delivered,
              here,
              miss,
            )
            (deliver_udp-Implements left (suc i) v b hears src_ip src_port dst_ip dst_port content
              delivered (omega arith) same r)
    ]
  where
    d : Datagram
    d = datagram content src_ip src_port

    or-true : (c : Bool) → (c || true) ≡ true
    or-true true = refl
    or-true false = refl

-- The tests that a UDP datagram passes before its ports are looked at.
abbrev pub udp_intact : ℕ → ℕ → Bytes → Bool
udp_intact src_ip dst_ip p =
    not (ltb (length p) 8)
    && not (
        rd16 p 6 != 0
        && checksum16 (take (udp_length p) p) (pseudo_sum src_ip dst_ip (udp_length p)) != 0)

abbrev pub udp_content : Bytes → ℕ → Datagram
udp_content p src_ip = datagram (drop 8 (take (udp_length p) p)) src_ip (rd16 p 0)

pub on_udp-deliver :
    (v : VNet) (b : Mailboxes) (src_ip dst_ip : ℕ) (p : Bytes)
    → Implements v b
    → Implements (on_udp v src_ip dst_ip p) (
        if udp_intact src_ip dst_ip p
        then deliver_listening (listens v dst_ip (rd16 p 2)) max_sockets 0 b (udp_content p src_ip)
        else b)
unfolding on_udp udp_body drop_no_socket
on_udp-deliver v b src_ip dst_ip p r = elim (Bool-cases (udp_intact src_ip dst_ip p)) [
  | inl good ↦ rw good (Implements-SameTable served _ _ (ground arith) reached.0)
  | inr bad ↦ rw bad (Implements-SameTable v _ _ (ground arith) r)
]
  where
    v' : VNet
    v' = count_rx_udp v

    result : VNet × Bool
    result =
        deliver_udp max_sockets 0 v' src_ip (rd16 p 0) dst_ip (rd16 p 2)
          (drop 8 (take (udp_length p) p)) false

    served : VNet
    served = result.0

    reached :
        Implements result.0
          (deliver_listening (listens v dst_ip (rd16 p 2)) max_sockets 0 b (udp_content p src_ip))
        × (result.1 ≡ any_listening (listens v dst_ip (rd16 p 2)) max_sockets 0 || false)
    reached =
        deliver_udp-Implements max_sockets 0 v' b (listens v dst_ip (rd16 p 2)) src_ip (rd16 p 0)
          dst_ip (rd16 p 2) (drop 8 (take (udp_length p) p)) false (omega arith)
          (λ j. unfold listens is_broadcast in refl)
          (Implements-SameTable v v' b (refl, refl, refl) r)

-- An intact datagram is put into the mailbox of every socket that listens for its address and port, if
-- it is not too big and as far as the spare packets go: they are given out in the order of the table,
-- so that a socket gets the datagram when fewer sockets before it listen than packets are spare. No
-- other mailbox changes, each copy takes a packet, and a datagram that is not intact reaches no socket.
pub on_udp-Implements :
    (v : VNet) (b : Mailboxes) (src_ip dst_ip : ℕ) (p : Bytes)
    → Implements v b
    → Implements (on_udp v src_ip dst_ip p) (
        if udp_intact src_ip dst_ip p
        then served (listens v dst_ip (rd16 p 2)) b (udp_content p src_ip)
        else b)
on_udp-Implements v b src_ip dst_ip p r =
    subst
      (λ (m : Mailboxes).
        Implements (on_udp v src_ip dst_ip p) (if udp_intact src_ip dst_ip p then m else b))
      (deliver_listening-served (listens v dst_ip (rd16 p 2)) b (udp_content p src_ip))
      (on_udp-deliver v b src_ip dst_ip p r)
