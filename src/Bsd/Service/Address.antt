-- ===== src/Bsd/Service/Address.antt =====
-- A socket that is connected on the virtual network: what GetPeerName answers and where Send sends.
use sys_grid.Base.{
  ℕ, ◌<◌, ◌≤◌, ◌≡◌, refl, ◌∙◌, ap, arith, Bool, true, false, not, Option, some, ◌==◌, ltb, leb, ◌∷◌,
  length, bit_and, Bool-cases, inl, inr, if◌then◌else◌, replicate,
}
use sys_grid.Net.{Bytes, byte_at}
use sys_grid.Vnet.Transmit.{udp_send_to}
use sys_grid.Vnet.{VNet}
use sys_grid.Bsd.Lan.{
  Shim, find_lan_socket, get_lan_vfd, get_connected_lan_peer, peer_of, is_overlay_destination,
  max_lan_sockets, mirror_lan_datagram,
}
use sys_grid.Bsd.Lan.Mirror.{find_lan-ext}
use sys_grid.Bsd.Lan.Sending.{name_port, name_ip}
use sys_grid.Bsd.Service.{Answer, zero_answer, Outcome, change_entry, full_length, answer, forward}
use sys_grid.Bsd.Service.Connected.{
  connect_entry, connect, mirror_connected_lan_datagram, send, PhysicalName, get_peer_name,
  mirror_to,
}
use sys_grid.Bsd.Service.Names.{name_of-read}

-- A mirrored UDP socket of the process, and an address on the virtual network.
pub record IsConnectable (s : Shim) (pid fd i vfd : ℕ) (addr : Bytes) : Type 0 where
  pub found : find_lan_socket s.table pid (some fd) ≡ some i
  pub udp : (s.table i).udp ≡ true
  pub mirrored : (s.table i).mirrored ≡ true
  pub virtual : (s.table i).vnet_fd ≡ some vfd
  pub long : 8 ≤ length addr
  pub family : byte_at addr 1 ≡ 2
  pub inside : (is_overlay_destination s (name_ip addr)).0 ≡ true
  pub bytes : (k : ℕ) → byte_at addr k < 256

abbrev after : Shim → ℕ → Bytes → Shim
after s i addr = change_entry s (some i) (connect_entry addr)

find_lan_socket-after :
    (s : Shim) (pid fd i vfd : ℕ) (addr : Bytes)
    → IsConnectable s pid fd i vfd addr
    → find_lan_socket (after s i addr).table pid (some fd) ≡ some i
unfolding find_lan_socket
find_lan_socket-after s pid fd i vfd addr c =
    find_lan-ext (after s i addr).table s.table pid fd max_lan_sockets 0 (λ j. ground arith)
    ∙ c.found

connect-changes :
    (s : Shim) (pid fd i vfd : ℕ) (addr : Bytes) (physical : Option Answer)
    → IsConnectable s pid fd i vfd addr
    → connect s pid (some fd) addr physical
      ≡ record { shim = after s i addr; reply = some zero_answer; forwarded = false }
unfolding connect get_lan_vfd
connect-changes s pid fd i vfd addr physical c =
    let short : ltb (length addr) 2 ≡ false = ground (arith, c.long) in
    let named : (byte_at addr 1 == 0) ≡ false = ground (arith, c.family) in
    let internet : (byte_at addr 1 == 2) ≡ true = ground (arith, c.family) in
    let long : leb 8 (length addr) ≡ true = ground (arith, c.long) in
    rw (c.found, short, named, internet, long, c.mirrored, c.virtual, c.inside, c.udp) refl

peer-after :
    (s : Shim) (pid fd i vfd : ℕ) (addr : Bytes)
    → IsConnectable s pid fd i vfd addr
    → get_connected_lan_peer (after s i addr).table pid (some fd)
      ≡ some (record { vfd = some vfd; ip = name_ip addr; port = name_port addr })
unfolding get_connected_lan_peer
peer-after s pid fd i vfd addr c =
    ap (peer_of (after s i addr).table) (find_lan_socket-after s pid fd i vfd addr c)
    ∙ ground (arith, c.udp, c.mirrored, c.virtual)

ready :
    (s : Shim) (pid fd i vfd : ℕ) (addr : Bytes)
    → IsConnectable s pid fd i vfd addr
    → (s.has_port ≡ true) × (s.net.configured ≡ true)
unfolding is_overlay_destination
ready s pid fd i vfd addr c = let inside = c.inside in (ground arith, ground arith)

send_after :
    (s : Shim) (pid fd i vfd : ℕ) (addr content : Bytes)
    → IsConnectable s pid fd i vfd addr
    → mirror_connected_lan_datagram (after s i addr) pid (some fd) content
      ≡ mirror_to
          (after s i addr)
          (some (record { vfd = some vfd; ip = name_ip addr; port = name_port addr }))
          content
unfolding mirror_connected_lan_datagram
send_after s pid fd i vfd addr content c =
    rw (peer-after s pid fd i vfd addr c, c.udp, (ready s pid fd i vfd addr c).0) refl

-- Connect of a mirrored UDP socket to an address on the virtual network is answered without the
-- console's service. GetPeerName then answers the port and the address that were connected to, in the
-- same bytes.
pub connect-get_peer_name :
    (s : Shim) (pid fd i vfd : ℕ) (addr : Bytes) (physical : Option Answer) (size : ℕ)
    (named : Option PhysicalName)
    → IsConnectable s pid fd i vfd addr
    → 16 ≤ size
    → let o = connect s pid (some fd) addr physical in
      let n = get_peer_name o.shim pid (some fd) size named in
      (o.forwarded ≡ false)
      × (o.reply ≡ some zero_answer)
      × (n.forwarded ≡ false)
      × (n.reply ≡ some zero_answer)
      × (n.address
          ≡ some (
              16
              ∷ 2
              ∷ byte_at addr 2
              ∷ byte_at addr 3
              ∷ byte_at addr 4
              ∷ byte_at addr 5
              ∷ byte_at addr 6
              ∷ byte_at addr 7
              ∷ replicate 8 0))
unfolding get_peer_name
connect-get_peer_name s pid fd i vfd addr physical size named c large =
    let room : leb 16 size ≡ true = ground arith in
    rw
      (
        connect-changes s pid fd i vfd addr physical c,
        peer-after s pid fd i vfd addr c,
        room,
        name_of-read addr c.bytes,
      )
      (refl, refl, refl, refl, refl)

abbrev pub in_subnet : Shim → ℕ → Bool
in_subnet s ip = bit_and ip s.net.netmask == bit_and s.net.ip s.net.netmask

mirror-inside :
    (s : Shim) (vfd ip port : ℕ) (content : Bytes)
    → s.net.configured ≡ true
    → in_subnet s ip ≡ true
    → mirror_lan_datagram s.net (some vfd) ip port content
      ≡ udp_send_to s.net (some vfd) ip port content
unfolding mirror_lan_datagram
mirror-inside s vfd ip port content up h = rw (h, up) refl

mirror-outside :
    (s : Shim) (vfd ip port : ℕ) (content : Bytes)
    → in_subnet s ip ≡ false
    → mirror_lan_datagram s.net (some vfd) ip port content ≡ (s.net, false)
unfolding mirror_lan_datagram
mirror-outside s vfd ip port content h = elim (Bool-cases s.net.configured) [
  | inl up ↦ rw (h, up) refl
  | inr down ↦ rw down refl
]

-- What Send makes of the result of the virtual network.
abbrev sent_as : Shim → VNet × Bool → Bytes → Option Answer → Outcome
sent_as t (net, sent) content later =
    if sent
    then answer (record t { net = net }) (full_length content)
    else forward (record t { net = net }) later

abbrev pub Follows : Outcome → VNet × Bool → Bytes → Option Answer → Type 0
Follows o (net, sent) content later =
    (o.shim.net ≡ net)
    × (o.forwarded ≡ not sent)
    × (o.reply ≡ (if sent then some (full_length content) else later))

sent_as-Follows :
    (t : Shim) (u : VNet × Bool) (content : Bytes) (later : Option Answer)
    → Follows (sent_as t u content later) u content later
sent_as-Follows t (net, true) content later = (refl, refl, refl)
sent_as-Follows t (net, false) content later = (refl, refl, refl)

send-sent_as :
    (s : Shim) (pid fd i vfd : ℕ) (addr content : Bytes) (later : Option Answer)
    → IsConnectable s pid fd i vfd addr
    → send (after s i addr) pid (some fd) content later
      ≡ sent_as
          (after s i addr)
          (mirror_lan_datagram s.net (some vfd) (name_ip addr) (name_port addr) content)
          content
          later
unfolding send
send-sent_as s pid fd i vfd addr content later c =
    rw (send_after s pid fd i vfd addr content c, c.udp) refl

-- After such a Connect, Send puts its content on the virtual network, for the address and the port
-- that were connected to, when the address is in the subnet; what the virtual network does not take
-- goes to the console's service. When the address is outside the subnet, which Connect accepts if it
-- is a broadcast address, nothing is put on the virtual network, and the Send goes to the console's
-- service.
pub connect-send :
    (s : Shim) (pid fd i vfd : ℕ) (addr content : Bytes) (physical later : Option Answer)
    → IsConnectable s pid fd i vfd addr
    → let o = send (connect s pid (some fd) addr physical).shim pid (some fd) content later in
      let u = udp_send_to s.net (some vfd) (name_ip addr) (name_port addr) content in
      Follows o (if in_subnet s (name_ip addr) then u else (s.net, false)) content later
connect-send s pid fd i vfd addr content physical later c =
    rw
      (
        connect-changes s pid fd i vfd addr physical c,
        send-sent_as s pid fd i vfd addr content later c,
      )
      (elim (Bool-cases (in_subnet s (name_ip addr))) [
        | inl inside ↦
            rw (mirror-inside s vfd (name_ip addr) (name_port addr) content up inside, inside)
              (sent_as-Follows (after s i addr)
                (udp_send_to s.net (some vfd) (name_ip addr) (name_port addr) content) content
                later)
        | inr outside ↦
            rw (mirror-outside s vfd (name_ip addr) (name_port addr) content outside, outside)
              (sent_as-Follows (after s i addr) (s.net, false) content later)
      ])
  where
    up : s.net.configured ≡ true
    up = (ready s pid fd i vfd addr c).1
