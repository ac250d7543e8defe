-- ===== src/Vnet/Delivery.antt =====
-- A datagram from `udpSendTo` on one console to the sockets of another.
use sys_grid.Base.{
  subst, ℕ, ◌+◌, ◌-◌, ◌<◌, ◌≤◌, ◌≡◌, ◌≢◌, refl, arith, true, false, some, [], ◌∷◌, ◌++◌, length,
  ltb, leb, ◌==◌,
}
use sys_grid.Net.{Bytes, ether_type_ipv4}
use sys_grid.Vnet.{VNet, Frame, max_datagram}
use sys_grid.Vnet.Address.{lookup_mac}
use sys_grid.Vnet.Sockets.{is_open}
use sys_grid.Vnet.Sockets.Mailbox.{Mailboxes, Implements}
use sys_grid.Vnet.Sockets.Push.{datagram}
use sys_grid.Vnet.Transmit.{
  ip_packet, udp_packet, udp_send_to, send_datagram, send_ipv4, emit_ip_fragment,
}
use sys_grid.Vnet.Transmit.Datagram.{IsDatagram, length-udp_packet}
use sys_grid.Vnet.Receive.{on_frame}
use sys_grid.Vnet.Protocols.{listens}
use sys_grid.Vnet.Receive.Demux.{served, deliver_listening-served}
use sys_grid.Vnet.Receive.Accept.{wire, wire-deliver, Hears}

-- A console that can send this content in one piece to an address that it knows.
pub record Sends (v : VNet) (i dst_ip dst_port : ℕ) (content : Bytes) : Type 0 where
  pub opened : is_open v i ≡ true
  pub configured : v.configured ≡ true
  pub connected : v.has_emit ≡ true
  pub bound : (v.socks i).local_port ≢ 0
  pub known : lookup_mac v dst_ip ≢ 0
  pub one_piece : 28 + length content ≤ v.mtu
  pub mtu_high : v.mtu + 14 ≤ 1520
  pub id_range : v.ip_id < 65536
  pub datagram : IsDatagram v.ip dst_ip (v.socks i).local_port dst_port content

abbrev pub sent_frame : VNet → ℕ → ℕ → ℕ → Bytes → Frame
sent_frame v i dst_ip dst_port content = record {
  dst_mac = lookup_mac v dst_ip;
  ether_type = ether_type_ipv4;
  payload = wire v.ip dst_ip v.ip_id (v.socks i).local_port dst_port content;
}

udp_send_to-bound :
    (v : VNet) (i dst_ip dst_port : ℕ) (content : Bytes)
    → Sends v i dst_ip dst_port content
    → udp_send_to v (some i) dst_ip dst_port content ≡ send_datagram v i dst_ip dst_port content
unfolding udp_send_to
udp_send_to-bound v i dst_ip dst_port content h =
    let small : ltb max_datagram (length content) ≡ false =
      ground (arith, h.one_piece, h.mtu_high) in
    let port : ((v.socks i).local_port == 0) ≡ false = ground (arith, h.bound) in
    rw (h.opened, h.configured, small, port) refl

send_ipv4-emits :
    (v : VNet) (dst_ip proto : ℕ) (payload : Bytes)
    → v.has_emit ≡ true
    → lookup_mac v dst_ip ≢ 0
    → length payload + 20 ≤ v.mtu
    → v.mtu + 14 ≤ 1520
    → (send_ipv4 v dst_ip proto payload).emitted
      ≡ v.emitted
        ++ record {
          dst_mac = lookup_mac v dst_ip;
          ether_type = ether_type_ipv4;
          payload = ip_packet v.ip dst_ip proto v.ip_id 0 false payload;
        }
          ∷ []
unfolding send_ipv4 emit_ip_fragment
send_ipv4-emits v dst_ip proto payload e known fits high =
    let unknown : (lookup_mac v dst_ip == 0) ≡ false = ground arith in
    let fit : leb (length payload) (v.mtu - 20) ≡ true = ground arith in
    let small : ltb 1520 (20 + length payload) ≡ false = ground arith in
    rw (unknown, fit, e, small) refl

-- What `udpSendTo` puts on the network: one frame, to the address that the ARP cache knows.
udp_send_to-emits :
    (v : VNet) (i dst_ip dst_port : ℕ) (content : Bytes)
    → Sends v i dst_ip dst_port content
    → (udp_send_to v (some i) dst_ip dst_port content).0.emitted
      ≡ v.emitted ++ sent_frame v i dst_ip dst_port content ∷ []
unfolding send_datagram
udp_send_to-emits v i dst_ip dst_port content h =
    rw (udp_send_to-bound v i dst_ip dst_port content h) (
      send_ipv4-emits v dst_ip 17 (udp_packet v.ip dst_ip (v.socks i).local_port dst_port content)
        h.connected h.known
        (omega (
          arith,
          h.one_piece,
          length-udp_packet v.ip dst_ip (v.socks i).local_port dst_port content h.datagram,
        ))
        h.mtu_high)

-- A datagram that is sent with `udpSendTo` in one piece goes out as one frame. A console that is
-- configured, and that the frame and the address mean, puts the content, with the sender's address and
-- port, into the mailbox of every socket that listens for it, as far as its spare packets go: a socket
-- gets it when fewer sockets before it in the table listen than packets are spare. No other mailbox
-- changes, and each copy takes a packet.
pub udp_send_to-reaches :
    (v w : VNet) (b : Mailboxes) (i dst_ip dst_port : ℕ) (content : Bytes)
    → Sends v i dst_ip dst_port content
    → Hears w b (lookup_mac v dst_ip) dst_ip
    → let f = sent_frame v i dst_ip dst_port content in
      ((udp_send_to v (some i) dst_ip dst_port content).0.emitted ≡ v.emitted ++ f ∷ [])
      × Implements
          (on_frame w v.mac f.dst_mac f.ether_type (some f.payload))
          (served (listens w dst_ip dst_port) b (datagram content v.ip (v.socks i).local_port))
udp_send_to-reaches v w b i dst_ip dst_port content h k = (
  udp_send_to-emits v i dst_ip dst_port content h,
  subst (Implements (on_frame w v.mac (lookup_mac v dst_ip) ether_type_ipv4 (some packet)))
      (deliver_listening-served (listens w dst_ip dst_port) b
        (datagram content v.ip (v.socks i).local_port))
      (wire-deliver v.ip dst_ip (v.socks i).local_port dst_port v.ip_id content h.datagram
        h.id_range (omega (arith, h.one_piece, h.mtu_high)) w b v.mac (lookup_mac v dst_ip) k),
)
  where
    packet : Bytes
    packet = (sent_frame v i dst_ip dst_port content).payload
