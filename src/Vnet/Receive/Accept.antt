-- ===== src/Vnet/Receive/Accept.antt =====
-- From `udpSendTo` on one console to the sockets of another.
use sys_grid.Base.{
  ℕ, ◌/◌, ◌<◌, ◌≤◌, ◌≡◌, refl, ◌∙◌, ap, subst, fun_ext, arith, Bool, true, false, not, ◌&&◌, ◌||◌,
  ◌⊎◌, some, ◌>>>◌, length, take, if◌then◌else◌, ltb, ◌==◌, ◌!=◌,
}
use sys_grid.Net.{Bytes, byte_at, rd16, checksum16, mac_broadcast, ether_type_ipv4}
use sys_grid.Vnet.{VNet, max_sockets}
use sys_grid.Vnet.Stats.{count_rx_ip, count_rx_frames}
use sys_grid.Vnet.Address.{is_for_us, is_broadcast, learn_mac}
use sys_grid.Vnet.Sockets.{Datagram}
use sys_grid.Vnet.Sockets.Mailbox.{Mailboxes, Implements, Implements-SameTable}
use sys_grid.Vnet.Sockets.Push.{datagram}
use sys_grid.Vnet.Transmit.{ip_packet, udp_packet}
use sys_grid.Vnet.Transmit.Table.{learn_mac-SameTable}
use sys_grid.Vnet.Transmit.Header.{IsHeader, ip_packet_reads}
use sys_grid.Vnet.Transmit.Datagram.{
  IsDatagram, udp_packet_reads, udp_packet-IsBytes, length-udp_packet,
}
use sys_grid.Vnet.Receive.{
  Fragment, header_length, fragment_of, ipv4_body, on_ipv4, accept_packet, on_frame,
}
use sys_grid.Vnet.Protocols.{deliver_ipv4, on_udp, listens}
use sys_grid.Vnet.Receive.Demux.{deliver_listening, on_udp-deliver, udp_intact, udp_content}

-- The tests that a whole packet passes.
abbrev Whole : Bytes → ℕ → Type 0
Whole p dst_ip =
    (20 ≤ length p)
    × (header_length p ≡ 20)
    × (byte_at p 0 / 16 ≡ 4)
    × (checksum16 (take 20 p) 0 ≡ 0)
    × (20 ≤ rd16 p 2)
    × ((fragment_of p).dst_ip ≡ dst_ip)
    × ((fragment_of p).offset ≡ 0)
    × ((fragment_of p).more ≡ false)

on_ipv4-Whole :
    (v : VNet) (src_mac : ℕ) (p : Bytes) (dst_ip : ℕ)
    → Whole p dst_ip
    → is_for_us v dst_ip ≡ true
    → let f = fragment_of p in
      on_ipv4 v src_mac p
      ≡ deliver_ipv4 (learn_mac (count_rx_ip v) f.src_ip src_mac) f.src_ip dst_ip f.proto f.payload
unfolding on_ipv4 ipv4_body accept_packet
on_ipv4-Whole v src_mac p dst_ip (long, ihl, version, sealed, total, dst, offset, more) ours =
    let ours' : is_for_us (count_rx_ip v) dst_ip ≡ true = unfold is_for_us is_broadcast in ours in
    let a : ltb (length p) 20 ≡ false = ground arith in
    let b : (byte_at p 0 >>> 4 != 4 || ltb (header_length p) 20 || ltb (length p) (header_length p))
        ≡ false =
      ground arith in
    let c : (checksum16 (take (header_length p) p) 0 != 0) ≡ false =
      ground (arith, ap (λ (n : ℕ). checksum16 (take n p) 0) ihl) in
    let d : ltb (rd16 p 2) (header_length p) ≡ false = ground arith in
    let e : ((fragment_of p).offset == 0 && not (fragment_of p).more) ≡ true = ground arith in
    rw (a, b, c, d, dst, ours', e) refl

on_frame-ipv4 :
    (v : VNet) (src_mac dst_mac : ℕ) (p : Bytes)
    → v.configured ≡ true
    → (dst_mac ≡ v.mac) ⊎ (dst_mac ≡ mac_broadcast)
    → 0 < length p
    → on_frame v src_mac dst_mac ether_type_ipv4 (some p) ≡ on_ipv4 (count_rx_frames v) src_mac p
unfolding on_frame
on_frame-ipv4 v src_mac dst_mac p c a n = ground arith

listens-learn_mac :
    (v : VNet) (src_ip src_mac dst_ip dst_port : ℕ)
    → listens (learn_mac (count_rx_ip (count_rx_frames v)) src_ip src_mac) dst_ip dst_port
      ≡ listens v dst_ip dst_port
unfolding listens is_broadcast learn_mac
listens-learn_mac v src_ip src_mac dst_ip dst_port = fun_ext (λ i. ground arith)

-- A datagram as it goes over the wire.
abbrev pub wire : ℕ → ℕ → ℕ → ℕ → ℕ → Bytes → Bytes
wire src_ip dst_ip id src_port dst_port content =
    ip_packet src_ip dst_ip 17 id 0 false (udp_packet src_ip dst_ip src_port dst_port content)

-- A configured console that the frame and the packet are addressed to, with its mailboxes.
pub record Hears (v : VNet) (b : Mailboxes) (dst_mac dst_ip : ℕ) : Type 0 where
  pub implements : Implements v b
  pub configured : v.configured ≡ true
  pub to_us : is_for_us v dst_ip ≡ true
  pub addressed : (dst_mac ≡ v.mac) ⊎ (dst_mac ≡ mac_broadcast)

module _ (src_ip dst_ip src_port dst_port id : ℕ) (content : Bytes)
    (h : IsDatagram src_ip dst_ip src_port dst_port content) (id_range : id < 65536)
    (whole : length content ≤ 1492) where
  abbrev udp : Bytes
  udp = udp_packet src_ip dst_ip src_port dst_port content

  abbrev packet : Bytes
  packet = wire src_ip dst_ip id src_port dst_port content

  wire-IsHeader : IsHeader src_ip dst_ip 17 id 0 udp
  wire-IsHeader = record {
    src_range = h.src_range;
    dst_range = h.dst_range;
    proto_range = omega arith;
    id_range = id_range;
    blocks_range = omega arith;
    fits = omega (arith, length-udp_packet src_ip dst_ip src_port dst_port content h);
    bytes = udp_packet-IsBytes src_ip dst_ip src_port dst_port content h;
  }

  wire-Whole : Whole packet dst_ip
  wire-Whole =
      let (size, ihl, version, sealed, total, f) =
        ip_packet_reads src_ip dst_ip 17 id 0 false udp wire-IsHeader in
      (
        omega arith,
        ihl,
        version,
        sealed,
        omega arith,
        ap (λ (g : Fragment). g.dst_ip) f,
        ap (λ (g : Fragment). g.offset) f,
        ap (λ (g : Fragment). g.more) f,
      )

  wire-content : fragment_of packet ≡ record {
    src_ip = src_ip;
    dst_ip = dst_ip;
    proto = 17;
    id = id;
    offset = 0;
    more = false;
    payload = udp;
  }
  wire-content =
      let (size, ihl, version, sealed, total, f) =
        ip_packet_reads src_ip dst_ip 17 id 0 false udp wire-IsHeader in
      f

  -- The console hands a datagram that it is sent to its sockets.
  pub wire-deliver :
      (v : VNet) (b : Mailboxes) (src_mac dst_mac : ℕ)
      → Hears v b dst_mac dst_ip
      → Implements (on_frame v src_mac dst_mac ether_type_ipv4 (some packet)) (
          deliver_listening
            (listens v dst_ip dst_port)
            max_sockets
            0
            b
            (datagram content src_ip src_port))
  wire-deliver v b src_mac dst_mac k =
      let w = count_rx_frames v in
      let l = learn_mac (count_rx_ip w) src_ip src_mac in
      let ours : is_for_us w dst_ip ≡ true = unfold is_for_us is_broadcast in k.to_us in
      let long : (20 ≤ length packet) = wire-Whole.0 in
      let accepted : on_ipv4 w src_mac packet ≡ deliver_ipv4 l src_ip dst_ip 17 udp =
        on_ipv4-Whole w src_mac packet dst_ip wire-Whole ours
        ∙ ap
            (λ (g : Fragment).
              deliver_ipv4 (learn_mac (count_rx_ip w) g.src_ip src_mac) g.src_ip dst_ip g.proto
                g.payload)
            wire-content in
      let (intact, port, content_e) = udp_packet_reads src_ip dst_ip src_port dst_port content h in
      let heard = listens-learn_mac v src_ip src_mac dst_ip dst_port in
      let kept =
        Implements-SameTable v l b (learn_mac-SameTable (count_rx_ip w) src_ip src_mac)
          k.implements in
      let delivered = on_udp-deliver l b src_ip dst_ip udp kept in
      let same : (if udp_intact src_ip dst_ip udp
            then deliver_listening (listens l dst_ip (rd16 udp 2)) max_sockets 0 b
                (udp_content udp src_ip)
            else b)
          ≡ deliver_listening (listens v dst_ip dst_port) max_sockets 0 b
              (datagram content src_ip src_port) =
        ap
          (λ (c : Bool).
            if c
            then deliver_listening (listens l dst_ip (rd16 udp 2)) max_sockets 0 b
                (udp_content udp src_ip)
            else b)
          intact
        ∙ ap
            (λ (p : ℕ).
              deliver_listening (listens l dst_ip p) max_sockets 0 b (udp_content udp src_ip))
            port
        ∙ ap (λ (d : Datagram). deliver_listening (listens l dst_ip dst_port) max_sockets 0 b d)
            content_e
        ∙ ap
            (λ (g : ℕ → Bool).
              deliver_listening g max_sockets 0 b (datagram content src_ip src_port))
            heard in
      rw (on_frame-ipv4 v src_mac dst_mac packet k.configured k.addressed (omega arith), accepted)
        (unfold deliver_ipv4 in subst (Implements (on_udp l src_ip dst_ip udp)) same delivered)
