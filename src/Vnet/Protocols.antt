-- ===== src/Vnet/Protocols.antt =====
-- What a frame carries: ARP, and the UDP and ICMP of an IPv4 packet. A payload is the list of its
-- `len` bytes.
use sys_grid.Base.{
  ℕ, zero, suc, ◌-◌, Bool, true, false, not, ◌&&◌, ◌||◌, ◌==◌, ◌!=◌, ltb, if◌then◌else◌, u16,
  length, take, drop,
}
use sys_grid.Net.{
  Bytes, byte_at, rd16, rd32, checksum16, mac_to_bytes, mac_from_bytes, ether_type_arp,
  ether_type_ipv4, ip_proto_udp, ip_proto_icmp, udp4_header, echo_request, echo_reply, arp4_size,
  op_request, op_reply,
}
use sys_grid.Vnet.{VNet, max_sockets, max_datagram}
use sys_grid.Vnet.Stats.{
  bump, count_with, count_rx_arp, count_rx_udp, count_rx_icmp, count_tx_frames, count_tx_arp,
  count_tx_icmp, drop_bad_checksum, drop_too_big, drop_malformed, emit,
}
use sys_grid.Vnet.Address.{is_broadcast, learn_mac}
use sys_grid.Vnet.Sockets.{push_to_socket}
use sys_grid.Vnet.Transmit.{arp_packet, send_ipv4, icmp_sealed, pseudo_sum}

-- ---- ARP ----

unfoldable pub arp_reply : VNet → ℕ → ℕ → VNet
arp_reply v sender_mac sender_ip =
    if not v.has_emit
    then v
    else count_tx_arp (
        count_tx_frames (
          emit
            (record {
              dst_mac = sender_mac;
              ether_type = ether_type_arp;
              payload = arp_packet op_reply v.mac v.ip (mac_to_bytes sender_mac) sender_ip;
            })
            v))

-- `onArp` behind `m_stats.rxArp++`.
unfoldable pub arp_body : VNet → ℕ → Bytes → VNet
arp_body v src_mac p =
    let op = rd16 p 6 in
    let sender_mac = mac_from_bytes p 8 in
    let sender_ip = rd32 p 14 in
    let target_ip = rd32 p 24 in
    let learnt = learn_mac v sender_ip (if sender_mac == 0 then src_mac else sender_mac) in
    if ltb (length p) arp4_size
    then drop_malformed v
    else if rd16 p 0 != 1 || rd16 p 2 != ether_type_ipv4
    then v
    else if byte_at p 4 != 6 || byte_at p 5 != 4
    then v
    else if op != op_request || target_ip != learnt.ip
    then learnt
    else arp_reply learnt sender_mac sender_ip

unfoldable pub on_arp : VNet → ℕ → Bytes → VNet
on_arp v src_mac p = arp_body (count_rx_arp v) src_mac p

-- ---- UDP and ICMP ----

-- `s.used && s.localPort == dstPort` and the address test of the loop.
unfoldable pub listens : VNet → ℕ → ℕ → ℕ → Bool
listens v dst_ip dst_port i =
    let s = v.socks i in
    (s.used && s.local_port == dst_port)
    && (s.local_ip == dst_ip || s.local_ip == 0 || is_broadcast v dst_ip)

-- The loop over the sockets, with `left` to go; the flag is `delivered`.
unfoldable pub deliver_udp : ℕ → ℕ → VNet → ℕ → ℕ → ℕ → ℕ → Bytes → Bool → VNet × Bool
deliver_udp zero i v src_ip src_port dst_ip dst_port content delivered = (v, delivered)
deliver_udp (suc left) i v src_ip src_port dst_ip dst_port content delivered =
    let hit = listens v dst_ip dst_port i in
    deliver_udp left (suc i) (if hit then push_to_socket v i src_ip src_port content else v) src_ip
      src_port dst_ip dst_port content (if hit then true else delivered)

unfoldable pub drop_no_socket : VNet → ℕ → ℕ → ℕ → ℕ → VNet
drop_no_socket v src_ip src_port dst_port len =
    count_with
      (λ s. record s {
        drop_no_socket = bump s.drop_no_socket;
        last_no_socket_src_ip = src_ip;
        last_no_socket_src_port = src_port;
        last_no_socket_dst_port = dst_port;
        last_no_socket_len = u16 len;
      })
      v

-- `udpLen`.
abbrev pub udp_length : Bytes → ℕ
udp_length p =
    if ltb (rd16 p 4) udp4_header || ltb (length p) (rd16 p 4) then length p else rd16 p 4

-- `onUdp` behind `m_stats.rxUdp++`.
unfoldable pub udp_body : VNet → ℕ → ℕ → Bytes → VNet
udp_body v src_ip dst_ip p =
    let src_port = rd16 p 0 in
    let dst_port = rd16 p 2 in
    let udp_len = udp_length p in
    let content = drop udp4_header (take udp_len p) in
    let (served, delivered) =
      deliver_udp max_sockets 0 v src_ip src_port dst_ip dst_port content false in
    if ltb (length p) udp4_header
    then drop_malformed v
    else if rd16 p 6 != 0 && checksum16 (take udp_len p) (pseudo_sum src_ip dst_ip udp_len) != 0
    then drop_bad_checksum v
    else if delivered
    then served
    else drop_no_socket served src_ip src_port dst_port (udp_len - udp4_header)

unfoldable pub on_udp : VNet → ℕ → ℕ → Bytes → VNet
on_udp v src_ip dst_ip p = udp_body (count_rx_udp v) src_ip dst_ip p

-- `onIcmp` behind `m_stats.rxIcmp++`.
unfoldable pub icmp_body : VNet → ℕ → Bytes → VNet
icmp_body v src_ip p =
    if ltb (length p) 8 || byte_at p 0 != echo_request
    then v
    else if checksum16 p 0 != 0
    then drop_bad_checksum v
    else if ltb max_datagram (length p)
    then drop_too_big v
    else count_tx_icmp
        (send_ipv4 v src_ip ip_proto_icmp (icmp_sealed echo_reply (byte_at p 1) (drop 4 p)))

unfoldable pub on_icmp : VNet → ℕ → Bytes → VNet
on_icmp v src_ip p = icmp_body (count_rx_icmp v) src_ip p

unfoldable pub deliver_ipv4 : VNet → ℕ → ℕ → ℕ → Bytes → VNet
deliver_ipv4 v src_ip dst_ip proto payload =
    if proto == ip_proto_udp
    then on_udp v src_ip dst_ip payload
    else if proto == ip_proto_icmp
    then on_icmp v src_ip payload
    else v
