-- ===== src/Vnet/Transmit.antt =====
-- The outbound path: IPv4 headers, fragmentation, ARP requests, UDP datagrams and echo requests.
pub mod Table
pub mod Setup
pub mod Header
pub mod Datagram
pub mod Split
use sys_grid.Base.{
  ℕ, zero, suc, ◌+◌, ◌-◌, ◌*◌, ◌/◌, Bool, true, false, not, ◌||◌, List, [], ◌∷◌, ◌++◌, Option, none,
  some, ◌==◌, ltb, leb, if◌then◌else◌, bit_or, bit_and, u16, u32, ◌>>>◌, length, take, drop,
  replicate,
}
use sys_grid.Net.{
  Bytes, wr16, wr32, checksum16, mac_to_bytes, mac_broadcast, ether_type_arp, ether_type_ipv4,
  ip4_min_header, flag_more_fragments, ip_proto_udp, ip_proto_icmp, udp4_header, echo_request,
  op_request,
}
use sys_grid.Vnet.{VNet, Frame, Index, max_frame, max_datagram}
use sys_grid.Vnet.Stats.{
  bump, count_tx_frames, count_tx_arp, count_tx_udp, count_tx_icmp, drop_too_big, emit,
}
use sys_grid.Vnet.Address.{lookup_mac}
use sys_grid.Vnet.Sockets.{is_open, udp_bind}

-- The 20 bytes of the header with the checksum field `csum`.
unfoldable pub ip_header : ℕ → ℕ → ℕ → ℕ → ℕ → ℕ → Bytes → Bytes
ip_header total id flags proto src_ip dst_ip csum =
    0x45 ∷ 0 ∷ wr16 total
    ++ wr16 id
    ++ wr16 flags
    ++ 64 ∷ proto ∷ csum
    ++ wr32 src_ip
    ++ wr32 dst_ip

abbrev pub frag_flags : Bool → ℕ → ℕ
frag_flags more blocks = u16 (bit_or (if more then flag_more_fragments else 0) blocks)

-- The packet that `emitIpFragment` builds: the checksum is taken over the header with a zero field.
unfoldable pub ip_packet : ℕ → ℕ → ℕ → ℕ → ℕ → Bool → Bytes → Bytes
ip_packet src_ip dst_ip proto id blocks more payload =
    let head =
      ip_header (u16 (ip4_min_header + length payload)) id (frag_flags more blocks) proto src_ip
        dst_ip in
    head (wr16 (checksum16 (head (wr16 0)) 0)) ++ payload

unfoldable pub emit_ip_fragment : VNet → ℕ → ℕ → ℕ → ℕ → ℕ → Bool → Bytes → VNet
emit_ip_fragment v dst_mac dst_ip proto id blocks more payload =
    if not v.has_emit
    then v
    else if ltb max_frame (ip4_min_header + length payload)
    then drop_too_big v
    else count_tx_frames (
        emit
          (record {
            dst_mac = dst_mac;
            ether_type = ether_type_ipv4;
            payload = ip_packet v.ip dst_ip proto id blocks more payload;
          })
          v)

unfoldable pub arp_packet : ℕ → ℕ → ℕ → Bytes → ℕ → Bytes
arp_packet op sender_mac sender_ip target_mac target_ip =
    wr16 1
    ++ wr16 ether_type_ipv4
    ++ 6 ∷ 4 ∷ wr16 op
    ++ mac_to_bytes sender_mac
    ++ wr32 sender_ip
    ++ target_mac
    ++ wr32 target_ip

unfoldable pub send_arp_request : VNet → ℕ → VNet
send_arp_request v target_ip =
    if not v.has_emit
    then v
    else count_tx_arp (
        count_tx_frames (
          emit
            (record {
              dst_mac = mac_broadcast;
              ether_type = ether_type_arp;
              payload = arp_packet op_request v.mac v.ip (replicate 6 0) target_ip;
            })
            v))

-- `while (off < len)`: `payload` is what lies from `off` on. A round takes `chunk` bytes or the
-- rest, so the length of the payload is fuel enough.
unfoldable pub send_fragments : ℕ → VNet → ℕ → ℕ → ℕ → ℕ → ℕ → ℕ → Bytes → VNet
send_fragments zero v dst_mac dst_ip proto id chunk off payload = v
send_fragments (suc fuel) v dst_mac dst_ip proto id chunk off payload =
    let left = length payload in
    let step = if ltb chunk left then chunk else left in
    let rest =
      send_fragments fuel
        (emit_ip_fragment v dst_mac dst_ip proto id (u16 (off / 8)) (ltb step left)
          (take step payload))
        dst_mac dst_ip proto id chunk (off + step) (drop step payload) in
    if left == 0 then v else rest

unfoldable pub send_ipv4 : VNet → ℕ → ℕ → Bytes → VNet
send_ipv4 v dst_ip proto payload =
    let dst_mac = lookup_mac v dst_ip in
    let max_payload = v.mtu - ip4_min_header in
    let id = v.ip_id in
    let v' = record v { ip_id = u16 (v.ip_id + 1) } in
    if dst_mac == 0
    then send_arp_request v dst_ip
    else if leb (length payload) max_payload
    then emit_ip_fragment v' dst_mac dst_ip proto id 0 false payload
    else send_fragments (length payload) v' dst_mac dst_ip proto id (max_payload / 8 * 8) 0 payload

-- The pseudo-header that a UDP checksum starts from.
abbrev pub pseudo_sum : ℕ → ℕ → ℕ → ℕ
pseudo_sum src_ip dst_ip udp_len = u32 (
    src_ip >>> 16
    + bit_and src_ip 0xffff
    + dst_ip >>> 16
    + bit_and dst_ip 0xffff
    + ip_proto_udp
    + udp_len)

-- The datagram of `udpSendTo`; a checksum of 0 is sent as all ones.
unfoldable pub udp_packet : ℕ → ℕ → ℕ → ℕ → Bytes → Bytes
udp_packet src_ip dst_ip src_port dst_port content =
    let udp_len = udp4_header + length content in
    let head =
      λ (csum : ℕ). wr16 src_port ++ wr16 dst_port ++ wr16 (u16 udp_len) ++ wr16 csum ++ content in
    let csum = checksum16 (head 0) (pseudo_sum src_ip dst_ip udp_len) in
    head (if csum == 0 then 0xffff else csum)

-- The part of `udpSendTo` behind its tests. `true` stands for the return value `len`.
unfoldable pub send_datagram : VNet → ℕ → ℕ → ℕ → Bytes → VNet × Bool
send_datagram v i dst_ip dst_port content = (
  count_tx_udp (
      send_ipv4 v dst_ip ip_proto_udp
        (udp_packet v.ip dst_ip (v.socks i).local_port dst_port content)),
  true,
)

-- `bind_first` is `s.localPort == 0 && udpBind(vfd, 0, 0) != 0`. The buffer is not null.
unfoldable pub udp_send_to : VNet → Index → ℕ → ℕ → Bytes → VNet × Bool
udp_send_to v none dst_ip dst_port content = (v, false)
udp_send_to v (some i) dst_ip dst_port content =
    let (bound, done) = udp_bind v (some i) 0 0 in
    if not (is_open v i) || not v.configured
    then (v, false)
    else if ltb max_datagram (length content)
    then (drop_too_big v, false)
    else if (v.socks i).local_port == 0
    then (if done then send_datagram bound i dst_ip dst_port content else (bound, false))
    else send_datagram v i dst_ip dst_port content

-- An ICMP message with its checksum field `csum`, and sealed with its checksum.
abbrev pub icmp_message : ℕ → ℕ → ℕ → Bytes → Bytes
icmp_message type code csum rest = type ∷ code ∷ wr16 csum ++ rest

abbrev pub icmp_sealed : ℕ → ℕ → Bytes → Bytes
icmp_sealed type code rest =
    icmp_message type code (checksum16 (icmp_message type code 0 rest) 0) rest

unfoldable pub send_echo_request : VNet → ℕ → VNet × Bool
send_echo_request v dst_ip =
    let rest = wr16 0x5a54 ++ wr16 v.echo_seq ++ replicate 8 0x5a in
    if not v.configured || dst_ip == 0 then (v, false) else (
      count_tx_icmp (
          send_ipv4 (record v { echo_seq = u16 (v.echo_seq + 1) }) dst_ip ip_proto_icmp
            (icmp_sealed echo_request 0 rest)),
      true,
    )
