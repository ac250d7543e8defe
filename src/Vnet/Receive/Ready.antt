-- ===== src/Vnet/Receive/Ready.antt =====
-- The invariant of the interface, and that a frame from the network keeps it.
use sys_grid.Base.{
  ℕ, zero, suc, ◌+◌, ◌<◌, ◌≤◌, arith, Bool, true, false, not, ◌&&◌, ◌||◌, ◌>>>◌, Option, none, some,
  Bool-cases, Option-cases, inl, inr, if◌then◌else◌, ◌==◌, ◌!=◌, ltb, leb, u32, length, take, drop,
}
use sys_grid.Net.{
  Bytes, mac_from_bytes, rd16, rd32, byte_at, checksum16, mac_broadcast, ether_type_arp,
  ether_type_ipv4,
}
use sys_grid.Vnet.{VNet, Reasm, max_frame, max_sockets, reasm_slots, reasm_max}
use sys_grid.Vnet.Stats.{
  count_rx_frames, count_rx_arp, count_rx_ip, count_rx_icmp, count_rx_udp, drop_malformed,
  drop_bad_checksum, drop_not_for_us,
}
use sys_grid.Vnet.Address.{learn_mac, is_for_us}
use sys_grid.Vnet.Pool.{alloc_pkt}
use sys_grid.Vnet.Sockets.{push_to_socket, enqueue, fill_pkt}
use sys_grid.Vnet.Sockets.Mailbox.{
  Mailboxes, Implements, Implements-SameTable, SameTable, SameSetup,
}
use sys_grid.Vnet.Transmit.{icmp_sealed}
use sys_grid.Vnet.Transmit.Table.{send_ipv4-SameTable, learn_mac-SameTable}
use sys_grid.Vnet.Transmit.Setup.{send_ipv4-SameSetup, learn_mac-SameSetup}
use sys_grid.Vnet.Receive.Demux.{on_udp-Implements}
use sys_grid.Vnet.Receive.{
  Fragment, header_length, on_frame, reassemble, fill_slot, find_slot, accept_packet, on_ipv4,
  ipv4_body, fragment_of, add_fragment,
}
use sys_grid.Vnet.Protocols.{
  listens, on_arp, arp_body, arp_reply, on_icmp, icmp_body, deliver_ipv4, on_udp, udp_body,
  udp_length, deliver_udp, drop_no_socket,
}

-- The invariant between two calls: the packets are accounted for, the next ephemeral port lies in
-- its range, and a fragment of the MTU fits a frame.
pub record IsReady (v : VNet) : Type 0 where
  pub boxes : Mailboxes
  pub implements : Implements v boxes
  pub port_low : 49152 ≤ v.next_ephemeral
  pub port_high : v.next_ephemeral < 65536
  pub mtu_low : 576 ≤ v.mtu
  pub mtu_high : v.mtu + 14 ≤ max_frame

abbrev pub SameAll : VNet → VNet → Type 0
SameAll v w = SameTable v w × SameSetup v w

-- A step that leaves the table and the configuration alone keeps the invariant.
pub IsReady-Implements :
    (v w : VNet) (b : Mailboxes) → Implements w b → SameSetup v w → IsReady v → IsReady w
IsReady-Implements v w b i s r = record {
  boxes = b;
  implements = i;
  port_low = rw (s.0) r.port_low;
  port_high = rw (s.0) r.port_high;
  mtu_low = rw (s.1) r.mtu_low;
  mtu_high = rw (s.1) r.mtu_high;
}

pub IsReady-same : (v w : VNet) → SameAll v w → IsReady v → IsReady w
IsReady-same v w s r =
    IsReady-Implements v w r.boxes (Implements-SameTable v w r.boxes s.0 r.implements) s.1 r

SameAll-refl : (v : VNet) → SameAll v v
SameAll-refl v = ground arith

pub learn_mac-SameAll : (v : VNet) (ip mac : ℕ) → SameAll v (learn_mac v ip mac)
learn_mac-SameAll v ip mac = (learn_mac-SameTable v ip mac, learn_mac-SameSetup v ip mac)

on_arp-SameAll : (v : VNet) (src_mac : ℕ) (p : Bytes) → SameAll v (on_arp v src_mac p)
unfolding on_arp arp_body arp_reply
on_arp-SameAll v src_mac p = ground (
  arith,
  learn_mac-SameAll (count_rx_arp v) (rd32 p 14)
      (if mac_from_bytes p 8 == 0 then src_mac else mac_from_bytes p 8),
)

on_icmp-SameAll : (v : VNet) (src_ip : ℕ) (p : Bytes) → SameAll v (on_icmp v src_ip p)
unfolding on_icmp icmp_body
on_icmp-SameAll v src_ip p = ground (
  arith,
  send_ipv4-SameTable (count_rx_icmp v) src_ip 1 (icmp_sealed 0 (byte_at p 1) (drop 4 p)),
  send_ipv4-SameSetup (count_rx_icmp v) src_ip 1 (icmp_sealed 0 (byte_at p 1) (drop 4 p)),
)

push_to_socket-SameSetup :
    (v : VNet) (s src_ip src_port : ℕ) (content : Bytes)
    → SameSetup v (push_to_socket v s src_ip src_port content)
unfolding push_to_socket enqueue fill_pkt alloc_pkt
push_to_socket-SameSetup v s src_ip src_port content = ground arith

deliver_udp-SameSetup :
    (left i : ℕ) (v : VNet) (src_ip src_port dst_ip dst_port : ℕ) (content : Bytes)
    (delivered : Bool)
    → SameSetup v (deliver_udp left i v src_ip src_port dst_ip dst_port content delivered).0
unfolding deliver_udp
deliver_udp-SameSetup zero i v src_ip src_port dst_ip dst_port content delivered = ground arith
deliver_udp-SameSetup (suc left) i v src_ip src_port dst_ip dst_port content delivered = ground (
  arith,
  push_to_socket-SameSetup v i src_ip src_port content,
  deliver_udp-SameSetup left (suc i)
      (if listens v dst_ip dst_port i then push_to_socket v i src_ip src_port content else v) src_ip
      src_port dst_ip dst_port content (if listens v dst_ip dst_port i then true else delivered),
)

on_udp-SameSetup :
    (v : VNet) (src_ip dst_ip : ℕ) (p : Bytes) → SameSetup v (on_udp v src_ip dst_ip p)
unfolding on_udp udp_body drop_no_socket
on_udp-SameSetup v src_ip dst_ip p = ground (
  arith,
  deliver_udp-SameSetup max_sockets 0 (count_rx_udp v) src_ip (rd16 p 0) dst_ip (rd16 p 2)
      (drop 8 (take (udp_length p) p)) false,
)

deliver_ipv4-IsReady :
    (v : VNet) (src_ip dst_ip proto : ℕ) (p : Bytes)
    → IsReady v
    → IsReady (deliver_ipv4 v src_ip dst_ip proto p)
unfolding deliver_ipv4
deliver_ipv4-IsReady v src_ip dst_ip proto p r = elim (Bool-cases (proto == 17)) [
  | inl udp ↦ rw udp (
      IsReady-Implements v _ _ (on_udp-Implements v r.boxes src_ip dst_ip p r.implements)
        (on_udp-SameSetup v src_ip dst_ip p) r)
  | inr other ↦ elim (Bool-cases (proto == 1)) [
    | inl icmp ↦ rw (other, icmp) (IsReady-same v _ (on_icmp-SameAll v src_ip p) r)
    | inr unknown ↦ rw (other, unknown) r
  ]
]

fill_slot-IsReady :
    (v : VNet) (slot : ℕ) (m : Reasm) (f : Fragment) → IsReady v → IsReady (fill_slot v slot m f)
unfolding fill_slot
fill_slot-IsReady v slot m f r =
    let filled = add_fragment m f in
    elim (Bool-cases (ltb reasm_max (f.offset + length f.payload))) [
      | inl long ↦ rw long (IsReady-same v _ (ground arith) r)
      | inr fits ↦
          elim (Bool-cases (filled.full_size != 0 && leb filled.full_size filled.received)) [
            | inl whole ↦
                rw (fits, whole)
                  (deliver_ipv4-IsReady _ f.src_ip f.dst_ip f.proto _
                    (IsReady-same v _ (ground arith) r))
            | inr part ↦ rw (fits, part) (IsReady-same v _ (ground arith) r)
          ]
    ]

reassemble-IsReady : (v : VNet) (f : Fragment) → IsReady v → IsReady (reassemble v f)
unfolding reassemble
reassemble-IsReady v f r =
    let v' = record v { tick = u32 (v.tick + 1) } in
    let ready = IsReady-same v v' (ground arith) r in
    elim (Option-cases (find_slot v.reasm f reasm_slots 0 0).0) [
      | inl new ↦ rw (new, reassemble) (fill_slot-IsReady v' _ _ f ready)
      | inr (slot, known) ↦ rw (known, reassemble) (fill_slot-IsReady v' slot _ f ready)
    ]

pub IsReady-if : (c : Bool) (a b : VNet) → IsReady a → IsReady b → IsReady (if c then a else b)
IsReady-if true a b x y = x
IsReady-if false a b x y = y

accept_packet-IsReady : (v : VNet) (f : Fragment) → IsReady v → IsReady (accept_packet v f)
unfolding accept_packet
accept_packet-IsReady v f r =
    IsReady-if _ _ _ (deliver_ipv4-IsReady v f.src_ip f.dst_ip f.proto f.payload r)
      (reassemble-IsReady v f r)

on_ipv4-IsReady : (v : VNet) (src_mac : ℕ) (p : Bytes) → IsReady v → IsReady (on_ipv4 v src_mac p)
unfolding on_ipv4 ipv4_body
on_ipv4-IsReady v src_mac p r =
    let v' = count_rx_ip v in
    let counted : (w : VNet) → SameAll v w → IsReady w = λ w s. IsReady-same v w s r in
    let malformed = counted (drop_malformed v') (ground arith) in
    let corrupt = counted (drop_bad_checksum v') (ground arith) in
    let foreign = counted (drop_not_for_us v') (ground arith) in
    let learnt =
      IsReady-same v' (learn_mac v' (rd32 p 12) src_mac) (learn_mac-SameAll v' (rd32 p 12) src_mac)
        (counted v' (ground arith)) in
    let ihl = header_length p in
    IsReady-if (ltb (length p) 20) _ _ malformed (
      IsReady-if (byte_at p 0 >>> 4 != 4 || ltb ihl 20 || ltb (length p) ihl) _ _ malformed (
        IsReady-if (checksum16 (take ihl p) 0 != 0) _ _ corrupt (
          IsReady-if (ltb (rd16 p 2) ihl) _ _ malformed (
            IsReady-if (not (is_for_us v' (rd32 p 16))) _ _ foreign
              (accept_packet-IsReady _ (fragment_of p) learnt)))))

-- A frame from the network, whatever it holds, keeps the invariant.
pub on_frame-IsReady :
    (v : VNet) (src_mac dst_mac ether_type : ℕ) (payload : Option Bytes)
    → IsReady v
    → IsReady (on_frame v src_mac dst_mac ether_type payload)
unfolding on_frame
on_frame-IsReady v src_mac dst_mac ether_type none r = IsReady-same v _ (ground arith) r
on_frame-IsReady v src_mac dst_mac ether_type (some p) r =
    let v' = count_rx_frames v in
    let ready : IsReady v' = IsReady-same v v' (ground arith) r in
    let foreign = IsReady-same v (drop_not_for_us v') (ground arith) r in
    IsReady-if (not v.configured || length p == 0) _ _ ready (
      IsReady-if (dst_mac != v.mac && dst_mac != mac_broadcast) _ _ foreign (
        IsReady-if (ether_type == ether_type_arp) _ _
          (IsReady-same v' _ (on_arp-SameAll v' src_mac p) ready)
          (IsReady-if (ether_type == ether_type_ipv4) _ _ (on_ipv4-IsReady v' src_mac p ready)
            ready)))
