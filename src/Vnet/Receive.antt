-- ===== src/Vnet/Receive.antt =====
-- The inbound path: frames from ZeroTier, and IPv4 with reassembly. A payload is the list of its
-- `len` bytes.
pub mod Demux
pub mod Slots
pub mod Ready
pub mod Accept
use sys_grid.Base.{
  ℕ, zero, suc, ◌+◌, ◌-◌, ◌*◌, Bool, true, false, not, ◌&&◌, ◌||◌, List, [], ◌∷◌, ◌++◌, Option,
  none, some, ◌==◌, ◌!=◌, ltb, leb, if◌then◌else◌, bit_and, u16, u32, ◌>>>◌, length, take, drop,
  update,
}
use sys_grid.Net.{
  Bytes, byte_at, rd16, rd32, checksum16, mac_to_bytes, mac_from_bytes, mac_broadcast,
  ether_type_arp, ether_type_ipv4, ip4_min_header, flag_more_fragments, frag_offset_mask,
  ip_proto_udp, ip_proto_icmp, udp4_header, echo_request, echo_reply, arp4_size, op_request,
  op_reply,
}
use sys_grid.Vnet.{
  VNet, Frame, Reasm, Socket, Index, max_sockets, max_datagram, reasm_slots, reasm_max,
}
use sys_grid.Vnet.Stats.{
  bump, count_with, count_rx_frames, count_rx_arp, count_rx_ip, count_rx_udp, count_rx_icmp,
  count_tx_frames, count_tx_arp, count_tx_icmp, drop_not_for_us, drop_bad_checksum, drop_too_big,
  drop_malformed, drop_reasm, emit,
}
use sys_grid.Vnet.Address.{is_broadcast, is_for_us, learn_mac}
use sys_grid.Vnet.Sockets.{push_to_socket}
use sys_grid.Vnet.Transmit.{arp_packet, send_ipv4, icmp_sealed, pseudo_sum}
use sys_grid.Vnet.Protocols.{on_arp, deliver_ipv4}

-- ---- reassembly ----

-- The fields of a fragment's header that identify its packet, and its place in it.
pub record Fragment : Type 0 where
  pub src_ip : ℕ
  pub dst_ip : ℕ
  pub proto : ℕ
  pub id : ℕ
  pub offset : ℕ
  pub more : Bool
  pub payload : Bytes

abbrev pub same_packet : Reasm → Fragment → Bool
same_packet r f =
    r.used && r.id == f.id && r.src_ip == f.src_ip && r.dst_ip == f.dst_ip && r.proto == f.proto

-- The loop over the slots: the slot of the packet, if there is one, and the victim so far.
unfoldable pub find_slot : (ℕ → Reasm) → Fragment → ℕ → ℕ → ℕ → Index × ℕ
find_slot reasm f zero i victim = (none, victim)
find_slot reasm f (suc left) i victim =
    let next =
      if not (reasm i).used
      then i
      else if ltb (reasm i).age (reasm victim).age
      then i
      else victim in
    let rest = find_slot reasm f left (suc i) next in
    if same_packet (reasm i) f then (some i, victim) else rest

unfoldable pub fresh_slot : Reasm → Fragment → Reasm
fresh_slot r f = record r {
  used = true;
  src_ip = f.src_ip;
  dst_ip = f.dst_ip;
  id = f.id;
  proto = f.proto;
  received = 0;
  full_size = 0;
}

-- `memcpy(data + offset, payload, plen)`, and the first `n` bytes of an array from `i` on.
abbrev pub write_bytes : (ℕ → ℕ) → ℕ → Bytes → ℕ → ℕ
write_bytes buffer offset payload i =
    if leb offset i && ltb i (offset + length payload)
    then byte_at payload (i - offset)
    else buffer i

abbrev pub read_bytes : (ℕ → ℕ) → ℕ → ℕ → Bytes
read_bytes buffer i zero = []
read_bytes buffer i (suc n) = buffer i ∷ read_bytes buffer (suc i) n

abbrev pub add_fragment : Reasm → Fragment → Reasm
add_fragment r f = record r {
  buffer = write_bytes r.buffer f.offset f.payload;
  received = u16 (r.received + length f.payload);
  full_size = if f.more then r.full_size else u16 (f.offset + length f.payload);
}

abbrev pub set_slot : VNet → ℕ → Reasm → VNet
set_slot v i r = record v { reasm = update v.reasm i r }

-- The slot, brought up to date, takes the fragment.
unfoldable pub fill_slot : VNet → ℕ → Reasm → Fragment → VNet
fill_slot v slot r f =
    let filled = add_fragment r f in
    let done = record filled { used = false } in
    if ltb reasm_max (f.offset + length f.payload)
    then drop_reasm (set_slot v slot (record r { used = false }))
    else if filled.full_size != 0 && leb filled.full_size filled.received
    then deliver_ipv4 (set_slot v slot done) f.src_ip f.dst_ip f.proto
        (read_bytes filled.buffer 0 filled.full_size)
    else set_slot v slot filled

unfoldable pub reassemble : VNet → Fragment → VNet
unfolding fresh_slot
reassemble v f =
    let tick = u32 (v.tick + 1) in
    let (known, victim) = find_slot v.reasm f reasm_slots 0 0 in
    let v' = record v { tick = tick } in
    elim known [
      | some slot ↦ let r = v.reasm slot in fill_slot v' slot (record r { age = tick }) f
      | none ↦
          let r = fresh_slot (v.reasm victim) f in fill_slot v' victim (record r { age = tick }) f
    ]

-- ---- IPv4 ----

abbrev pub header_length : Bytes → ℕ
header_length p = bit_and (byte_at p 0) 0x0f * 4

-- `total`, after the tolerance for a header that claims more than there is.
abbrev pub total_length : Bytes → ℕ
total_length p = if ltb (length p) (rd16 p 2) then length p else rd16 p 2

abbrev pub fragment_of : Bytes → Fragment
fragment_of p = record {
  src_ip = rd32 p 12;
  dst_ip = rd32 p 16;
  proto = byte_at p 9;
  id = rd16 p 4;
  offset = u16 (bit_and (rd16 p 6) frag_offset_mask * 8);
  more = bit_and (rd16 p 6) flag_more_fragments != 0;
  payload = take (total_length p - header_length p) (drop (header_length p) p);
}

unfoldable pub accept_packet : VNet → Fragment → VNet
accept_packet v f =
    if f.offset == 0 && not f.more
    then deliver_ipv4 v f.src_ip f.dst_ip f.proto f.payload
    else reassemble v f

-- `onIpv4` behind `m_stats.rxIp++`.
unfoldable pub ipv4_body : VNet → ℕ → Bytes → VNet
ipv4_body v src_mac p =
    let ihl = header_length p in
    let f = fragment_of p in
    if ltb (length p) ip4_min_header
    then drop_malformed v
    else if byte_at p 0 >>> 4 != 4 || ltb ihl ip4_min_header || ltb (length p) ihl
    then drop_malformed v
    else if checksum16 (take ihl p) 0 != 0
    then drop_bad_checksum v
    else if ltb (rd16 p 2) ihl
    then drop_malformed v
    else if not (is_for_us v f.dst_ip)
    then drop_not_for_us v
    else accept_packet (learn_mac v f.src_ip src_mac) f

unfoldable pub on_ipv4 : VNet → ℕ → Bytes → VNet
on_ipv4 v src_mac p = ipv4_body (count_rx_ip v) src_mac p

-- ---- frames ----

-- A null payload is `none`; a payload of no bytes is ignored as well.
unfoldable pub on_frame : VNet → ℕ → ℕ → ℕ → Option Bytes → VNet
on_frame v src_mac dst_mac ether_type none = count_rx_frames v
on_frame v src_mac dst_mac ether_type (some p) =
    let v' = count_rx_frames v in
    if not v.configured || length p == 0
    then v'
    else if dst_mac != v.mac && dst_mac != mac_broadcast
    then drop_not_for_us v'
    else if ether_type == ether_type_arp
    then on_arp v' src_mac p
    else if ether_type == ether_type_ipv4
    then on_ipv4 v' src_mac p
    else v'
