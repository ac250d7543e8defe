-- ===== src/Vnet/Address.antt =====
-- Configuration, the address tests and the ARP cache.
pub mod Cache
use sys_grid.Base.{
  ℕ, zero, suc, ◌+◌, ◌-◌, Bool, true, false, not, ◌&&◌, ◌||◌, Option, none, some, [], ◌==◌, ◌!=◌,
  ltb, leb, if◌then◌else◌, bit_or, not32, u32, update,
}
use sys_grid.Net.{mac_broadcast, ip_broadcast}
use sys_grid.Vnet.{
  VNet, Socket, Pkt, ArpEntry, Reasm, Counters, Index, arp_entries, pool_packets, max_sockets,
  max_frame, reasm_slots,
}

-- `Socket{}` with its queue set to -1.
abbrev pub empty_socket : Socket
empty_socket = record {
  used = false;
  broadcast = false;
  local_ip = 0;
  local_port = 0;
  q_head = none;
  q_tail = none;
  q_count = 0;
}

abbrev pub no_entry : ArpEntry
no_entry = record { ip = 0; mac = 0; last_used = 0 }

abbrev pub no_counts : Counters
no_counts = record {
  rx_frames = 0;
  rx_ip = 0;
  rx_udp = 0;
  rx_arp = 0;
  rx_icmp = 0;
  tx_frames = 0;
  tx_udp = 0;
  tx_arp = 0;
  tx_icmp = 0;
  drop_not_for_us = 0;
  drop_bad_checksum = 0;
  drop_no_socket = 0;
  drop_no_buffer = 0;
  drop_too_big = 0;
  drop_malformed = 0;
  drop_reasm = 0;
  last_no_socket_src_ip = 0;
  last_no_socket_src_port = 0;
  last_no_socket_dst_port = 0;
  last_no_socket_len = 0;
}

abbrev pub link_free : (ℕ → Pkt) → ℕ → Pkt
link_free pool i =
    let pk = pool i in record pk { next = if ltb (i + 1) pool_packets then some (i + 1) else none }

-- Every array is reset over its whole length; the emit callback and `m_echoSeq` stay.
unfoldable pub reset : VNet → VNet
reset v = record v {
  configured = false;
  mac = 0;
  ip = 0;
  netmask = 0;
  mtu = 1500;
  ip_id = 1;
  next_ephemeral = 49152;
  tick = 0;
  socks = λ i. if ltb i max_sockets then empty_socket else v.socks i;
  pool = λ i. if ltb i pool_packets then link_free v.pool i else v.pool i;
  free_list = some 0;
  arp = λ i. if ltb i arp_entries then no_entry else v.arp i;
  reasm = λ i. let r = v.reasm i in if ltb i reasm_slots then record r { used = false } else r;
  stats = no_counts;
}

unfoldable pub configure : VNet → ℕ → ℕ → ℕ → ℕ → VNet
configure v mac ip netmask mtu = record v {
  mac = mac;
  ip = ip;
  netmask = netmask;
  mtu = if leb 576 mtu && leb mtu (max_frame - 14) then mtu else 1500;
  configured = true;
}

-- `broadcastIp`, and the same value in `isBroadcast`.
abbrev pub broadcast_ip : VNet → ℕ
broadcast_ip v = bit_or v.ip (not32 v.netmask)

unfoldable pub is_broadcast : VNet → ℕ → Bool
is_broadcast v dst_ip = dst_ip == ip_broadcast || (v.netmask != 0 && dst_ip == broadcast_ip v)

unfoldable pub is_for_us : VNet → ℕ → Bool
is_for_us v dst_ip = dst_ip == v.ip || is_broadcast v dst_ip

-- The loop over the table, with `left` entries to go; 0 is "no entry".
unfoldable pub find_mac : (ℕ → ArpEntry) → ℕ → ℕ → ℕ → ℕ
find_mac arp ip zero i = 0
find_mac arp ip (suc left) i =
    let rest = find_mac arp ip left (suc i) in
    if (arp i).mac != 0 && (arp i).ip == ip then (arp i).mac else rest

unfoldable pub lookup_mac : VNet → ℕ → ℕ
lookup_mac v ip = if is_broadcast v ip then mac_broadcast else find_mac v.arp ip arp_entries 0

-- The entry that the loop of `learnMac` settles on: the one for `ip`, or the first empty one, or
-- the one that was used longest ago. The flag says that it is the entry for `ip`.
unfoldable pub pick_entry : (ℕ → ArpEntry) → ℕ → ℕ → ℕ → ℕ → ℕ × Bool
pick_entry arp ip zero i oldest = (oldest, false)
pick_entry arp ip (suc left) i oldest =
    let rest =
      pick_entry arp ip left (suc i)
        (if ltb (arp i).last_used (arp oldest).last_used then i else oldest) in
    if (arp i).mac != 0 && (arp i).ip == ip
    then (i, true)
    else if (arp i).mac == 0
    then (i, false)
    else rest

unfoldable pub learn_mac : VNet → ℕ → ℕ → VNet
learn_mac v ip mac =
    if ip == 0 || mac == 0 || mac == mac_broadcast
    then v
    else let (slot, known) = pick_entry v.arp ip arp_entries 0 0 in
      let tick = u32 (v.tick + 1) in
      let kept = v.arp slot in
      record v {
        arp = update v.arp slot (
            if known
            then record kept { mac = mac; last_used = tick }
            else record { ip = ip; mac = mac; last_used = tick });
        tick = tick;
      }
