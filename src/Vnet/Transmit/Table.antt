-- ===== src/Vnet/Transmit/Table.antt =====
-- Sending, learning and answering leave the pool and the socket table alone.
use sys_grid.Base.{
  ℕ, zero, suc, ◌+◌, ◌-◌, ◌*◌, ◌/◌, refl, arith, Bool, false, u16, ltb, if◌then◌else◌, take, drop,
  length,
}
use sys_grid.Net.{Bytes}
use sys_grid.Vnet.{VNet}
use sys_grid.Vnet.Address.{learn_mac, lookup_mac}
use sys_grid.Vnet.Transmit.{emit_ip_fragment, send_arp_request, send_fragments, send_ipv4}
use sys_grid.Vnet.Sockets.Mailbox.{SameTable}

pub learn_mac-SameTable : (v : VNet) (ip mac : ℕ) → SameTable v (learn_mac v ip mac)
unfolding learn_mac
learn_mac-SameTable v ip mac = ground arith

emit_ip_fragment-SameTable :
    (v : VNet) (dst_mac dst_ip proto id blocks : ℕ) (more : Bool) (payload : Bytes)
    → SameTable v (emit_ip_fragment v dst_mac dst_ip proto id blocks more payload)
unfolding emit_ip_fragment
emit_ip_fragment-SameTable v dst_mac dst_ip proto id blocks more payload = ground arith

send_fragments-SameTable :
    (fuel : ℕ) (v : VNet) (dst_mac dst_ip proto id chunk off : ℕ) (payload : Bytes)
    → SameTable v (send_fragments fuel v dst_mac dst_ip proto id chunk off payload)
unfolding send_fragments
send_fragments-SameTable zero v dst_mac dst_ip proto id chunk off payload = (refl, refl, refl)
send_fragments-SameTable (suc fuel) v dst_mac dst_ip proto id chunk off payload = ground (
  arith,
  emit_ip_fragment-SameTable v dst_mac dst_ip proto id (u16 (off / 8)) (ltb step (length payload))
      (take step payload),
  send_fragments-SameTable fuel
      (emit_ip_fragment v dst_mac dst_ip proto id (u16 (off / 8)) (ltb step (length payload))
        (take step payload))
      dst_mac dst_ip proto id chunk (off + step) (drop step payload),
)
  where
    step : ℕ
    step = if ltb chunk (length payload) then chunk else length payload

send_arp_request-SameTable : (v : VNet) (ip : ℕ) → SameTable v (send_arp_request v ip)
unfolding send_arp_request
send_arp_request-SameTable v ip = ground arith

pub send_ipv4-SameTable :
    (v : VNet) (dst_ip proto : ℕ) (payload : Bytes) → SameTable v (send_ipv4 v dst_ip proto payload)
unfolding send_ipv4
send_ipv4-SameTable v dst_ip proto payload =
    let v' = record v { ip_id = u16 (v.ip_id + 1) } in
    ground (
      arith,
      send_arp_request-SameTable v dst_ip,
      emit_ip_fragment-SameTable v' (lookup_mac v dst_ip) dst_ip proto v.ip_id 0 false payload,
      send_fragments-SameTable (length payload) v' (lookup_mac v dst_ip) dst_ip proto v.ip_id
          ((v.mtu - 20) / 8 * 8) 0 payload,
    )
