-- ===== src/Vnet/Transmit/Setup.antt =====
-- Sending, learning and answering leave the configuration alone.
use sys_grid.Base.{
  ℕ, zero, suc, ◌+◌, ◌-◌, ◌*◌, ◌/◌, refl, arith, Bool, false, u16, ltb, if◌then◌else◌, take, drop,
  length,
}
use sys_grid.Net.{Bytes}
use sys_grid.Vnet.{VNet}
use sys_grid.Vnet.Address.{learn_mac, lookup_mac}
use sys_grid.Vnet.Transmit.{emit_ip_fragment, send_arp_request, send_fragments, send_ipv4}
use sys_grid.Vnet.Sockets.Mailbox.{SameSetup}

pub learn_mac-SameSetup : (v : VNet) (ip mac : ℕ) → SameSetup v (learn_mac v ip mac)
unfolding learn_mac
learn_mac-SameSetup v ip mac = ground arith

emit_ip_fragment-SameSetup :
    (v : VNet) (dst_mac dst_ip proto id blocks : ℕ) (more : Bool) (payload : Bytes)
    → SameSetup v (emit_ip_fragment v dst_mac dst_ip proto id blocks more payload)
unfolding emit_ip_fragment
emit_ip_fragment-SameSetup v dst_mac dst_ip proto id blocks more payload = ground arith

send_fragments-SameSetup :
    (fuel : ℕ) (v : VNet) (dst_mac dst_ip proto id chunk off : ℕ) (payload : Bytes)
    → SameSetup v (send_fragments fuel v dst_mac dst_ip proto id chunk off payload)
unfolding send_fragments
send_fragments-SameSetup zero v dst_mac dst_ip proto id chunk off payload =
    (refl, refl, refl, refl, refl, refl, refl)
send_fragments-SameSetup (suc fuel) v dst_mac dst_ip proto id chunk off payload = ground (
  arith,
  emit_ip_fragment-SameSetup v dst_mac dst_ip proto id (u16 (off / 8)) (ltb step (length payload))
      (take step payload),
  send_fragments-SameSetup fuel
      (emit_ip_fragment v dst_mac dst_ip proto id (u16 (off / 8)) (ltb step (length payload))
        (take step payload))
      dst_mac dst_ip proto id chunk (off + step) (drop step payload),
)
  where
    step : ℕ
    step = if ltb chunk (length payload) then chunk else length payload

send_arp_request-SameSetup : (v : VNet) (ip : ℕ) → SameSetup v (send_arp_request v ip)
unfolding send_arp_request
send_arp_request-SameSetup v ip = ground arith

pub send_ipv4-SameSetup :
    (v : VNet) (dst_ip proto : ℕ) (payload : Bytes) → SameSetup v (send_ipv4 v dst_ip proto payload)
unfolding send_ipv4
send_ipv4-SameSetup v dst_ip proto payload =
    let v' = record v { ip_id = u16 (v.ip_id + 1) } in
    ground (
      arith,
      send_arp_request-SameSetup v dst_ip,
      emit_ip_fragment-SameSetup v' (lookup_mac v dst_ip) dst_ip proto v.ip_id 0 false payload,
      send_fragments-SameSetup (length payload) v' (lookup_mac v dst_ip) dst_ip proto v.ip_id
          ((v.mtu - 20) / 8 * 8) 0 payload,
    )
