-- ===== src/Vnet/Run.antt =====
-- Histories of the interface: any sequence of its calls after a reset.
use sys_grid.Base.{
  ℕ, ◌+◌, refl, arith, Bool, true, false, not, ◌||◌, ◌++◌, replicate, u16, List, [], ◌∷◌, Option,
  none, some, Bool-cases, Option-cases, inl, inr, ltb, if◌then◌else◌, length, ◌==◌,
}
use sys_grid.Net.{Bytes, wr16}
use sys_grid.Vnet.{VNet, Index, max_datagram}
use sys_grid.Vnet.Address.{reset, configure}
use sys_grid.Vnet.Sockets.{
  dequeue, udp_open, udp_bind, udp_set_broadcast, udp_recv_from, udp_close, is_open,
}
use sys_grid.Vnet.Stats.{drop_too_big, count_tx_icmp}
use sys_grid.Vnet.Pool.{free_pkt}
use sys_grid.Vnet.Transmit.{
  send_ipv4, icmp_sealed, udp_packet, udp_send_to, send_echo_request, send_datagram,
}
use sys_grid.Vnet.Transmit.Table.{send_ipv4-SameTable}
use sys_grid.Vnet.Transmit.Setup.{send_ipv4-SameSetup}
use sys_grid.Vnet.Receive.{on_frame}
use sys_grid.Vnet.Receive.Ready.{IsReady, IsReady-same, IsReady-Implements, on_frame-IsReady}
use sys_grid.Vnet.Sockets.Ephemeral.{find_ephemeral_next}
use sys_grid.Vnet.Sockets.Reset.{reset-Implements}
use sys_grid.Vnet.Sockets.Table.{
  udp_open-Implements, udp_bind-Implements, udp_set_broadcast-Implements,
}
use sys_grid.Vnet.Sockets.Take.{udp_recv_from-Implements}
use sys_grid.Vnet.Sockets.Free.{udp_close-Implements, udp_close-SameSetup}
use sys_grid.Vnet.Sockets.Mailbox.{Implements-SameTable}

-- The public operations of the class, with their arguments.
pub data Call : Type 0 where
  resets : Call
  configures : (mac ip netmask mtu : ℕ) → Call
  receives : (src_mac dst_mac ether_type : ℕ) (payload : Option Bytes) → Call
  opens : Call
  binds : Index → (ip port : ℕ) → Call
  sets_broadcast : Index → Bool → Call
  sends : Index → (dst_ip dst_port : ℕ) (content : Bytes) → Call
  reads : Index → (limit : ℕ) → Bool → Call
  closes : Index → Call
  pings : (dst_ip : ℕ) → Call

pub step : VNet → Call → VNet
step v resets = reset v
step v (configures mac ip netmask mtu) = configure v mac ip netmask mtu
step v (receives src_mac dst_mac ether_type payload) = on_frame v src_mac dst_mac ether_type payload
step v opens = (udp_open v).0
step v (binds vfd ip port) = (udp_bind v vfd ip port).0
step v (sets_broadcast vfd on) = udp_set_broadcast v vfd on
step v (sends vfd dst_ip dst_port content) = (udp_send_to v vfd dst_ip dst_port content).0
step v (reads vfd limit peek) = (udp_recv_from v vfd limit peek).0
step v (closes vfd) = udp_close v vfd
step v (pings dst_ip) = (send_echo_request v dst_ip).0

pub run : VNet → List Call → VNet
run v [] = v
run v (c ∷ cs) = run (step v c) cs

reset-IsReady : (v : VNet) → IsReady (reset v)
reset-IsReady v = record {
  boxes = _;
  implements = reset-Implements v;
  port_low = unfold reset in omega arith;
  port_high = unfold reset in omega arith;
  mtu_low = unfold reset in omega arith;
  mtu_high = unfold reset in omega arith;
}

configure-IsReady :
    (v : VNet) (mac ip netmask mtu : ℕ) → IsReady v → IsReady (configure v mac ip netmask mtu)
unfolding configure
configure-IsReady v mac ip netmask mtu r = record {
  boxes = r.boxes;
  implements = Implements-SameTable v _ r.boxes (refl, refl, refl) r.implements;
  port_low = r.port_low;
  port_high = r.port_high;
  mtu_low = ground arith;
  mtu_high = ground arith;
}

udp_open-IsReady : (v : VNet) → IsReady v → IsReady (udp_open v).0
udp_open-IsReady v r = elim (Option-cases (udp_open v).1) [
  | inl full ↦ IsReady-same v _ (unfold udp_open in ground arith) r
  | inr (i, opened) ↦
      let fact = udp_open-Implements v r.boxes i opened r.implements in
      IsReady-Implements v _ _ (fact.4) (unfold udp_open in ground arith) r
]

udp_bind-IsReady :
    (v : VNet) (vfd : Index) (ip port : ℕ) → IsReady v → IsReady (udp_bind v vfd ip port).0
udp_bind-IsReady v none ip port r = unfold udp_bind in r
udp_bind-IsReady v (some i) ip port r =
    let next = find_ephemeral_next v.socks 4096 v.next_ephemeral (r.port_low, r.port_high) in
    record {
      boxes = r.boxes;
      implements = udp_bind-Implements v r.boxes i ip port r.implements;
      port_low = unfold udp_bind in ground arith;
      port_high = unfold udp_bind in ground arith;
      mtu_low = unfold udp_bind in ground arith;
      mtu_high = unfold udp_bind in ground arith;
    }

udp_set_broadcast-IsReady :
    (v : VNet) (vfd : Index) (on : Bool) → IsReady v → IsReady (udp_set_broadcast v vfd on)
udp_set_broadcast-IsReady v none on r = unfold udp_set_broadcast in r
udp_set_broadcast-IsReady v (some i) on r =
    IsReady-Implements v _ r.boxes (udp_set_broadcast-Implements v r.boxes i on r.implements)
      (unfold udp_set_broadcast in ground arith) r

udp_recv_from-IsReady :
    (v : VNet) (vfd : Index) (limit : ℕ) (peek : Bool)
    → IsReady v
    → IsReady (udp_recv_from v vfd limit peek).0
udp_recv_from-IsReady v none limit peek r = unfold udp_recv_from in r
udp_recv_from-IsReady v (some i) limit peek r = elim (Bool-cases (is_open v i)) [
  | inl o ↦
      let fact = udp_recv_from-Implements v r.boxes i limit peek o r.implements in
      IsReady-Implements v _ _ (fact.1) (unfold udp_recv_from dequeue free_pkt in ground arith) r
  | inr c ↦ IsReady-same v _ (unfold udp_recv_from in ground arith) r
]

udp_close-IsReady : (v : VNet) (vfd : Index) → IsReady v → IsReady (udp_close v vfd)
udp_close-IsReady v none r = unfold udp_close in r
udp_close-IsReady v (some i) r = elim (Bool-cases (is_open v i)) [
  | inl o ↦
      IsReady-Implements v _ _ (udp_close-Implements v r.boxes i o r.implements)
        (udp_close-SameSetup v i) r
  | inr c ↦ IsReady-same v _ (unfold udp_close in ground arith) r
]

send_datagram-IsReady :
    (v : VNet) (i dst_ip dst_port : ℕ) (content : Bytes)
    → IsReady v
    → IsReady (send_datagram v i dst_ip dst_port content).0
unfolding send_datagram
send_datagram-IsReady v i dst_ip dst_port content r =
    let packet = udp_packet v.ip dst_ip (v.socks i).local_port dst_port content in
    IsReady-same v _
      (
        ground (arith, send_ipv4-SameTable v dst_ip 17 packet),
        ground (arith, send_ipv4-SameSetup v dst_ip 17 packet),
      )
      r

either : (c : Bool) (a b : VNet × Bool) → IsReady a.0 → IsReady b.0 → IsReady (if c then a else b).0
either true a b x y = x
either false a b x y = y

udp_send_to-IsReady :
    (v : VNet) (vfd : Index) (dst_ip dst_port : ℕ) (content : Bytes)
    → IsReady v
    → IsReady (udp_send_to v vfd dst_ip dst_port content).0
udp_send_to-IsReady v none dst_ip dst_port content r = unfold udp_send_to in r
udp_send_to-IsReady v (some i) dst_ip dst_port content r =
    let bind = udp_bind v (some i) 0 0 in
    let bound = udp_bind-IsReady v (some i) 0 0 r in
    unfold udp_send_to in
    either (not (is_open v i) || not v.configured) (v, false) _ r
      (either (ltb max_datagram (length content)) (drop_too_big v, false) _
        (IsReady-same v (drop_too_big v) (ground arith) r)
        (either ((v.socks i).local_port == 0) _ _
          (either bind.1 (send_datagram bind.0 i dst_ip dst_port content) (bind.0, false)
            (send_datagram-IsReady bind.0 i dst_ip dst_port content bound) bound)
          (send_datagram-IsReady v i dst_ip dst_port content r)))

send_echo_request-IsReady :
    (v : VNet) (dst_ip : ℕ) → IsReady v → IsReady (send_echo_request v dst_ip).0
unfolding send_echo_request
send_echo_request-IsReady v dst_ip r =
    let v' = record v { echo_seq = u16 (v.echo_seq + 1) } in
    let message = icmp_sealed 8 0 (wr16 0x5a54 ++ wr16 v.echo_seq ++ replicate 8 0x5a) in
    let ready = IsReady-same v v' (ground arith) r in
    let sent =
      IsReady-same v' (send_ipv4 v' dst_ip 1 message)
        (send_ipv4-SameTable v' dst_ip 1 message, send_ipv4-SameSetup v' dst_ip 1 message) ready in
    either (not v.configured || dst_ip == 0) (v, false) _ r
      (IsReady-same (send_ipv4 v' dst_ip 1 message) (count_tx_icmp (send_ipv4 v' dst_ip 1 message))
        (ground arith) sent)

step-IsReady : (v : VNet) (c : Call) → IsReady v → IsReady (step v c)
unfolding step
step-IsReady v resets r = reset-IsReady v
step-IsReady v (configures mac ip netmask mtu) r = configure-IsReady v mac ip netmask mtu r
step-IsReady v (receives src_mac dst_mac ether_type payload) r =
    on_frame-IsReady v src_mac dst_mac ether_type payload r
step-IsReady v opens r = udp_open-IsReady v r
step-IsReady v (binds vfd ip port) r = udp_bind-IsReady v vfd ip port r
step-IsReady v (sets_broadcast vfd on) r = udp_set_broadcast-IsReady v vfd on r
step-IsReady v (sends vfd dst_ip dst_port content) r =
    udp_send_to-IsReady v vfd dst_ip dst_port content r
step-IsReady v (reads vfd limit peek) r = udp_recv_from-IsReady v vfd limit peek r
step-IsReady v (closes vfd) r = udp_close-IsReady v vfd r
step-IsReady v (pings dst_ip) r = send_echo_request-IsReady v dst_ip r

run-IsReady : (v : VNet) (cs : List Call) → IsReady v → IsReady (run v cs)
unfolding run
run-IsReady v [] r = r
run-IsReady v (c ∷ cs) r = run-IsReady (step v c) cs (step-IsReady v c r)

-- After a reset, every history of calls keeps the invariant: each of the 32 packets is in the free
-- list or in one queue, once; every index that is followed lies in the pool; the counts and tails
-- of the queues are right; the next ephemeral port and the MTU are in range.
pub run-reset-IsReady : (v : VNet) (cs : List Call) → IsReady (run (reset v) cs)
run-reset-IsReady v cs = run-IsReady (reset v) cs (reset-IsReady v)
