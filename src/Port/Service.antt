-- ===== src/Port/Service.antt =====
-- source/zt_port.cpp: class Port as the node thread drives it: the callbacks of the ZeroTier node, the
-- network that is joined, the subscriptions and the probe. The node is outside: its calls are recorded
-- in order, and what they return is an argument. Logs and counters are left out.
pub mod Network
pub mod Subnet
pub mod MappedWire
pub mod Round
use sys_grid.Base.{
  ℕ, zero, suc, ◌+◌, ◌-◌, ◌*◌, ◌^◌, Bool, true, false, not, ◌&&◌, ◌||◌, List, [], ◌∷◌, ◌++◌, Option,
  none, some, ◌==◌, ◌!=◌, ltb, if◌then◌else◌, u16, u32, ◌<<<◌,
}
use sys_grid.Net.{Bytes}
use sys_grid.Vnet.{VNet, Frame}
use sys_grid.Vnet.Address.{reset, configure, broadcast_ip}
use sys_grid.Vnet.Transmit.{send_echo_request}
use sys_grid.Vnet.Receive.{on_frame}
use sys_grid.Config.{Text}
use sys_grid.Config.Saved.{resolve_configured_network_id}
use sys_grid.Port.{Wire}
use sys_grid.Port.Queue.{Queue, cb_emit, drain_outbound, discard}

-- A call of the node's interface.
pub data Call : Type 0 where
  join leave : ℕ → Call
  subscribe : ℕ → ℕ → Call
  send_frame : ℕ → ℕ → Frame → Call
  receive_packet : ℕ → Bytes → Call
  background : ℕ → Call
  clear_addresses : Call
  add_address : ℕ → ℕ → Call
  delete : Call

-- The socket whose port is mapped on the router, and what the node has been told of it. `desired` is
-- the request that ConfigureNatMapper has made.
pub record Mapped : Type 0 where
  pub enabled : Bool
  pub has_fd : Bool
  pub socket_id : ℕ
  pub port : ℕ
  pub retry_at : ℕ
  pub address : ℕ
  pub public_port : ℕ
  pub desired : ℕ

-- The members that the service loop uses. `net_status` is none for -1, and `has_node` is `m_node`.
pub record Service : Type 0 where
  pub wire : Wire
  pub queue : Queue
  pub net : VNet
  pub mapped : Mapped
  pub has_node : Bool
  pub nwid : ℕ
  pub online : Bool
  pub net_status : Option ℕ
  pub last_error : ℕ
  pub need_subscribe : Bool
  pub subscribed : Bool
  pub first_frame_logged : Bool
  pub last_network_poll : ℕ
  pub probe_read : Bool
  pub probe_ip : ℕ
  pub last_probe : ℕ
  pub calls : List Call

abbrev pub calling : Service → Call → Service
calling s c = record s { calls = s.calls ++ c ∷ [] }

abbrev pub unreachable : Service → Service
unreachable s = record s { wire = record s.wire { reachable = false } }

-- The frames that an operation of the interface has emitted go through `cbEmit` in order.
unfoldable pub enqueue_all : Queue → List Frame → Queue
enqueue_all q [] = q
enqueue_all q (f ∷ fs) = enqueue_all (cb_emit q f) fs

abbrev pub with_net : Service → VNet → Service
with_net s v = record s { net = record v { emitted = [] }; queue = enqueue_all s.queue v.emitted }

-- ---- callbacks ----

unfoldable pub cb_virtual_frame : Service → ℕ → ℕ → ℕ → ℕ → Option Bytes → Service
cb_virtual_frame s nwid src_mac dst_mac ether_type content =
    if nwid != s.nwid
    then s
    else with_net s (on_frame s.net src_mac dst_mac (u16 ether_type) content)

-- An address that the controller assigns: its family, its address in host order, and its prefix length.
pub record Assigned : Type 0 where
  pub ipv4 : Bool
  pub ip : ℕ
  pub bits : ℕ

-- `0xFFFFFFFFu << (32 - bits)`, and 0 for no bits.
abbrev pub netmask_of : ℕ → ℕ
netmask_of bits = if bits != 0 then u32 (0xFFFFFFFF <<< (32 - bits)) else 0

-- The loop over the addresses stops at the first one of IPv4.
unfoldable pub take_address : VNet → ℕ → ℕ → List Assigned → VNet
take_address v mac mtu [] = v
take_address v mac mtu (a ∷ rest) =
    let later = take_address v mac mtu rest in
    if not a.ipv4 then later else configure v mac a.ip (netmask_of a.bits) (u16 mtu)

-- DESTROY and DOWN, or a configuration with its status, its MAC, its MTU and its addresses.
pub data Config : Type 0 where
  gone : Config
  update : ℕ → ℕ → ℕ → List Assigned → Config

unfoldable pub cb_network_config : Service → ℕ → Config → Service
cb_network_config s nwid gone =
    let u = unreachable s in record u { net = record (reset s.net) { has_emit = true } }
cb_network_config s nwid (update status mac mtu addresses) = record s {
  net_status = some status;
  nwid = nwid;
  net = take_address s.net mac mtu addresses;
  need_subscribe = true;
}

pub data NodeEvent : Type 0 where
  went_online went_offline went_down other_event : NodeEvent

unfoldable pub cb_event : Service → NodeEvent → Service
cb_event s went_online = record s { online = true }
cb_event s went_offline = record (unreachable s) { online = false }
cb_event s went_down = record (unreachable s) { online = false }
cb_event s other_event = s

-- ---- the network that is joined ----

abbrev pub deadline_now : Service → Service
deadline_now s = record s { wire = record s.wire { next_deadline = 0 } }

-- `emitted` are the frames that the game's threads emit behind the locked section that empties the
-- queue. `left`, `joined` and `restored` are what ZT_Node_leave and the calls of ZT_Node_join return;
-- 0 is ZT_RESULT_OK.
unfoldable pub switch_network : Service → ℕ → List Frame → ℕ → ℕ → ℕ → Service × Bool
switch_network s nwid emitted left joined restored =
    let cleared = record (unreachable s) {
      queue = enqueue_all (discard s.queue) emitted;
      need_subscribe = false;
      subscribed = false;
      net_status = none;
      first_frame_logged = false;
    } in
    let away = calling cleared (leave s.nwid) in
    let there = record (calling away (join nwid)) { nwid = nwid } in
    let back = record (calling there (join s.nwid)) { nwid = s.nwid } in
    if nwid == 0 || nwid == s.nwid || not s.has_node
    then (s, false)
    else if left != 0
    then (record away { last_error = left }, false)
    else if joined == 0
    then (deadline_now (record there { last_error = 0 }), true)
    else (
      deadline_now (record back { last_error = if restored != 0 then restored else joined }),
      false,
    )

-- The files are config.ini and networks.ini, none where one cannot be read.
unfoldable pub poll_network_selection :
    Service → ℕ → Option Text → Option Text → List Frame → ℕ → ℕ → ℕ → Service
poll_network_selection s now config saved emitted left joined restored =
    let polled = record s { last_network_poll = now } in
    if s.last_network_poll != 0 && ltb now (s.last_network_poll + 1000)
    then s
    else elim (resolve_configured_network_id config saved) [
      | none ↦ polled
      | some id ↦
          if id != s.nwid then (switch_network polled id emitted left joined restored).0 else polled
    ]

-- The two groups: ordinary broadcast, and the resolution of our own address.
unfoldable pub subscribe_broadcast : Service → Service
subscribe_broadcast s =
    let plain = calling s (subscribe s.nwid 0) in
    let both = if s.net.ip == 0 then plain else calling plain (subscribe s.nwid s.net.ip) in
    if not s.has_node || s.nwid == 0
    then s
    else record both { subscribed = s.subscribed || s.net.ip != 0 }

-- `configured_probe` is what ConfigIpv4("probe") returns.
unfoldable pub probe_peer : Service → ℕ → ℕ → Service
probe_peer s now configured_probe =
    let target = if s.probe_read then s.probe_ip else configured_probe in
    let known = record s { probe_read = true; probe_ip = target } in
    let announced =
      with_net (record known { last_probe = now })
        (send_echo_request s.net (broadcast_ip s.net)).0 in
    if not s.wire.has_fd || s.wire.recovering
    then s
    else if not s.net.configured
    then s
    else if s.last_probe != 0 && ltb now (s.last_probe + 5000)
    then known
    else if target != 0
    then with_net announced (send_echo_request announced.net target).0
    else announced

-- The frames that `drainOutbound` hands to the node, from our own address, for the network joined.
abbrev pub send_all : Service → List Frame → List Call
send_all s [] = []
send_all s (f ∷ fs) = send_frame s.nwid s.net.mac f ∷ send_all s fs

abbrev pub after_frames : Wire → List Frame → ℕ → Wire
after_frames w [] deadline = w
after_frames w (f ∷ fs) deadline = record w { next_deadline = deadline }

abbrev pub empty_list : List Frame → Bool
empty_list [] = true
empty_list (f ∷ fs) = false

-- `deadline` is what the node sets for the last frame.
unfoldable pub drain_frames : Service → ℕ → Service
drain_frames s deadline =
    let (q, sent) = drain_outbound s.queue s.wire.has_fd s.wire.recovering in
    record s {
      queue = q;
      calls = s.calls ++ send_all s sent;
      wire = after_frames s.wire sent deadline;
      first_frame_logged = s.first_frame_logged || not (empty_list sent);
    }
