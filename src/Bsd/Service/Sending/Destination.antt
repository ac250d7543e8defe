-- ===== src/Bsd/Service/Sending/Destination.antt =====
-- What a message means does not depend on what has been sent before it: sending leaves the address of
-- the interface alone.
use sys_grid.Base.{ℕ, ◌≡◌, refl, ap, arith, Option, none, some, if◌then◌else◌}
use sys_grid.Net.{Bytes}
use sys_grid.Vnet.{VNet, Index}
use sys_grid.Vnet.Address.{broadcast_ip}
use sys_grid.Vnet.Sockets.{udp_bind}
use sys_grid.Vnet.Transmit.{udp_send_to, send_datagram, udp_packet}
use sys_grid.Vnet.Transmit.Setup.{send_ipv4-SameSetup}
use sys_grid.Bsd.Lan.{
  Shim, Peer, mirror_lan_broadcast, mirror_lan_datagram, is_overlay_destination,
  get_connected_lan_peer, get_lan_vfd,
}
use sys_grid.Bsd.Lan.Sending.{
  resolve_mmsg_destination, overlay_peer, connected_destination, named_peer,
}
use sys_grid.Bsd.Message.{MMsgView, parse_mmsg, assemble_payload}
use sys_grid.Bsd.Service.Sending.{Message, resolve_parsed, next_message, send_payload, send_message}

-- Two interfaces with the same address.
abbrev pub SameAddress : VNet → VNet → Type 0
SameAddress v w = (w.ip ≡ v.ip) × (w.netmask ≡ v.netmask) × (w.configured ≡ v.configured)

udp_bind-SameAddress : (v : VNet) (i : Index) (ip port : ℕ) → SameAddress v (udp_bind v i ip port).0
unfolding udp_bind
udp_bind-SameAddress v none ip port = ground arith
udp_bind-SameAddress v (some i) ip port = ground arith

send_datagram-SameAddress :
    (v : VNet) (i ip port : ℕ) (content : Bytes)
    → SameAddress v (send_datagram v i ip port content).0
unfolding send_datagram
send_datagram-SameAddress v i ip port content =
    ground
      (arith, send_ipv4-SameSetup v ip 17 (udp_packet v.ip ip (v.socks i).local_port port content))

udp_send_to-SameAddress :
    (v : VNet) (i : Index) (ip port : ℕ) (content : Bytes)
    → SameAddress v (udp_send_to v i ip port content).0
unfolding udp_send_to
udp_send_to-SameAddress v none ip port content = ground arith
udp_send_to-SameAddress v (some i) ip port content =
    let bound = udp_bind v (some i) 0 0 in
    ground (
      arith,
      udp_bind-SameAddress v (some i) 0 0,
      send_datagram-SameAddress bound.0 i ip port content,
      send_datagram-SameAddress v i ip port content,
    )

pub send_message-SameAddress : (v : VNet) (m : Message) → SameAddress v (send_message v m).0
unfolding mirror_lan_broadcast mirror_lan_datagram
send_message-SameAddress v ((peer, broadcast), view) =
    elim (assemble_payload view)
      as (λ o. SameAddress v (send_payload v ((peer, broadcast), view) o).0) [
        | none ↦ (refl, refl, refl)
        | some payload ↦ ground (
          arith,
          udp_send_to-SameAddress v peer.vfd (broadcast_ip v) peer.port payload,
          udp_send_to-SameAddress v peer.vfd peer.ip peer.port payload,
        )
      ]

-- What a message means does not depend on what has been sent before it.
abbrev pub with_interface : Shim → VNet → Shim
with_interface s net = record s { net = net }

is_overlay_destination-SameAddress :
    (s : Shim) (w : VNet) (ip : ℕ)
    → SameAddress s.net w
    → is_overlay_destination (with_interface s w) ip ≡ is_overlay_destination s ip
unfolding is_overlay_destination
is_overlay_destination-SameAddress s w ip h = rw (h.0, h.1, h.2) refl

overlay_peer-SameAddress :
    (s : Shim) (w : VNet) (peer : Peer)
    → SameAddress s.net w
    → overlay_peer (with_interface s w) peer ≡ overlay_peer s peer
overlay_peer-SameAddress s w peer h =
    ap (λ r. if r.0 then some (peer, r.1) else none)
      (is_overlay_destination-SameAddress s w peer.ip h)

connected_destination-SameAddress :
    (s : Shim) (w : VNet) (o : Option Peer)
    → SameAddress s.net w
    → connected_destination (with_interface s w) o ≡ connected_destination s o
connected_destination-SameAddress s w none h = refl
connected_destination-SameAddress s w (some peer) h = overlay_peer-SameAddress s w peer h

resolve_mmsg_destination-SameAddress :
    (s : Shim) (w : VNet) (pid : ℕ) (fd : Index) (view : MMsgView)
    → SameAddress s.net w
    → resolve_mmsg_destination (with_interface s w) pid fd view
      ≡ resolve_mmsg_destination s pid fd view
unfolding resolve_mmsg_destination
resolve_mmsg_destination-SameAddress s w pid fd view h =
    rw
      (
        connected_destination-SameAddress s w (get_connected_lan_peer s.table pid fd) h,
        overlay_peer-SameAddress s w (named_peer (get_lan_vfd s.table pid fd) view.name) h,
      )
      refl

resolve_parsed-SameAddress :
    (s : Shim) (w : VNet) (pid : ℕ) (fd : Index) (o : Option (MMsgView × Bytes))
    → SameAddress s.net w
    → resolve_parsed (with_interface s w) pid fd o ≡ resolve_parsed s pid fd o
resolve_parsed-SameAddress s w pid fd none h = refl
resolve_parsed-SameAddress s w pid fd (some (view, rest)) h =
    rw (resolve_mmsg_destination-SameAddress s w pid fd view h) refl

pub next_message-SameAddress :
    (s : Shim) (w : VNet) (pid : ℕ) (fd : Index) (cursor : Bytes)
    → SameAddress s.net w
    → next_message (with_interface s w) pid fd cursor ≡ next_message s pid fd cursor
unfolding next_message
next_message-SameAddress s w pid fd cursor h =
    resolve_parsed-SameAddress s w pid fd (parse_mmsg cursor) h
