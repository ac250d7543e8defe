-- ===== src/Bsd/Lan/Sending.antt =====
-- source/mitm/bsd_shim.cpp: where the messages of a vector go, and the errors of the physical socket
-- that a mirrored one hides.
use sys_grid.Base.{
  ℕ, ◌≡◌, arith, Bool, true, false, not, ◌||◌, Option, none, some, ◌==◌, ◌!=◌, ltb, if◌then◌else◌,
  length, bit_or, bit_and, Bool-cases, inl, inr, ◌<<<◌, is_some,
}
use sys_grid.Net.{Bytes, byte_at}
use sys_grid.Vnet.{Index}
use sys_grid.Vnet.Address.{broadcast_ip}
use sys_grid.Vnet.Transmit.{udp_send_to}
use sys_grid.Bsd.Lan.{
  mirror_lan_broadcast, mirror_lan_datagram, Shim, Peer, get_lan_vfd, get_connected_lan_peer,
  is_overlay_destination,
}
use sys_grid.Bsd.Message.{MMsgView}

-- A destination, with the flag `broadcast`.
abbrev pub overlay_peer : Shim → Peer → Option (Peer × Bool)
overlay_peer s peer =
    let (inside, broadcast) = is_overlay_destination s peer.ip in
    if inside then some (peer, broadcast) else none

abbrev pub connected_destination : Shim → Option Peer → Option (Peer × Bool)
connected_destination s none = none
connected_destination s (some peer) = overlay_peer s peer

-- The port and the address of a `sockaddr_in`, which are big-endian. The family is byte 1.
abbrev pub name_port : Bytes → ℕ
name_port name = bit_or (byte_at name 2 <<< 8) (byte_at name 3)

abbrev pub name_ip : Bytes → ℕ
name_ip name =
    bit_or (bit_or (bit_or (byte_at name 4 <<< 24) (byte_at name 5 <<< 16)) (byte_at name 6 <<< 8))
      (byte_at name 7)

abbrev pub named_peer : Index → Bytes → Peer
named_peer vfd name = record { vfd = vfd; ip = name_ip name; port = name_port name }

unfoldable pub resolve_mmsg_destination : Shim → ℕ → Index → MMsgView → Option (Peer × Bool)
resolve_mmsg_destination s pid fd view =
    let vfd = get_lan_vfd s.table pid fd in
    if length view.name == 0
    then connected_destination s (get_connected_lan_peer s.table pid fd)
    else if ltb (length view.name) 8 || byte_at view.name 1 != 2
    then none
    else if is_some vfd
    then overlay_peer s (named_peer vfd view.name)
    else none

-- ENETUNREACH, ENETRESET, ECONNRESET, ETIMEDOUT, ECONNREFUSED and EHOSTUNREACH.
abbrev pub is_route_error : ℕ → Bool
is_route_error e = e == 101 || e == 102 || e == 104 || e == 110 || e == 111 || e == 113

-- `BsdResult`: `failed` is `ret < 0`.
pub record BsdResult : Type 0 where
  pub failed : Bool
  pub err : ℕ

unfoldable pub suppress_physical_udp_error : Shim → ℕ → Index → BsdResult → BsdResult × Bool
suppress_physical_udp_error s pid fd r =
    if not r.failed || not (is_some (get_lan_vfd s.table pid fd))
    then (r, false)
    else if is_route_error r.err
    then (record r { err = 11 }, true)
    else (r, false)

overlay_peer-inside :
    (s : Shim) (p peer : Peer) (broadcast : Bool) (content : Bytes)
    → overlay_peer s p ≡ some (peer, broadcast)
    → (s.net.configured ≡ true)
      × (broadcast ≡ false → bit_and peer.ip s.net.netmask ≡ bit_and s.net.ip s.net.netmask)
unfolding is_overlay_destination
overlay_peer-inside s p peer broadcast content e = ground arith

resolved :
    (s : Shim) (pid : ℕ) (fd : Index) (view : MMsgView) (peer : Peer) (broadcast : Bool)
    → resolve_mmsg_destination s pid fd view ≡ some (peer, broadcast)
    → (p : Peer) × (overlay_peer s p ≡ some (peer, broadcast))
unfolding resolve_mmsg_destination
resolved s pid fd view peer broadcast e = elim (Bool-cases (length view.name == 0)) [
  | inl anonymous ↦ connected (get_connected_lan_peer s.table pid fd) (ground arith)
  | inr named ↦ (named_peer (get_lan_vfd s.table pid fd) view.name, ground arith)
]
  where
    connected :
        (o : Option Peer)
        → connected_destination s o ≡ some (peer, broadcast)
        → (p : Peer) × (overlay_peer s p ≡ some (peer, broadcast))
    connected none k = absurd (ground arith)
    connected (some p) k = (p, k)

-- A message whose destination is resolved passes the tests of the virtual network: a unicast one is
-- sent to the address that was resolved, and a broadcast one to the broadcast address.
pub resolve_mmsg_destination-sends :
    (s : Shim) (pid : ℕ) (fd : Index) (view : MMsgView) (peer : Peer) (broadcast : Bool)
    (content : Bytes)
    → resolve_mmsg_destination s pid fd view ≡ some (peer, broadcast)
    → (if broadcast
        then mirror_lan_broadcast s.net peer.vfd peer.port content
        else mirror_lan_datagram s.net peer.vfd peer.ip peer.port content)
      ≡ udp_send_to s.net peer.vfd
          (if broadcast then broadcast_ip s.net else peer.ip)
          peer.port
          content
unfolding mirror_lan_broadcast mirror_lan_datagram
resolve_mmsg_destination-sends s pid fd view peer broadcast content e =
    let (p, q) = resolved s pid fd view peer broadcast e in
    let (up, inside) = overlay_peer-inside s p peer broadcast content q in
    ground (arith, up, inside)
