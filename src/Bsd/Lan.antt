-- ===== src/Bsd/Lan.antt =====
-- source/mitm/bsd_shim.cpp: the table of the game's sockets that are mirrored on the virtual network,
-- and, from source/zt_port.cpp, the calls of class Port that it makes. A section that holds a lock is
-- one step. `fd` and the virtual socket number are -1 (none) or an index.
pub mod Mirror
pub mod Sending
use sys_grid.Base.{
  ℕ, zero, suc, ◌+◌, Bool, true, false, not, ◌&&◌, ◌||◌, Option, none, some, ◌==◌, ◌!=◌,
  if◌then◌else◌, bit_and, update, is_some, List, [], ◌∷◌, length,
}
use sys_grid.Net.{Bytes}
use sys_grid.Vnet.{VNet, Index}
use sys_grid.Vnet.Address.{broadcast_ip}
use sys_grid.Vnet.Sockets.{udp_open, udp_bind, udp_close, udp_readable, udp_recv_from, Datagram}
use sys_grid.Vnet.Transmit.{udp_send_to}

-- ---- class Port ----

unfoldable pub open_lan_socket : VNet → VNet × Index
open_lan_socket v = if v.configured then udp_open v else (v, none)

unfoldable pub bind_lan_socket : VNet → Index → ℕ → VNet × Bool
bind_lan_socket v vfd port = if v.configured then udp_bind v vfd 0 port else (v, false)

unfoldable pub mirror_lan_datagram : VNet → Index → ℕ → ℕ → Bytes → VNet × Bool
mirror_lan_datagram v vfd dst_ip port content =
    if not v.configured
    then (v, false)
    else if bit_and dst_ip v.netmask != bit_and v.ip v.netmask
    then (v, false)
    else udp_send_to v vfd dst_ip port content

unfoldable pub mirror_lan_broadcast : VNet → Index → ℕ → Bytes → VNet × Bool
mirror_lan_broadcast v vfd port content =
    if not v.configured then (v, false) else udp_send_to v vfd (broadcast_ip v) port content

-- ---- the table ----

abbrev pub max_lan_sockets : ℕ
max_lan_sockets = 8

pub record LanSocket : Type 0 where
  pub pid : ℕ
  pub bsd_fd : Index
  pub vnet_fd : Index
  pub bound_port : ℕ
  pub connected_port : ℕ
  pub connected_ip : ℕ
  pub udp : Bool
  pub broadcast : Bool
  pub mirrored : Bool
  pub connected : Bool

-- `LanSocket{}`: every field is zero.
abbrev pub no_socket : LanSocket
no_socket = record {
  pid = 0;
  bsd_fd = some 0;
  vnet_fd = some 0;
  bound_port = 0;
  connected_port = 0;
  connected_ip = 0;
  udp = false;
  broadcast = false;
  mirrored = false;
  connected = false;
}

-- The table, whether `g_port` is set, and the virtual interface that it leads to.
pub record Shim : Type 0 where
  pub table : ℕ → LanSocket
  pub has_port : Bool
  pub net : VNet

abbrev pub same_fd : Index → ℕ → Bool
same_fd none fd = false
same_fd (some n) fd = n == fd

unfoldable pub find_lan : (ℕ → LanSocket) → ℕ → ℕ → ℕ → ℕ → Index
find_lan table pid fd zero i = none
find_lan table pid fd (suc left) i =
    let rest = find_lan table pid fd left (suc i) in
    if (table i).pid == pid && same_fd (table i).bsd_fd fd then some i else rest

unfoldable pub find_lan_socket : (ℕ → LanSocket) → ℕ → Index → Index
find_lan_socket table pid none = none
find_lan_socket table pid (some fd) = find_lan table pid fd max_lan_sockets 0

-- The entry that `Socket` makes for a new UDP descriptor of real bsd; a full table leaves it out.
unfoldable pub find_free : (ℕ → LanSocket) → ℕ → ℕ → Index
find_free table zero i = none
find_free table (suc left) i =
    let rest = find_free table left (suc i) in if (table i).pid != 0 then rest else some i

unfoldable pub track_socket : Shim → ℕ → ℕ → Shim
track_socket s pid fd = elim (find_free s.table max_lan_sockets 0) [
  | none ↦ s
  | some i ↦ record s {
    table =
        update s.table i
          (record no_socket { pid = pid; bsd_fd = some fd; vnet_fd = none; udp = true });
  }
]

-- `CloseLanSocket`, when there is a socket and a port.
abbrev pub close_lan : Shim → Index → Shim
close_lan s vfd = if is_some vfd && s.has_port then record s { net = udp_close s.net vfd } else s

abbrev pub clear_slot : Shim → Index → Shim
clear_slot s none = s
clear_slot s (some i) =
    close_lan (record s { table = update s.table i no_socket }) (s.table i).vnet_fd

unfoldable pub forget_lan_socket : Shim → ℕ → Index → Shim
forget_lan_socket s pid fd = clear_slot s (find_lan_socket s.table pid fd)

-- The loop over the table for a process that has exited: the virtual sockets to close, in order.
unfoldable pub owned : (ℕ → LanSocket) → ℕ → ℕ → ℕ → List Index
owned table pid zero i = []
owned table pid (suc left) i =
    let rest = owned table pid left (suc i) in
    if (table i).pid == pid && is_some (table i).vnet_fd then (table i).vnet_fd ∷ rest else rest

unfoldable pub without_pid : (ℕ → LanSocket) → ℕ → ℕ → LanSocket
without_pid table pid i = if (table i).pid == pid then no_socket else table i

unfoldable pub close_all : VNet → List Index → VNet
close_all v [] = v
close_all v (vfd ∷ vfds) = close_all (udp_close v vfd) vfds

unfoldable pub forget_lan_sockets_for_pid : Shim → ℕ → Shim × ℕ
forget_lan_sockets_for_pid s pid =
    let vfds = owned s.table pid max_lan_sockets 0 in
    let net = if s.has_port then close_all s.net vfds else s.net in
    (record s { table = without_pid s.table pid; net = net }, length vfds)

abbrev pub mirror_of : (ℕ → LanSocket) → Index → Index
mirror_of table none = none
mirror_of table (some i) = if (table i).mirrored then (table i).vnet_fd else none

unfoldable pub get_lan_vfd : (ℕ → LanSocket) → ℕ → Index → Index
get_lan_vfd table pid fd = mirror_of table (find_lan_socket table pid fd)

-- The peer of a connected and mirrored socket.
pub record Peer : Type 0 where
  pub vfd : Index
  pub ip : ℕ
  pub port : ℕ

abbrev pub peer_of : (ℕ → LanSocket) → Index → Option Peer
peer_of table none = none
peer_of table (some i) =
    let s = table i in
    if not s.mirrored || not s.connected
    then none
    else some (record { vfd = s.vnet_fd; ip = s.connected_ip; port = s.connected_port })

unfoldable pub get_connected_lan_peer : (ℕ → LanSocket) → ℕ → Index → Option Peer
get_connected_lan_peer table pid fd = peer_of table (find_lan_socket table pid fd)

-- ---- EnsureLanMirror ----

-- What the first locked section finds.
pub data Need : Type 0 where
  refused : Need
  already : Index → Need
  wanted : Need

abbrev pub need_of : (ℕ → LanSocket) → Index → Need
need_of table none = refused
need_of table (some i) =
    if not (table i).udp
    then refused
    else if (table i).mirrored
    then already (table i).vnet_fd
    else wanted

-- The last locked section: the candidate is installed, or given back.
abbrev pub install : Shim → Index → Index → Shim × Index
install s candidate none = (close_lan s candidate, none)
install s candidate (some i) =
    let entry = s.table i in
    if not entry.udp
    then (close_lan s candidate, none)
    else if entry.mirrored
    then (close_lan s candidate, entry.vnet_fd)
    else (
      record s { table = update s.table i (record entry { vnet_fd = candidate; mirrored = true }) },
      candidate,
    )

-- Opening and binding a virtual socket; a candidate that cannot be bound is closed again.
unfoldable pub open_candidate : VNet → ℕ → VNet × Index
open_candidate v port =
    let (opened, candidate) = open_lan_socket v in
    let (bound, ok) = bind_lan_socket opened candidate port in
    if not (is_some candidate)
    then (opened, none)
    else if ok
    then (bound, candidate)
    else (udp_close bound candidate, none)

-- The early returns of the first section; `result` is what the rest of the call does.
abbrev pub mirror_for : Shim → Need → Shim × Index → Shim × Index
mirror_for s refused result = (s, none)
mirror_for s (already vfd) result = (s, vfd)
mirror_for s wanted result = result

-- `meanwhile` is what other threads do while the table is not locked.
unfoldable pub ensure_lan_mirror : Shim → ℕ → Index → ℕ → (Shim → Shim) → Shim × Index
ensure_lan_mirror s pid fd port meanwhile =
    let (net, candidate) = open_candidate s.net port in
    let later = meanwhile (record s { net = net }) in
    if not s.has_port || port == 0
    then (s, none)
    else mirror_for s (need_of s.table (find_lan_socket s.table pid fd)) (
        if is_some candidate
        then install later candidate (find_lan_socket later.table pid fd)
        else (record s { net = net }, none))

-- ---- destinations ----

unfoldable pub is_overlay_destination : Shim → ℕ → Bool × Bool
is_overlay_destination s ip =
    let v = s.net in
    let broadcast = ip == 0xffffffff || ip == broadcast_ip v in
    if not s.has_port || not v.configured
    then (false, false)
    else (broadcast || bit_and ip v.netmask == bit_and v.ip v.netmask, broadcast)

-- ---- reading ----

unfoldable pub lan_socket_readable : Shim → ℕ → Index → Bool
lan_socket_readable s pid fd =
    let vfd = get_lan_vfd s.table pid fd in is_some vfd && s.has_port && udp_readable s.net vfd

unfoldable pub receive_lan_datagram : Shim → ℕ → Index → ℕ → Bool → Shim × Option Datagram
receive_lan_datagram s pid fd limit peek =
    let vfd = get_lan_vfd s.table pid fd in
    let (net, got) = udp_recv_from s.net vfd limit peek in
    if not (is_some vfd) || not s.has_port then (s, none) else (record s { net = net }, got)
