-- ===== src/Bsd/Service/Connected.antt =====
-- source/mitm/bsd_shim.cpp: Connect, Send and GetPeerName. A mirrored socket is connected on the
-- virtual network alone.
use sys_grid.Base.{
  ℕ, Bool, true, false, not, ◌&&◌, ◌||◌, Option, none, some, ◌==◌, ltb, leb, if◌then◌else◌, is_some,
  ◌∷◌, length, u8, ◌>>>◌, replicate,
}
use sys_grid.Net.{Bytes, byte_at}
use sys_grid.Vnet.{Index}
use sys_grid.Bsd.Lan.{
  Shim, LanSocket, Peer, mirror_lan_datagram, find_lan_socket, get_lan_vfd, get_connected_lan_peer,
  is_overlay_destination, same_fd,
}
use sys_grid.Bsd.Lan.Sending.{name_port, name_ip}
use sys_grid.Bsd.Service.{
  Answer, zero_answer, Outcome, forward, answer, forward_then, change_entry, full_length,
}

-- ---- Connect ----

abbrev pub disconnect : LanSocket → LanSocket
disconnect e = record e { connected_port = 0; connected_ip = 0; connected = false }

abbrev pub connect_entry : Bytes → LanSocket → LanSocket
connect_entry addr e = record e {
  connected_port = name_port addr;
  connected_ip = name_ip addr;
  connected = true;
}

abbrev is_udp_entry : Shim → Index → Bool
is_udp_entry s none = false
is_udp_entry s (some i) = (s.table i).udp

abbrev pub is_mirrored_entry : Shim → Index → Bool
is_mirrored_entry s none = false
is_mirrored_entry s (some i) = (s.table i).udp && (s.table i).mirrored

-- What the command does with the answer of the console's service.
abbrev pub after_connect : Shim → Index → Bytes → Option ℕ → Shim
after_connect s entry addr ret =
    if not (same_fd ret 0) || ltb (length addr) 2
    then s
    else if byte_at addr 1 == 2 && leb 8 (length addr)
    then change_entry s entry (connect_entry addr)
    else if byte_at addr 1 == 0
    then change_entry s entry disconnect
    else s

unfoldable pub connect : Shim → ℕ → Index → Bytes → Option Answer → Outcome
connect s pid fd addr physical =
    let entry = find_lan_socket s.table pid fd in
    let forwarded = forward_then s physical (after_connect s entry addr) in
    if ltb (length addr) 2 || not (is_some (get_lan_vfd s.table pid fd))
    then forwarded
    else if byte_at addr 1 == 0
    then (if is_udp_entry s entry
        then answer (change_entry s entry disconnect) zero_answer
        else forwarded)
    else if byte_at addr 1 == 2
        && leb 8 (length addr)
        && (is_overlay_destination s (name_ip addr)).0
        && is_mirrored_entry s entry
    then answer (change_entry s entry (connect_entry addr)) zero_answer
    else forwarded

-- ---- Send, Write ----

abbrev pub mirror_to : Shim → Option Peer → Bytes → Shim × Bool
mirror_to s none content = (s, false)
mirror_to s (some peer) content =
    let (net, sent) = mirror_lan_datagram s.net peer.vfd peer.ip peer.port content in
    (record s { net = net }, sent)

unfoldable pub mirror_connected_lan_datagram : Shim → ℕ → Index → Bytes → Shim × Bool
mirror_connected_lan_datagram s pid fd content =
    if s.has_port then mirror_to s (get_connected_lan_peer s.table pid fd) content else (s, false)

unfoldable pub send : Shim → ℕ → Index → Bytes → Option Answer → Outcome
send s pid fd content physical =
    let (later, sent) = mirror_connected_lan_datagram s pid fd content in
    if sent then answer later (full_length content) else forward later physical

-- ---- GetPeerName ----

-- The `sockaddr_in` that the shim writes.
abbrev pub name_of : ℕ → ℕ → Bytes
name_of ip port =
    16
    ∷ 2
    ∷ u8 (port >>> 8)
    ∷ u8 port
    ∷ u8 (ip >>> 24)
    ∷ u8 (ip >>> 16)
    ∷ u8 (ip >>> 8)
    ∷ u8 ip
    ∷ replicate 8 0

-- The answer with the address that is written, none when the buffer is left alone, and its length.
pub record Named : Type 0 where
  pub reply : Option Answer
  pub forwarded : Bool
  pub address : Option Bytes
  pub addr_len : ℕ

-- What the console's service returns, with the address it writes.
pub record PhysicalName : Type 0 where
  pub answer : Answer
  pub address : Bytes
  pub addr_len : ℕ

abbrev forward_name : Option PhysicalName → Named
forward_name none = record { reply = none; forwarded = true; address = none; addr_len = 0 }
forward_name (some p) = record {
  reply = some p.answer;
  forwarded = true;
  address = some p.address;
  addr_len = p.addr_len;
}

abbrev pub name_peer : Option Peer → ℕ → Option PhysicalName → Named
name_peer none size physical = forward_name physical
name_peer (some peer) size physical =
    if leb 16 size
    then record {
      reply = some zero_answer;
      forwarded = false;
      address = some (name_of peer.ip peer.port);
      addr_len = 16;
    }
    else record {
      reply = some (record { ret = none; err = 22 });
      forwarded = false;
      address = none;
      addr_len = 0;
    }

unfoldable pub get_peer_name : Shim → ℕ → Index → ℕ → Option PhysicalName → Named
get_peer_name s pid fd size physical =
    name_peer (get_connected_lan_peer s.table pid fd) size physical
