-- ===== src/Bsd/Service.antt =====
-- source/mitm/bsd_shim.cpp: the commands of bsd:u that change or read the table of mirrored sockets.
-- `physical` is the answer of the console's own service, which is none when the call of it fails; a
-- return value below zero is none. `meanwhile` is what other threads do while a virtual socket is
-- opened. Buffers are lists of bytes.
pub mod Connected
pub mod Names
pub mod Address
pub mod Sending
pub mod Reading
pub mod Waiting
use sys_grid.Base.{
  ℕ, ◌*◌, ◌+◌, Bool, true, false, not, ◌&&◌, ◌||◌, Option, none, some, ◌==◌, ◌!=◌, ltb, leb,
  if◌then◌else◌, update, is_some, [], ◌∷◌, ◌++◌, length, u8, ◌>>>◌, replicate, take, drop,
}
use sys_grid.Net.{Bytes, byte_at, load32}
use sys_grid.Vnet.{VNet, Index}
use sys_grid.Vnet.Sockets.{Datagram}
use sys_grid.Bsd.Lan.{
  Shim, LanSocket, Peer, mirror_lan_broadcast, mirror_lan_datagram, find_lan_socket, track_socket,
  forget_lan_socket, ensure_lan_mirror, get_lan_vfd, get_connected_lan_peer, is_overlay_destination,
  receive_lan_datagram, same_fd,
}
use sys_grid.Bsd.Lan.Sending.{name_port, name_ip, suppress_physical_udp_error}

pub record Answer : Type 0 where
  pub ret : Option ℕ
  pub err : ℕ

abbrev pub zero_answer : Answer
zero_answer = record { ret = some 0; err = 0 }

-- What a command leaves: the state, its answer, and whether it called the console's service.
pub record Outcome : Type 0 where
  pub shim : Shim
  pub reply : Option Answer
  pub forwarded : Bool

abbrev pub forward : Shim → Option Answer → Outcome
forward s physical = record { shim = s; reply = physical; forwarded = true }

abbrev pub answer : Shim → Answer → Outcome
answer s a = record { shim = s; reply = some a; forwarded = false }

-- An answer of the console's service, after which the state may change.
abbrev pub forward_then : Shim → Option Answer → (Option ℕ → Shim) → Outcome
forward_then s none change = forward s none
forward_then s (some a) change = forward (change a.ret) (some a)

-- The entry of a descriptor, changed when it is a UDP socket.
abbrev pub change_entry : Shim → Index → (LanSocket → LanSocket) → Shim
change_entry s none change = s
change_entry s (some i) change =
    if (s.table i).udp then record s { table = update s.table i (change (s.table i)) } else s

-- ---- Socket, Close ----

abbrev track_returned : Shim → ℕ → Option ℕ → Shim
track_returned s pid none = s
track_returned s pid (some fd) = track_socket s pid fd

unfoldable pub socket : Shim → ℕ → ℕ → ℕ → ℕ → Option Answer → Outcome
socket s pid domain kind protocol physical =
    let lan = domain == 2 && kind == 2 && (protocol == 0 || protocol == 17) in
    forward_then s physical (λ ret. if lan then track_returned s pid ret else s)

unfoldable pub close : Shim → ℕ → Index → Option Answer → Outcome
close s pid fd physical =
    forward_then s physical (λ ret. if same_fd ret 0 then forget_lan_socket s pid fd else s)

-- ---- Bind, SetSockOpt ----

unfoldable pub is_pia_lan_port : ℕ → Bool
is_pia_lan_port port =
    port == 30000 || port == 35000 || port == 40000 || leb 49152 port && leb port 49155

-- Whether the descriptor is a UDP socket that is to be mirrored at once.
abbrev should_mirror : Shim → Index → ℕ → Bool
should_mirror s none port = false
should_mirror s (some i) port = (s.table i).udp && (is_pia_lan_port port || (s.table i).broadcast)

abbrev after_bind : Shim → ℕ → Index → ℕ → (Shim → Shim) → Shim
after_bind s pid fd port meanwhile =
    let entry = find_lan_socket s.table pid fd in
    let bound = change_entry s entry (λ e. record e { bound_port = port }) in
    if should_mirror s entry port then (ensure_lan_mirror bound pid fd port meanwhile).0 else bound

unfoldable pub bind : Shim → ℕ → Index → Bytes → (Shim → Shim) → Option Answer → Outcome
bind s pid fd addr meanwhile physical = forward_then s physical (λ ret.
    if same_fd ret 0 && leb 8 (length addr) && s.has_port
    then after_bind s pid fd (name_port addr) meanwhile
    else s)

-- The option's value, of which the code tests only that it is not zero; a short buffer is -1.
abbrev option_set : Bytes → Bool
option_set value = ltb (length value) 4 || load32 value 0 != 0

abbrev set_broadcast : Shim → ℕ → Index → Bool → (Shim → Shim) → Index → Shim
set_broadcast s pid fd on meanwhile none = s
set_broadcast s pid fd on meanwhile (some i) =
    let changed = record s { table = update s.table i (record (s.table i) { broadcast = on }) } in
    if on && (s.table i).bound_port != 0
    then (ensure_lan_mirror changed pid fd (s.table i).bound_port meanwhile).0
    else changed

unfoldable pub set_sock_opt :
    Shim → ℕ → Index → ℕ → ℕ → Bytes → (Shim → Shim) → Option Answer → Outcome
set_sock_opt s pid fd level optname value meanwhile physical = forward_then s physical (λ ret.
    if same_fd ret 0 && level == 0xffff && optname == 0x20
    then set_broadcast s pid fd (option_set value) meanwhile (find_lan_socket s.table pid fd)
    else s)

-- ---- SendTo ----

-- `MirrorLanPayload`: a browse reply is kept a unicast.
unfoldable pub mirror_lan_payload : VNet → Index → ℕ → ℕ → Bool → Bytes → VNet × Bool
mirror_lan_payload v vfd ip port broadcast content =
    if port != 30000 || ltb (length content) 5 || byte_at content 0 != 1
    then (if broadcast
        then mirror_lan_broadcast v vfd port content
        else mirror_lan_datagram v vfd ip port content)
    else mirror_lan_datagram v vfd ip port content

-- The virtual socket for a datagram to an address: the first broadcast of a bound socket opens one.
abbrev pub socket_for : Shim → ℕ → Index → Bool → (Shim → Shim) → Index → Shim × Index
socket_for s pid fd broadcast meanwhile none = (s, none)
socket_for s pid fd broadcast meanwhile (some i) =
    let e = s.table i in
    let vfd = if e.mirrored then e.vnet_fd else none in
    if not e.udp
    then (s, none)
    else if not (is_some vfd) && broadcast && e.bound_port != 0
    then ensure_lan_mirror s pid fd e.bound_port meanwhile
    else (s, vfd)

abbrev pub full_length : Bytes → Answer
full_length content = record { ret = some (length content); err = 0 }

unfoldable pub send_over : Shim × Index → Bytes → Bytes → Option Answer → Outcome
send_over (s, vfd) content addr physical =
    let (net, sent) =
      mirror_lan_payload s.net vfd (name_ip addr) (name_port addr) (byte_at addr 7 == 0xff)
        content in
    if not (is_some vfd)
    then forward s physical
    else if sent
    then answer (record s { net = net }) (full_length content)
    else forward (record s { net = net }) physical

unfoldable pub send_to : Shim → ℕ → Index → Bytes → Bytes → (Shim → Shim) → Option Answer → Outcome
send_to s pid fd content addr meanwhile physical =
    let entry = find_lan_socket s.table pid fd in
    if leb 8 (length addr) && s.has_port
    then send_over (socket_for s pid fd (byte_at addr 7 == 0xff) meanwhile entry) content addr
        physical
    else forward s physical
