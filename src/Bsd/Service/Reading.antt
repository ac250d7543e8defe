-- ===== src/Bsd/Service/Reading.antt =====
-- source/mitm/bsd_shim.cpp: Recv, Read, RecvFrom and GetSockName. A datagram of the virtual
-- network comes first.
use sys_grid.Base.{
  ℕ, Bool, false, not, ◌&&◌, Option, none, some, ◌!=◌, ltb, leb, if◌then◌else◌, bit_and, is_some,
  [], ◌∷◌, ◌++◌, length, u8, ◌>>>◌, drop,
}
use sys_grid.Net.{Bytes, byte_at}
use sys_grid.Vnet.{Index}
use sys_grid.Vnet.Sockets.{Datagram}
use sys_grid.Bsd.Lan.{Shim, find_lan_socket, get_lan_vfd, same_fd, receive_lan_datagram}
use sys_grid.Bsd.Lan.Sending.{name_port, suppress_physical_udp_error}
use sys_grid.Bsd.Service.{Answer, full_length, change_entry}
use sys_grid.Bsd.Service.Connected.{name_of, PhysicalName}

-- ---- Recv, Read, RecvFrom ----

-- A late error of the physical socket is hidden.
abbrev pub hide_error : Shim → ℕ → Index → Answer → Answer × Bool
hide_error s pid fd a =
    let (r, hidden) =
      suppress_physical_udp_error s pid fd (record { failed = not (is_some a.ret); err = a.err }) in
    (record a { err = r.err }, hidden)

-- What a read leaves: the state, the answer, and the datagram of the virtual network, none when the
-- console's service was asked. `address` is none when the shim leaves the buffer of the address alone.
pub record Received : Type 0 where
  pub shim : Shim
  pub reply : Option Answer
  pub content : Option Bytes
  pub address : Option Bytes
  pub addr_len : ℕ

abbrev physical_answer : Shim → ℕ → Index → Option Answer → Received
physical_answer s pid fd none = record {
  shim = s;
  reply = none;
  content = none;
  address = none;
  addr_len = 0;
}
physical_answer s pid fd (some a) = record {
  shim = s;
  reply = some (hide_error s pid fd a).0;
  content = none;
  address = none;
  addr_len = 0;
}

abbrev received : Shim × Option Datagram → ℕ → Index → Option Answer → Received
received (s, none) pid fd physical = physical_answer s pid fd physical
received (s, some d) pid fd physical = record {
  shim = s;
  reply = some (full_length d.content);
  content = some d.content;
  address = none;
  addr_len = 0;
}

unfoldable pub recv : Shim → ℕ → Index → ℕ → ℕ → Option Answer → Received
recv s pid fd flags limit physical =
    received (receive_lan_datagram s pid fd limit (bit_and flags 2 != 0)) pid fd physical

unfoldable pub read : Shim → ℕ → Index → ℕ → Option Answer → Received
read s pid fd limit physical = received (receive_lan_datagram s pid fd limit false) pid fd physical

abbrev physical_name : Shim → ℕ → Index → Option PhysicalName → Received
physical_name s pid fd none = record {
  shim = s;
  reply = none;
  content = none;
  address = none;
  addr_len = 0;
}
physical_name s pid fd (some p) =
    let (a, hidden) = hide_error s pid fd p.answer in
    record {
      shim = s;
      reply = some a;
      content = none;
      address = some p.address;
      addr_len = if hidden then 0 else p.addr_len;
    }

abbrev received_from : Shim × Option Datagram → ℕ → Index → ℕ → Option PhysicalName → Received
received_from (s, none) pid fd addr_size physical = physical_name s pid fd physical
received_from (s, some d) pid fd addr_size physical = record {
  shim = s;
  reply = some (full_length d.content);
  content = some d.content;
  address = if leb 16 addr_size then some (name_of d.src_ip d.src_port) else none;
  addr_len = if leb 16 addr_size then 16 else 0;
}

unfoldable pub recv_from : Shim → ℕ → Index → ℕ → ℕ → ℕ → Option PhysicalName → Received
recv_from s pid fd flags limit addr_size physical =
    received_from (receive_lan_datagram s pid fd limit (bit_and flags 2 != 0)) pid fd addr_size
      physical

-- ---- GetSockName ----

-- The managed address in place of the physical one; the port, bytes 2 and 3, is kept.
abbrev managed_name : ℕ → Bytes → Bytes
managed_name ip name =
    (16 ∷ 2 ∷ byte_at name 2 ∷ byte_at name 3 ∷ [])
    ++ (u8 (ip >>> 24) ∷ u8 (ip >>> 16) ∷ u8 (ip >>> 8) ∷ u8 ip ∷ drop 8 name)

-- The port that the console's service reports is remembered.
abbrev learn_port : Shim → ℕ → Index → Bytes → Shim
learn_port s pid fd name =
    if leb 4 (length name) && name_port name != 0
    then change_entry s (find_lan_socket s.table pid fd)
        (λ e. record e { bound_port = name_port name })
    else s

abbrev sock_name : Shim → ℕ → Index → PhysicalName → Shim × PhysicalName
sock_name s pid fd p =
    let managed = leb 8 (length p.address) && is_some (get_lan_vfd s.table pid fd) && s.has_port in
    if not (same_fd p.answer.ret 0)
    then (s, p)
    else if managed && s.net.configured
    then (
      learn_port s pid fd p.address,
      record p {
        address = managed_name s.net.ip p.address;
        addr_len = if ltb p.addr_len 16 then 16 else p.addr_len;
      },
    )
    else (learn_port s pid fd p.address, p)

abbrev sock_name_of : Shim → ℕ → Index → Option PhysicalName → Shim × Option PhysicalName
sock_name_of s pid fd none = (s, none)
sock_name_of s pid fd (some p) = let (t, q) = sock_name s pid fd p in (t, some q)

unfoldable pub get_sock_name : Shim → ℕ → Index → Option PhysicalName → Shim × Option PhysicalName
get_sock_name s pid fd physical = sock_name_of s pid fd physical
