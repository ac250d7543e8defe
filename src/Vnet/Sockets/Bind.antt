-- ===== src/Vnet/Sockets/Bind.antt =====
-- Binding to port 0.
use sys_grid.Base.{ℕ, ◌<◌, ◌≤◌, ◌≡◌, arith, true, false, some, ◌==◌}
use sys_grid.Vnet.{VNet, max_sockets}
use sys_grid.Vnet.Sockets.{is_open, udp_bind, udp_local_port, find_ephemeral}
use sys_grid.Vnet.Sockets.Ephemeral.{binds, find_ephemeral_lem}

-- Binding an open socket to port 0 succeeds: the socket gets a port from 49152 to 65535 that no
-- socket was bound to, and reports it.
pub udp_bind-ephemeral :
    (v : VNet) (i ip : ℕ)
    → is_open v i ≡ true
    → 49152 ≤ v.next_ephemeral
    → v.next_ephemeral < 65536
    → let (w, done) = udp_bind v (some i) ip 0 in
      let port = udp_local_port w (some i) in
      (done ≡ true)
      × (49152 ≤ port)
      × (port < 65536)
      × ((j : ℕ) → j < max_sockets → binds v.socks port j ≡ false)
udp_bind-ephemeral v i ip o low high =
    let found = find_ephemeral v.socks 4096 v.next_ephemeral in
    let (least, most, free) =
      find_ephemeral_lem v.socks 4096 v.next_ephemeral (omega arith) (omega arith) (low, high) in
    let given : (found.0 == 0) ≡ false = ground arith in
    let port : udp_local_port (udp_bind v (some i) ip 0).0 (some i) ≡ found.0 =
      unfold udp_bind udp_local_port in ground (arith, o, given) in
    let done : (udp_bind v (some i) ip 0).1 ≡ true = unfold udp_bind in ground (arith, o, given) in
    (done, omega (arith, port), omega (arith, port), λ j h. rw port (free j h))
