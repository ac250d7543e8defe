-- ===== src/Tests/Shim.antt =====
-- Concrete runs of the shim, the configuration and the wire.
use sys_grid.Base.{ℕ, ◌*◌, ◌≡◌, ◌≢◌, refl, arith, true, false, none, some, [], ◌∷◌, ◌++◌}
use sys_grid.Net.{Bytes}
use sys_grid.Config.{Text, newline, parse_nwid, nwid_key, last_nwid, lines, nwid_of_line}
use sys_grid.Config.Nwid.{nwid_line, parse_nwid-appended}
use sys_grid.Bsd.Message.{parse_mmsg, assemble_payload}
use sys_grid.Bsd.Message.Layout.{encode, view_of, parse_mmsg-encode}
use sys_grid.Bsd.Proxy.{
  BsdServiceConfig, IsSized, Promises, accepted, aligned, efficiency, build_splatoon2_proxy_config,
  build_splatoon2_proxy_config-Promises, build_splatoon2_proxy_config-accepts,
}
use sys_grid.Bsd.Sessions.{Clients, Counted, count_client_session, count_client_session-Counted}
use sys_grid.Bsd.Lan.{
  Peer, is_overlay_destination, Shim, no_socket, get_lan_vfd, find_lan_socket, find_lan,
  track_socket, find_free, forget_lan_sockets_for_pid, ensure_lan_mirror, open_candidate,
  open_lan_socket, bind_lan_socket,
}
use sys_grid.Bsd.Lan.Sending.{resolve_mmsg_destination}
use sys_grid.Bsd.Lan.Mirror.{forget_lan_sockets_for_pid-get_lan_vfd, ensure_lan_mirror-get_lan_vfd}
use sys_grid.Vnet.Address.{configure, reset}
use sys_grid.Vnet.Sockets.{udp_open, udp_bind, find_unused}
use sys_grid.Port.{
  Wire, wire_send, maintain_wire_socket, resumed, pause, wire_hung_up, put_to_sleep, woken,
  try_to_open, open_wire_socket,
}
use sys_grid.Port.Recovery.{Reached, maintain_at, maintain_wire_socket-recovers}
use sys_grid.Tests.{alice_mac, alice_ip, bob_ip, hello, started}

-- "nwid=0".
abbrev old_line : Text
old_line = nwid_key ++ 61 ∷ 48 ∷ []

-- "# x", and the end of the line.
abbrev remark : Text
remark = 35 ∷ 32 ∷ 120 ∷ newline ∷ []

no_id : parse_nwid remark false ≡ none
unfolding parse_nwid last_nwid lines nwid_of_line
no_id = refl

parse_nwid-appended_example :
    let line = nwid_line 0x8056c2e21c000001 in
    (parse_nwid (old_line ++ newline ∷ line) false ≡ some 0x8056c2e21c000001)
    × (parse_nwid (old_line ++ newline ∷ (line ++ newline ∷ remark)) false
        ≡ some 0x8056c2e21c000001)
parse_nwid-appended_example =
    parse_nwid-appended old_line remark false 0x8056c2e21c000001 (omega arith) (omega arith) no_id

-- "[a]" and an id.
abbrev catalog : Text
catalog = 91 ∷ 97 ∷ 93 ∷ newline ∷ nwid_line 7

abbrev address : Bytes
address = 16 ∷ 2 ∷ 117 ∷ 48 ∷ 10 ∷ 0 ∷ 0 ∷ 2 ∷ []

parse_mmsg-encode_example :
    (parse_mmsg (encode address (hello ∷ hello ∷ []) [] 0 0 (1 ∷ []))
      ≡ some (view_of address (hello ∷ hello ∷ []), 1 ∷ []))
    × (assemble_payload (view_of address (hello ∷ hello ∷ [])) ≡ some (hello ++ hello))
parse_mmsg-encode_example = parse_mmsg-encode address (hello ∷ hello ∷ []) [] 0 0 (1 ∷ []) (record {
  name_size = omega arith;
  few = omega arith;
  payload_size = omega arith;
  control_size = omega arith;
})

-- The buffers that Splatoon 2 asks for.
abbrev splatoon : BsdServiceConfig
splatoon = record {
  version = 1;
  tcp_tx_buf_size = 0x8000;
  tcp_rx_buf_size = 0x10000;
  tcp_tx_buf_max_size = 0x40000;
  tcp_rx_buf_max_size = 0x40000;
  udp_tx_buf_size = 0x2400;
  udp_rx_buf_size = 0xa500;
  sb_efficiency = 8;
}

splatoon-IsSized : IsSized splatoon
splatoon-IsSized = record {
  tcp_tx = omega arith;
  tcp_rx = omega arith;
  udp_tx = omega arith;
  udp_rx = omega arith;
}

build_splatoon2_proxy_config-Promises_example :
    Promises splatoon (build_splatoon2_proxy_config splatoon)
build_splatoon2_proxy_config-Promises_example =
    build_splatoon2_proxy_config-Promises splatoon splatoon-IsSized

build_splatoon2_proxy_config-accepts_example :
    build_splatoon2_proxy_config splatoon
    ≡ some (accepted splatoon, aligned splatoon * efficiency splatoon)
build_splatoon2_proxy_config-accepts_example =
    build_splatoon2_proxy_config-accepts splatoon splatoon-IsSized (omega arith) (omega arith)
      (omega arith)

abbrev no_clients : Clients
no_clients i = record { pid = 0; sessions = 0 }

count_client_session-Counted_example : Counted no_clients 7 (count_client_session no_clients 7)
count_client_session-Counted_example = count_client_session-Counted no_clients 7 (omega arith)

abbrev fresh : Shim
fresh = record { table = λ i. no_socket; has_port = true; net = started alice_mac alice_ip }

abbrev tracked : Shim
tracked = track_socket fresh 7 3

abbrev game : ℕ
game = 7

abbrev other_game : ℕ
other_game = 8

forget_lan_sockets_for_pid-get_lan_vfd_example :
    let table = (forget_lan_sockets_for_pid tracked game).0.table in
    (get_lan_vfd table game (some 3) ≡ none)
    × (other_game ≢ game
        → other_game ≢ 0
        → get_lan_vfd table other_game (some 3) ≡ get_lan_vfd tracked.table other_game (some 3))
forget_lan_sockets_for_pid-get_lan_vfd_example =
    forget_lan_sockets_for_pid-get_lan_vfd tracked game other_game (some 3) (omega arith)

mirrors_first : (ensure_lan_mirror tracked 7 (some 3) 30000 (λ s. s)).1 ≡ some 0
unfolding ensure_lan_mirror track_socket find_free find_lan_socket find_lan open_candidate
    open_lan_socket bind_lan_socket udp_open udp_bind find_unused configure reset
mirrors_first = refl

ensure_lan_mirror-get_lan_vfd_example :
    get_lan_vfd (ensure_lan_mirror tracked 7 (some 3) 30000 (λ s. s)).0.table 7 (some 3) ≡ some 0
ensure_lan_mirror-get_lan_vfd_example =
    ensure_lan_mirror-get_lan_vfd tracked 7 3 30000 (λ s. s) 0 mirrors_first

abbrev wire : Wire
wire = record {
  has_fd = true;
  reachable = true;
  recovering = false;
  recovery_confirmed = false;
  hup = false;
  ephemeral = false;
  fail_streak = 0;
  backoff_ms = 0;
  reopen_fail = 0;
  down_at = 0;
  reopen_at = 0;
  next_deadline = 0;
}

-- The poll reports a dead socket, which is closed at the next maintenance; a sleep follows, and the
-- first attempt behind it fails.
abbrev lost : Wire
lost = woken (put_to_sleep (maintain_wire_socket (wire_hung_up wire) 100 false)) true false []

lost-Reached : Reached 100 lost
lost-Reached = Reached.resumed_from 100 _ true false [] (
    Reached.slept 100 _ (
      Reached.maintained 100 (wire_hung_up wire) false
        (Reached.hung_up 100 wire refl (Reached.started 100 wire refl refl refl))))

maintain_wire_socket-recovers_example :
    let back = maintain_wire_socket (maintain_at lost (150 ∷ 20000 ∷ [])) 40000 true in
    let after = maintain_wire_socket (wire_send back false true true true).0 40010 false in
    (back.has_fd ≡ true)
    × (back.fail_streak ≡ 0)
    × (after.has_fd ≡ true)
    × (after.recovering ≡ false)
    × (after.reachable ≡ true)
maintain_wire_socket-recovers_example =
    maintain_wire_socket-recovers 100 40000 40010 lost (150 ∷ 20000 ∷ []) false lost-Reached
      (unfold maintain_wire_socket wire_hung_up resumed pause put_to_sleep woken try_to_open
          open_wire_socket in
        refl)
      (omega arith)

-- "probe=10.0.0.2".
abbrev probe_key : Text
probe_key = 112 ∷ 114 ∷ 111 ∷ 98 ∷ 101 ∷ []

abbrev probe_file : Text
probe_file = probe_key ++ 61 ∷ 49 ∷ 48 ∷ 46 ∷ 48 ∷ 46 ∷ 48 ∷ 46 ∷ 50 ∷ []

abbrev mirrored : Shim
mirrored = (ensure_lan_mirror tracked 7 (some 3) 30000 (λ s. s)).0

abbrev bob_peer : Peer
bob_peer = record { vfd = some 0; ip = bob_ip; port = 30000 }

resolves_bob :
    resolve_mmsg_destination mirrored 7 (some 3) (view_of address (hello ∷ []))
    ≡ some (bob_peer, false)
unfolding resolve_mmsg_destination is_overlay_destination get_lan_vfd ensure_lan_mirror track_socket
    find_free find_lan_socket find_lan open_candidate open_lan_socket bind_lan_socket udp_open
    udp_bind find_unused configure reset
resolves_bob = refl
