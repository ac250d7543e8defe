-- ===== src/Tests/Loop.antt =====
-- Concrete runs of the service loop of the node thread.
use sys_grid.Base.{
  ℕ, ◌+◌, ◌*◌, ◌/◌, ◌≡◌, ◌≢◌, ◌⊎◌, refl, arith, Bool, true, false, [], ◌∷◌, Option, none, some,
  ◌==◌, if◌then◌else◌, update, List,
}
use sys_grid.Vnet.{VNet, Frame}
use sys_grid.Vnet.Transmit.{udp_send_to}
use sys_grid.Config.{Text, newline, parse_nwid, last_nwid, lines}
use sys_grid.Config.Saved.{resolve_configured_network_id}
use sys_grid.Config.Nwid.{nwid_line, parse_nwid-appended}
use sys_grid.Bsd.Lan.{mirror_lan_datagram, mirror_lan_broadcast}
use sys_grid.Nat.{no_endpoint, Published, get_nat_endpoint}
use sys_grid.Port.{Wire, maintain_wire_socket, resumed, reopen}
use sys_grid.Port.Service.{
  Service, Assigned, Config, cb_network_config, poll_network_selection, enqueue_all,
}
use sys_grid.Port.Queue.{discard}
use sys_grid.Port.Service.Network.{Node, IsLawful, IsSynced, there, back, poll_on, poll_on-IsSynced}
use sys_grid.Port.Service.Subnet.{cb_network_config-subnet}
use sys_grid.Port.Service.MappedWire.{silent, packets, maintain_nat_wire}
use sys_grid.Port.Service.MappedWire.Surface.{
  IsConsistent, IsServed, maintain_nat_wire-IsConsistent,
}
use sys_grid.Port.Service.Round.{Input, poll_timeout, run_round}
use sys_grid.Port.Service.Round.Idle.{IsIdle, run_round-IsIdle}
use sys_grid.Tests.{hello, alice_ip, alice_mac, bob_ip, blank}

abbrev no_wire : Wire
no_wire = record {
  has_fd = false;
  reachable = false;
  recovering = true;
  recovery_confirmed = false;
  hup = false;
  ephemeral = false;
  fail_streak = 0;
  backoff_ms = 2000;
  reopen_fail = 0;
  down_at = 0;
  reopen_at = 9000;
  next_deadline = 0;
}

abbrev in_network : Service
in_network = record {
  wire = no_wire;
  queue = record {
    frames = λ i. record { dst_mac = 0; ether_type = 0; payload = [] };
    head = 0;
    tail = 0;
  };
  net = blank;
  mapped = record {
    enabled = true;
    has_fd = false;
    socket_id = 0;
    port = 0;
    retry_at = 0;
    address = 0;
    public_port = 0;
    desired = 0;
  };
  has_node = true;
  nwid = 5;
  online = true;
  net_status = none;
  last_error = 0;
  need_subscribe = true;
  subscribed = false;
  first_frame_logged = false;
  last_network_poll = 0;
  probe_read = false;
  probe_ip = 0;
  last_probe = 0;
  calls = [];
}

-- A node that always joins and leaves.
abbrev willing : Node
willing = record {
  State = ℕ → Bool;
  is_member = λ st j. st j;
  join = λ st id. (update st id true, 0);
  leave = λ st id. (update st id false, 0);
}

willing-IsLawful : IsLawful willing
willing-IsLawful = record {
  join_lem = λ st id j. ground arith;
  leave_lem = λ st id j. ground arith;
}

abbrev in_five : ℕ → Bool
in_five j = j == 5

abbrev config : Option Text
config = some (newline ∷ nwid_line 7)

selected : resolve_configured_network_id config none ≡ some 7
unfolding resolve_configured_network_id parse_nwid last_nwid lines
selected = rw (parse_nwid-appended [] [] false 7 (omega arith) (omega arith) refl).0 refl

-- A game's thread emits a frame while the network is switched.
abbrev emitted_late : List Frame
emitted_late = record { dst_mac = alice_mac; ether_type = 2048; payload = hello } ∷ []

poll_on-IsSynced_example :
    (IsSynced willing
        (poll_on willing in_five in_network 100 config none emitted_late).0
        (poll_on willing in_five in_network 100 config none emitted_late).1
      ⊎ (((there willing in_five in_network 7).1 ≢ 0)
          × ((back willing in_five in_network 7).1 ≢ 0)))
    × ((poll_on willing in_five in_network 100 config none emitted_late).1.nwid ≡ 7)
    × ((poll_on willing in_five in_network 100 config none emitted_late).1.nwid ≢ 5
        → (poll_on willing in_five in_network 100 config none emitted_late).1.queue
          ≡ enqueue_all (discard in_network.queue) emitted_late)
poll_on-IsSynced_example =
    poll_on-IsSynced willing willing-IsLawful in_five in_network 100 config none 7 emitted_late
      selected refl refl (λ j. refl)

abbrev first_address : Assigned
first_address = record { ipv4 = true; ip = alice_ip; bits = 24 }

abbrev lan : VNet
lan = (cb_network_config in_network 5 (Config.update 1 alice_mac 1500 (first_address ∷ []))).net

cb_network_config-subnet_example :
    (mirror_lan_datagram lan (some 0) bob_ip 30000 hello ≡ (
      if bob_ip / 256 == alice_ip / 256
      then udp_send_to lan (some 0) bob_ip 30000 hello
      else (lan, false)))
    × (mirror_lan_broadcast lan (some 0) 30000 hello
        ≡ udp_send_to lan (some 0) (alice_ip / 256 * 256 + 255) 30000 hello)
cb_network_config-subnet_example =
    cb_network_config-subnet in_network 5 1 alice_mac 1500 [] first_address [] (some 0) bob_ip 30000
      hello tt refl (omega arith) (omega arith) (omega arith)

abbrev nothing_published : Published
nothing_published = record { endpoint = no_endpoint; generation = 0; expiry = 0 }

abbrev connected : Service
connected = record in_network { wire = record no_wire { has_fd = true; reachable = true } }

connected-IsConsistent : IsConsistent connected
connected-IsConsistent = record {
  node_up = refl;
  requested = refl;
  port_range = omega arith;
  unmapped = λ e. (refl, refl, refl);
  mapped = λ e. cc e;
  told = refl;
}

never-IsServed : (desired : ℕ) → IsServed desired (get_nat_endpoint nothing_published desired 0)
unfolding get_nat_endpoint
never-IsServed desired given = ground arith

maintain_nat_wire-IsConsistent_example :
    IsConsistent
      (maintain_nat_wire connected 100 7 true true nothing_published 0 (packets (hello ∷ [])) 200)
maintain_nat_wire-IsConsistent_example =
    maintain_nat_wire-IsConsistent connected 100 7 true true nothing_published 0
      (packets (hello ∷ [])) 200 connected-IsConsistent never-IsServed

abbrev quiet_round : Input
quiet_round = record {
  now = 100;
  config = none;
  saved = none;
  emitted = [];
  left = 0;
  joined = 0;
  restored = 0;
  wire_opens = true;
  node_address = 7;
  mapped_opens = true;
  mapped_binds = true;
  published = nothing_published;
  mapper_now = 0;
  mapped_poll = silent;
  wire_poll = poll_timeout;
  probe = 0;
  deadline = 200;
}

run_round-IsIdle_example : IsIdle in_network (run_round in_network quiet_round)
unfolding poll_network_selection maintain_wire_socket resumed resolve_configured_network_id reopen
run_round-IsIdle_example = run_round-IsIdle in_network quiet_round refl
