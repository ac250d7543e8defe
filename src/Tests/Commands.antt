-- ===== src/Tests/Commands.antt =====
-- Concrete runs of the commands of bsd:u.
use sys_grid.Base.{
  ℕ, ◌+◌, ◌≡◌, ◌<◌, ◌≤◌, refl, arith, true, false, ◌&&◌, ◌||◌, Option, none, some, [], ◌∷◌, update,
  drop, map, All, zero, suc, if◌then◌else◌, List, replicate,
}
use sys_grid.Net.{Bytes, byte_at}
use sys_grid.Vnet.Address.{configure, reset, learn_mac}
use sys_grid.Vnet.Sockets.{udp_open, udp_bind, udp_readable, push_to_socket, find_unused}
use sys_grid.Vnet.Transmit.{udp_send_to}
use sys_grid.Bsd.Lan.{
  Shim, no_socket, find_lan_socket, find_lan, get_lan_vfd, is_overlay_destination,
  lan_socket_readable,
}
use sys_grid.Bsd.Lan.Sending.{name_ip, name_port}
use sys_grid.Bsd.Message.Layout.{encode}
use sys_grid.Bsd.Service.{zero_answer}
use sys_grid.Bsd.Service.Connected.{connect, send, get_peer_name}
use sys_grid.Bsd.Service.Address.{
  IsConnectable, Follows, in_subnet, connect-get_peer_name, connect-send,
}
use sys_grid.Bsd.Service.Sending.{mirror_mmsg_buffer}
use sys_grid.Bsd.Service.Sending.Vector.{decode, send_decoded, sent_of, mirror_mmsg_buffer-Vector}
use sys_grid.Bsd.Service.Waiting.{
  select_timeout, PollFd, PollResult, poll, poll_limit, watches, ready_now, Timeval, SelectResult,
  select, scan_fds, fd_is_set,
}
use sys_grid.Bsd.Service.Waiting.Polled.{with_virtual, ready_count, poll-Merged}
use sys_grid.Bsd.Service.Waiting.Selected.{count_fds, in_range, readable_on, select-Merged}
use sys_grid.Tests.{alice, bob_ip, hello}

-- A game with descriptor 3 mirrored by the first virtual socket of Alice's console.
abbrev playing : Shim
playing = record {
  table =
      update (λ i. no_socket) 0
        (record no_socket {
          pid = 7;
          bsd_fd = some 3;
          vnet_fd = some 0;
          bound_port = 30000;
          udp = true;
          mirrored = true;
        });
  has_port = true;
  net = alice;
}

-- 10.0.0.2, port 30000.
abbrev bob_address : Bytes
bob_address = 16 ∷ 2 ∷ 117 ∷ 48 ∷ 10 ∷ 0 ∷ 0 ∷ 2 ∷ []

bounded : (p : Bytes) (n : ℕ) → 0 < n → All (λ b. b < n) p → (k : ℕ) → byte_at p k < n
bounded [] n h all k = h
bounded (b ∷ p) n h all zero = all.0
bounded (b ∷ p) n h all (suc k) = bounded p n h all.1 k

bob_address-bytes : (k : ℕ) → byte_at bob_address k < 256
bob_address-bytes k = bounded bob_address 256 (omega arith) (omega arith) k

playing-IsConnectable : IsConnectable playing 7 3 0 0 bob_address
playing-IsConnectable = record {
  found = unfold find_lan_socket find_lan in refl;
  udp = refl;
  mirrored = refl;
  virtual = refl;
  long = omega arith;
  family = refl;
  inside =
      unfold is_overlay_destination configure reset udp_open udp_bind find_unused learn_mac in refl;
  bytes = bob_address-bytes;
}

connect-get_peer_name_example :
    let o = connect playing 7 (some 3) bob_address none in
    let n = get_peer_name o.shim 7 (some 3) 16 none in
    (o.forwarded ≡ false)
    × (o.reply ≡ some zero_answer)
    × (n.forwarded ≡ false)
    × (n.reply ≡ some zero_answer)
    × (n.address ≡ some (16 ∷ 2 ∷ 117 ∷ 48 ∷ 10 ∷ 0 ∷ 0 ∷ 2 ∷ replicate 8 0))
connect-get_peer_name_example =
    connect-get_peer_name playing 7 3 0 0 bob_address none 16 none playing-IsConnectable
      (omega arith)

connect-send_example :
    Follows
      (send (connect playing 7 (some 3) bob_address none).shim 7 (some 3) hello none)
      (if in_subnet playing (name_ip bob_address)
        then udp_send_to alice (some 0) (name_ip bob_address) (name_port bob_address) hello
        else (alice, false))
      hello
      none
connect-send_example =
    connect-send playing 7 3 0 0 bob_address hello none none playing-IsConnectable

-- One message, to Bob.
abbrev vector : Bytes
vector = 0 ∷ encode bob_address (hello ∷ []) [] 0 0 []

mirror_mmsg_buffer-Vector_example :
    let o = mirror_mmsg_buffer playing 7 (some 3) 1 vector in
    (o ≡ send_decoded playing (decode 1 playing 7 (some 3) (drop 1 vector))) × (sent_of o.1 ≤ 1)
mirror_mmsg_buffer-Vector_example =
    mirror_mmsg_buffer-Vector playing 7 (some 3) 1 vector refl (omega arith) (omega arith)
      (omega arith)

-- A datagram has arrived.
abbrev waiting_game : Shim
waiting_game = record playing { net = push_to_socket alice 0 bob_ip 30000 hello }

abbrev asked_fds : List PollFd
asked_fds = record { fd = some 3; events = 1; revents = 0 } ∷ []

-- The datagram arrives while the console's service waits.
abbrev quiet_poll : Option ℕ → Option (Shim × PollResult)
quiet_poll limit = some (waiting_game, (record { ret = some 0; err = 0 }, asked_fds))

watched_poll : watches playing 7 asked_fds ≡ true
unfolding watches get_lan_vfd find_lan_socket find_lan
watched_poll = refl

poll-Merged_example :
    let merged = map (with_virtual waiting_game 7) asked_fds in
    (poll playing 7 1 1 none asked_fds quiet_poll
      ≡ some (record { ret = some (ready_count merged); err = 0 }, merged))
    × ((ms : ℕ) × (poll_limit playing 7 1 none asked_fds
          ≡ some (if ready_now playing 7 asked_fds then 0 else ms))
        × (ms ≤ 10))
poll-Merged_example =
    poll-Merged playing waiting_game 7 1 1 none asked_fds asked_fds 0 quiet_poll watched_poll refl
      (omega arith)

-- Descriptor 3 in a set of one byte.
abbrev asked_set : Bytes
asked_set = 8 ∷ []

abbrev quiet_select : Option Timeval → Option (Shim × SelectResult)
quiet_select limit = some (waiting_game, (record { ret = some 0; err = 0 }, 0 ∷ []))

watched_select : (scan_fds 4 0 playing 7 asked_set false).0 ≡ true
unfolding scan_fds get_lan_vfd find_lan_socket find_lan fd_is_set lan_socket_readable udp_readable
    udp_open udp_bind find_unused configure reset learn_mac
watched_select = refl

select-Merged_example :
    (merged : ℕ) × (set : Bytes) × (select playing 7 4 none asked_set quiet_select
      ≡ some (record { ret = some merged; err = 0 }, set))
    × (merged + count_fds 4 0 (0 ∷ []) ≡ 0 + count_fds 4 0 set)
    × ((fd : ℕ)
        → fd_is_set fd set
          ≡ (in_range 0 4 fd && readable_on waiting_game 7 asked_set fd || fd_is_set fd (0 ∷ [])))
    × ((us : ℕ) × (select_timeout (scan_fds 4 0 playing 7 asked_set false) none
          ≡ some (record {
            seconds = 0;
            microseconds = if (scan_fds 4 0 playing 7 asked_set false).1 then 0 else us;
          }))
        × (us ≤ 10000))
select-Merged_example =
    select-Merged playing waiting_game 7 4 none asked_set (0 ∷ []) 0 0 quiet_select watched_select
      refl (omega arith)
