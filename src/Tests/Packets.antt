-- ===== src/Tests/Packets.antt =====
-- Concrete runs of the interface: packets, ports, the ARP cache, reassembly, and delivery.
use sys_grid.Base.{
  ℕ, zero, suc, ◌+◌, ◌<◌, ◌≤◌, ◌≡◌, refl, arith, true, false, not, inl, none, some, [], ◌∷◌, ◌++◌,
  length, List, map, ◌==◌, if◌then◌else◌, take, ◌*◌, ◌/◌, ◌%◌,
}
use sys_grid.Net.{mac_broadcast, ether_type_arp, Bytes, checksum16, rd16, byte_at}
use sys_grid.Net.Checksum.{checksum16_seals}
use sys_grid.Vnet.{VNet, Reasm, max_sockets, reasm_slots}
use sys_grid.Vnet.Address.{
  reset, configure, empty_socket, learn_mac, lookup_mac, find_mac, is_broadcast, is_for_us,
  pick_entry,
}
use sys_grid.Vnet.Sockets.{udp_open, udp_bind, find_unused, udp_local_port}
use sys_grid.Vnet.Sockets.Mailbox.{Implements, Implements-SameTable}
use sys_grid.Vnet.Sockets.Push.{datagram}
use sys_grid.Vnet.Sockets.Table.{udp_open-Implements, udp_bind-Implements}
use sys_grid.Vnet.Sockets.Reset.{reset-Implements}
use sys_grid.Vnet.Sockets.Ephemeral.{binds}
use sys_grid.Vnet.Sockets.Bind.{udp_bind-ephemeral}
use sys_grid.Vnet.Transmit.{send_ipv4, send_arp_request, ip_packet, udp_packet, udp_send_to}
use sys_grid.Vnet.Transmit.Header.{IsHeader, ip_packet_reads}
use sys_grid.Vnet.Transmit.Datagram.{IsDatagram, udp_packet_reads}
use sys_grid.Vnet.Transmit.Split.{Piece, Covers, frame_of, send_ipv4-Covers}
use sys_grid.Vnet.Receive.{on_frame, Fragment, find_slot, header_length, fragment_of}
use sys_grid.Vnet.Protocols.{on_arp, on_udp, listens}
use sys_grid.Vnet.Receive.Demux.{on_udp-Implements, udp_intact, udp_content, served}
use sys_grid.Vnet.Receive.Slots.{find_slot-evicts, LeftBehind, Chosen, find_slot-Chosen}
use sys_grid.Vnet.Receive.Accept.{Hears}
use sys_grid.Vnet.Resolution.{Speaks, request_of, reply_of, send_arp_request-resolves}
use sys_grid.Vnet.Delivery.{Sends, sent_frame, udp_send_to-reaches}
use sys_grid.Tests.{
  hello, alice_ip, alice_mac, bob_ip, started, blank, alice, bob, empty_boxes, opened,
  opened-Implements, bob_mac, no_slot, opened_open,
}

abbrev letter : Bytes
letter = udp_packet bob_ip alice_ip 30000 30000 hello

on_udp-Implements_example : Implements (on_udp opened bob_ip alice_ip letter) (
    if udp_intact bob_ip alice_ip letter
    then served (listens opened alice_ip (rd16 letter 2)) empty_boxes (udp_content letter bob_ip)
    else empty_boxes)
on_udp-Implements_example =
    on_udp-Implements opened empty_boxes bob_ip alice_ip letter opened-Implements

-- An interface whose eight sockets are all open.
abbrev crowded : VNet
crowded = record blank { socks = λ i. record empty_socket { used = true } }

udp_bind-ephemeral_example :
    let (w, done) = udp_bind opened (some 0) 0 0 in
    let port = udp_local_port w (some 0) in
    (done ≡ true)
    × (49152 ≤ port)
    × (port < 65536)
    × ((j : ℕ) → j < max_sockets → binds opened.socks port j ≡ false)
udp_bind-ephemeral_example =
    udp_bind-ephemeral opened 0 0 opened_open (unfold udp_open find_unused reset in omega arith)
      (unfold udp_open find_unused reset in omega arith)

checksum16_seals_example :
    let c = checksum16 (0x45 ∷ 0 ∷ 0 ∷ 0 ∷ 10 ∷ 1 ∷ []) 0 in
    checksum16 (0x45 ∷ 0 ∷ c / 256 ∷ c % 256 ∷ 10 ∷ 1 ∷ []) 0 ≡ 0
checksum16_seals_example =
    checksum16_seals (0x45 ∷ 0 ∷ []) (10 ∷ 1 ∷ []) 0 (omega arith) (omega arith) refl (omega arith)

abbrev wide : ℕ
wide = 0xffffffff

abbrev pid : ℕ
pid = 7

sample-IsHeader : IsHeader alice_ip bob_ip 17 1 3 hello
sample-IsHeader = record {
  src_range = omega arith;
  dst_range = omega arith;
  proto_range = omega arith;
  id_range = omega arith;
  blocks_range = omega arith;
  fits = omega arith;
  bytes = omega arith;
}

abbrev sample : Bytes
sample = ip_packet alice_ip bob_ip 17 1 3 true hello

ip_packet_reads_example :
    (length sample ≡ 25)
    × (header_length sample ≡ 20)
    × (byte_at sample 0 / 16 ≡ 4)
    × (checksum16 (take 20 sample) 0 ≡ 0)
    × (rd16 sample 2 ≡ 25)
    × (fragment_of sample ≡ record {
      src_ip = alice_ip;
      dst_ip = bob_ip;
      proto = 17;
      id = 1;
      offset = 24;
      more = true;
      payload = hello;
    })
ip_packet_reads_example = ip_packet_reads alice_ip bob_ip 17 1 3 true hello sample-IsHeader

greeting-IsDatagram : IsDatagram alice_ip bob_ip 30000 30000 hello
greeting-IsDatagram = record {
  src_range = omega arith;
  dst_range = omega arith;
  src_port_range = omega arith;
  dst_port_range = omega arith;
  fits = omega arith;
  bytes = omega arith;
}

abbrev greeting : Bytes
greeting = udp_packet alice_ip bob_ip 30000 30000 hello

udp_packet_reads_example :
    (udp_intact alice_ip bob_ip greeting ≡ true)
    × (rd16 greeting 2 ≡ 30000)
    × (udp_content greeting alice_ip ≡ datagram hello alice_ip 30000)
udp_packet_reads_example = udp_packet_reads alice_ip bob_ip 30000 30000 hello greeting-IsDatagram

-- A payload that needs two packets of 28 bytes.
abbrev narrow : VNet
narrow = record alice { mtu = 28 }

abbrev long_payload : Bytes
long_payload = hello ++ hello

send_ipv4-Covers_example :
    (ps : List Piece) × ((send_ipv4 narrow bob_ip 17 long_payload).emitted
      ≡ narrow.emitted
        ++ map (frame_of narrow.ip (lookup_mac narrow bob_ip) bob_ip 17 narrow.ip_id) ps)
    × Covers 8 0 long_payload ps
unfolding learn_mac pick_entry udp_bind udp_open find_unused configure reset lookup_mac is_broadcast
    find_mac
send_ipv4-Covers_example =
    send_ipv4-Covers narrow bob_ip 17 long_payload refl (omega arith) (omega arith) (omega arith)
      (omega arith) (omega arith)

-- A slot with a packet is evicted beside one that is free. Slot 0 was released at tick 100; the others hold packets of the ticks 50, 60 and 70.
abbrev ages : ℕ → ℕ
ages zero = 100
ages (suc i) = 50 + i * 10

abbrev slots : ℕ → Reasm
slots i = record no_slot { used = not (i == 0); age = ages i; id = 1 }

abbrev piece : Fragment
piece = record {
  src_ip = bob_ip;
  dst_ip = alice_ip;
  proto = 17;
  id = 9;
  offset = 0;
  more = true;
  payload = hello;
}

slots-LeftBehind : LeftBehind slots piece
slots-LeftBehind = record {
  free = refl;
  busy = λ i h. ground arith;
  stale = omega arith;
  second = omega arith;
  third = omega arith;
  new = λ i. ground arith;
}

evicted_beside_free :
    (find_slot slots piece reasm_slots 0 0 ≡ (none, 1))
    × ((slots 1).used ≡ true)
    × ((slots 0).used ≡ false)
evicted_beside_free = find_slot-evicts slots piece slots-LeftBehind

-- Four packets that are being put together; the one of slot 2 is the oldest.
abbrev busy_ages : ℕ → ℕ
busy_ages i = if i == 2 then 40 else 70 + i

abbrev busy_slots : ℕ → Reasm
busy_slots i = record no_slot { used = true; age = busy_ages i; id = 1 }

find_slot-Chosen_example : Chosen busy_slots piece (find_slot busy_slots piece reasm_slots 0 0)
find_slot-Chosen_example = find_slot-Chosen busy_slots piece (λ i h. refl)

alice-Sends : Sends alice 0 bob_ip 30000 hello
unfolding learn_mac pick_entry udp_bind udp_open find_unused configure reset lookup_mac is_broadcast
    find_mac
alice-Sends = record {
  opened = refl;
  configured = refl;
  connected = refl;
  bound = omega arith;
  known = omega arith;
  one_piece = omega arith;
  mtu_high = omega arith;
  id_range = omega arith;
  datagram = record {
    src_range = omega arith;
    dst_range = omega arith;
    src_port_range = omega arith;
    dst_port_range = omega arith;
    fits = omega arith;
    bytes = omega arith;
  };
}

bob_opens : (udp_open (started bob_mac bob_ip)).1 ≡ some 0
unfolding udp_open find_unused configure reset
bob_opens = refl

bob-Implements : Implements bob empty_boxes
bob-Implements =
    let fresh =
      Implements-SameTable (reset blank) (started bob_mac bob_ip) empty_boxes
        (unfold configure in (refl, refl, refl)) (reset-Implements blank) in
    udp_bind-Implements (udp_open (started bob_mac bob_ip)).0 empty_boxes 0 0 30000
      (udp_open-Implements (started bob_mac bob_ip) empty_boxes 0 bob_opens fresh).4

bob-Hears : Hears bob empty_boxes (lookup_mac alice bob_ip) bob_ip
unfolding learn_mac pick_entry udp_bind udp_open find_unused configure reset lookup_mac is_broadcast
    is_for_us find_mac
bob-Hears = record {
  implements = bob-Implements;
  configured = refl;
  to_us = refl;
  addressed = inl refl;
}

udp_send_to-reaches_example :
    let f = sent_frame alice 0 bob_ip 30000 hello in
    ((udp_send_to alice (some 0) bob_ip 30000 hello).0.emitted ≡ f ∷ [])
    × Implements
        (on_frame bob alice_mac f.dst_mac f.ether_type (some f.payload))
        (served (listens bob bob_ip 30000) empty_boxes (datagram hello alice_ip 30000))
unfolding udp_bind udp_open find_unused configure reset learn_mac pick_entry
udp_send_to-reaches_example =
    udp_send_to-reaches alice bob empty_boxes 0 bob_ip 30000 hello alice-Sends bob-Hears

alice-Speaks : Speaks (started alice_mac alice_ip)
unfolding reset configure
alice-Speaks = record {
  connected = refl;
  mac_given = omega arith;
  mac_range = omega arith;
  unicast = omega arith;
  ip_given = omega arith;
  ip_range = omega arith;
}

bob-Speaks : Speaks (started bob_mac bob_ip)
unfolding reset configure
bob-Speaks = record {
  connected = refl;
  mac_given = omega arith;
  mac_range = omega arith;
  unicast = omega arith;
  ip_given = omega arith;
  ip_range = omega arith;
}

bob_directed : is_broadcast (started alice_mac alice_ip) bob_ip ≡ false
unfolding is_broadcast reset configure
bob_directed = refl

send_arp_request-resolves_example :
    ((send_arp_request (started alice_mac alice_ip) bob_ip).emitted
      ≡ (started alice_mac alice_ip).emitted
        ++ record {
          dst_mac = mac_broadcast;
          ether_type = ether_type_arp;
          payload = request_of (started alice_mac alice_ip) bob_ip;
        }
          ∷ [])
    × ((on_arp
          (started bob_mac bob_ip)
          alice_mac
          (request_of (started alice_mac alice_ip) bob_ip)).emitted
        ≡ (started bob_mac bob_ip).emitted
          ++ reply_of (started bob_mac bob_ip) (started alice_mac alice_ip) ∷ [])
    × (lookup_mac
          (on_arp
            (started alice_mac alice_ip)
            bob_mac
            (reply_of (started bob_mac bob_ip) (started alice_mac alice_ip)).payload)
          bob_ip
        ≡ bob_mac)
unfolding reset configure
send_arp_request-resolves_example =
    send_arp_request-resolves (started alice_mac alice_ip) (started bob_mac bob_ip) alice-Speaks
      bob-Speaks bob_directed
