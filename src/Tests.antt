-- ===== src/Tests.antt =====
-- Concrete runs: the theorems applied to consoles that are set up by the program's own calls.
pub mod Packets
pub mod Shim
pub mod Service
pub mod Nat
pub mod Loop
pub mod Commands
pub mod Titles
use sys_grid.Base.{
  ℕ, zero, suc, ◌+◌, ◌<◌, ◌≤◌, ◌≡◌, ◌≢◌, refl, arith, true, false, not, ◌&&◌, ◌⊎◌, ◌↔◌, inl, none,
  some, [], ◌∷◌, length, ◌==◌, if◌then◌else◌, take, ◌*◌, ◌/◌, ◌%◌,
}
use sys_grid.Net.{Bytes, checksum16, mac_to_bytes, mac_from_bytes, fold_carries, rd16, byte_at}
use sys_grid.Net.Order.{mac_from_bytes-mac_to_bytes}
use sys_grid.Net.Checksum.{checksum16_seals, fold_ends}
use sys_grid.Lifetime.{process_list_confirms_exit, process_list_confirms_exit_iff}
use sys_grid.Vnet.{VNet, Pkt, Reasm, max_sockets, pool_packets, arp_entries, reasm_slots}
use sys_grid.Vnet.Address.{
  reset, configure, empty_socket, no_entry, no_counts, learn_mac, lookup_mac, find_mac,
  is_broadcast, is_for_us, pick_entry,
}
use sys_grid.Vnet.Address.Cache.{lookup_mac-learn_mac, find_mac-learn_mac_other, holds}
use sys_grid.Vnet.Sockets.{
  udp_open, udp_bind, udp_recv_from, udp_close, udp_readable, push_to_socket, fill_pkt, enqueue,
  is_open, find_unused, find_ephemeral, udp_local_port,
}
use sys_grid.Vnet.Sockets.Mailbox.{
  Mailboxes, Implements, Implements-SameTable, deliver, consume, discard,
}
use sys_grid.Vnet.Sockets.Push.{push_to_socket-Implements, datagram}
use sys_grid.Vnet.Sockets.Take.{udp_recv_from-Implements, udp_readable_lem}
use sys_grid.Vnet.Sockets.Free.{udp_close-Implements}
use sys_grid.Vnet.Sockets.Table.{udp_open-Implements, udp_open_full, udp_bind-Implements}
use sys_grid.Vnet.Sockets.Reset.{reset-Implements}
use sys_grid.Vnet.Sockets.Ephemeral.{find_ephemeral_lem, binds}
use sys_grid.Vnet.Sockets.Bind.{udp_bind-ephemeral}
use sys_grid.Vnet.Transmit.{ip_packet, udp_packet, send_fragments, udp_send_to}
use sys_grid.Vnet.Transmit.Header.{IsHeader, ip_packet_reads}
use sys_grid.Vnet.Transmit.Datagram.{IsDatagram, udp_packet_reads}
use sys_grid.Vnet.Receive.{on_frame, Fragment, find_slot, header_length, fragment_of}
use sys_grid.Vnet.Protocols.{on_udp, listens}
use sys_grid.Vnet.Receive.Demux.{on_udp-Implements, udp_intact, udp_content}
use sys_grid.Vnet.Receive.Ready.{IsReady}
use sys_grid.Vnet.Receive.Slots.{find_slot_lem, Found}
use sys_grid.Vnet.Receive.Accept.{Hears}
use sys_grid.Vnet.Pool.{alloc_pkt}
use sys_grid.Vnet.Run.{Call, run, run-reset-IsReady}
use sys_grid.Vnet.Delivery.{Sends, sent_frame, udp_send_to-reaches}

abbrev no_pkt : Pkt
no_pkt = record { len = 0; src_ip = 0; src_port = 0; next = none; content = [] }

abbrev pub no_slot : Reasm
no_slot = record {
  used = false;
  src_ip = 0;
  dst_ip = 0;
  id = 0;
  proto = 0;
  received = 0;
  full_size = 0;
  age = 0;
  buffer = λ i. 0;
}

-- An interface as it is constructed, with its emit callback set.
abbrev pub blank : VNet
blank = record {
  has_emit = true;
  emitted = [];
  configured = false;
  mac = 0;
  ip = 0;
  netmask = 0;
  mtu = 1500;
  echo_seq = 0;
  ip_id = 1;
  next_ephemeral = 49152;
  tick = 0;
  socks = λ i. record {
    used = false;
    broadcast = false;
    local_ip = 0;
    local_port = 0;
    q_head = some 0;
    q_tail = some 0;
    q_count = 0;
  };
  pool = λ i. no_pkt;
  free_list = some 0;
  arp = λ i. no_entry;
  reasm = λ i. no_slot;
  stats = no_counts;
}

-- 10.0.0.1 and 10.0.0.2 on a /24.
abbrev pub alice_ip : ℕ
alice_ip = 0x0a000001

abbrev pub bob_ip : ℕ
bob_ip = 0x0a000002

abbrev pub alice_mac : ℕ
alice_mac = 0x02aabbccdd01

abbrev pub bob_mac : ℕ
bob_mac = 0x02aabbccdd02

abbrev pub started : ℕ → ℕ → VNet
started mac ip = configure (reset blank) mac ip 0xffffff00 1500

abbrev pub bound : ℕ → ℕ → VNet
bound mac ip = (udp_bind (udp_open (started mac ip)).0 (some 0) 0 30000).0

abbrev pub alice : VNet
alice = learn_mac (bound alice_mac alice_ip) bob_ip bob_mac

abbrev pub bob : VNet
bob = bound bob_mac bob_ip

abbrev pub empty_boxes : Mailboxes
empty_boxes = record { boxes = λ s. []; spare = pool_packets }

abbrev pub hello : Bytes
hello = 104 ∷ 101 ∷ 108 ∷ 108 ∷ 111 ∷ []

abbrev pub opened : VNet
opened = (udp_open (reset blank)).0

pub opens_first : (udp_open (reset blank)).1 ≡ some 0
unfolding udp_open find_unused reset
opens_first = refl

pub opened-Implements : Implements opened empty_boxes
opened-Implements =
    (udp_open-Implements (reset blank) empty_boxes 0 opens_first (reset-Implements blank)).4

pub opened_open : is_open opened 0 ≡ true
unfolding udp_open find_unused reset
opened_open = refl

run-reset-IsReady_example : IsReady (run (reset blank) (Call.opens ∷ Call.binds (some 0) 0 0 ∷ []))
run-reset-IsReady_example = run-reset-IsReady blank (Call.opens ∷ Call.binds (some 0) 0 0 ∷ [])

push_to_socket-Implements_example :
    Implements
      (push_to_socket opened 0 bob_ip 30000 hello)
      (deliver empty_boxes 0 (datagram hello bob_ip 30000))
push_to_socket-Implements_example =
    push_to_socket-Implements opened empty_boxes 0 bob_ip 30000 hello (omega arith)
      (unfold udp_open find_unused reset in refl) opened-Implements

abbrev mailed : VNet
mailed = push_to_socket opened 0 bob_ip 30000 hello

abbrev one_letter : Mailboxes
one_letter = deliver empty_boxes 0 (datagram hello bob_ip 30000)

mailed_open : is_open mailed 0 ≡ true
unfolding udp_open find_unused reset push_to_socket alloc_pkt fill_pkt enqueue
mailed_open = refl

udp_recv_from-Implements_example :
    ((udp_recv_from mailed (some 0) 3 false).1
      ≡ some (record { content = 104 ∷ 101 ∷ 108 ∷ []; src_ip = bob_ip; src_port = 30000 }))
    × Implements (udp_recv_from mailed (some 0) 3 false).0 (consume one_letter 0)
udp_recv_from-Implements_example =
    udp_recv_from-Implements mailed one_letter 0 3 false mailed_open
      push_to_socket-Implements_example

udp_close-Implements_example : Implements (udp_close mailed (some 0)) (discard one_letter 0)
udp_close-Implements_example =
    udp_close-Implements mailed one_letter 0 mailed_open push_to_socket-Implements_example
