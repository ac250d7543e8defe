-- ===== src/Vnet.antt =====
-- source/net/vnet.hpp: the state of the virtual network interface. The children hold its
-- operations (source/net/vnet.cpp) and their theorems.
pub mod Stats
pub mod Address
pub mod Pool
pub mod Sockets
pub mod Transmit
pub mod Protocols
pub mod Receive
pub mod Run
pub mod Delivery
pub mod Resolution
use sys_grid.Base.{ℕ, Bool, true, false, Option, none, some, List, []}
use sys_grid.Net.{Bytes}

abbrev pub max_sockets : ℕ
max_sockets = 8

abbrev pub pool_packets : ℕ
pool_packets = 32

abbrev pub max_datagram : ℕ
max_datagram = 2048

abbrev pub arp_entries : ℕ
arp_entries = 16

abbrev pub reasm_slots : ℕ
reasm_slots = 4

abbrev pub reasm_max : ℕ
reasm_max = 2176

abbrev pub max_frame : ℕ
max_frame = 1520

-- An `int` that is an index or -1: `none` is every negative number.
abbrev pub Index : Type 0
Index = Option ℕ

pub record Counters : Type 0 where
  pub rx_frames : ℕ
  pub rx_ip : ℕ
  pub rx_udp : ℕ
  pub rx_arp : ℕ
  pub rx_icmp : ℕ
  pub tx_frames : ℕ
  pub tx_udp : ℕ
  pub tx_arp : ℕ
  pub tx_icmp : ℕ
  pub drop_not_for_us : ℕ
  pub drop_bad_checksum : ℕ
  pub drop_no_socket : ℕ
  pub drop_no_buffer : ℕ
  pub drop_too_big : ℕ
  pub drop_malformed : ℕ
  pub drop_reasm : ℕ
  pub last_no_socket_src_ip : ℕ
  pub last_no_socket_src_port : ℕ
  pub last_no_socket_dst_port : ℕ
  pub last_no_socket_len : ℕ

-- `Pkt`: `content` is the first `len` bytes of its buffer.
pub record Pkt : Type 0 where
  pub len : ℕ
  pub src_ip : ℕ
  pub src_port : ℕ
  pub next : Index
  pub content : Bytes

pub record Socket : Type 0 where
  pub used : Bool
  pub broadcast : Bool
  pub local_ip : ℕ
  pub local_port : ℕ
  pub q_head : Index
  pub q_tail : Index
  pub q_count : ℕ

pub record ArpEntry : Type 0 where
  pub ip : ℕ
  pub mac : ℕ
  pub last_used : ℕ

-- `buffer` is the array that the fragments are copied into.
pub record Reasm : Type 0 where
  pub used : Bool
  pub src_ip : ℕ
  pub dst_ip : ℕ
  pub id : ℕ
  pub proto : ℕ
  pub received : ℕ
  pub full_size : ℕ
  pub age : ℕ
  pub buffer : ℕ → ℕ

-- A call of the emit callback: the arguments that ZeroTier is handed.
pub record Frame : Type 0 where
  pub dst_mac : ℕ
  pub ether_type : ℕ
  pub payload : Bytes

-- `VNet`. `has_emit` says that `m_emit` is set, and `emitted` is the sequence of its calls.
pub record VNet : Type 0 where
  pub has_emit : Bool
  pub emitted : List Frame
  pub configured : Bool
  pub mac : ℕ
  pub ip : ℕ
  pub netmask : ℕ
  pub mtu : ℕ
  pub echo_seq : ℕ
  pub ip_id : ℕ
  pub next_ephemeral : ℕ
  pub tick : ℕ
  pub socks : ℕ → Socket
  pub pool : ℕ → Pkt
  pub free_list : Index
  pub arp : ℕ → ArpEntry
  pub reasm : ℕ → Reasm
  pub stats : Counters
