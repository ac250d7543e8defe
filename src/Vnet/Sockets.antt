-- ===== src/Vnet/Sockets.antt =====
-- The socket table: queues of received datagrams, and the calls of the bsd:u shim.
pub mod Layout
pub mod Mailbox
pub mod Push
pub mod Take
pub mod Free
pub mod Table
pub mod Ephemeral
pub mod Reset
pub mod Bind
use sys_grid.Base.{
  ℕ, zero, suc, ◌+◌, ◌-◌, ◌<◌, Bool, true, false, not, ◌&&◌, ◌||◌, Option, none, some, ◌==◌, ltb,
  min, if◌then◌else◌, update, length, take, u16, is_some,
}
use sys_grid.Net.{Bytes}
use sys_grid.Vnet.{VNet, Pkt, Socket, Index, max_sockets, max_datagram, pool_packets}
use sys_grid.Vnet.Stats.{drop_too_big, drop_no_buffer}
use sys_grid.Vnet.Address.{empty_socket}
use sys_grid.Vnet.Pool.{alloc_pkt, free_pkt, with_next}

-- The end of `pushToSocket`: packet `idx` goes behind the queue of `sock`.
unfoldable pub enqueue : VNet → ℕ → ℕ → VNet
enqueue v sock idx =
    let s = v.socks sock in
    elim s.q_tail [
      | none ↦ record v {
        socks =
            update v.socks sock
              (record s { q_head = some idx; q_tail = some idx; q_count = s.q_count + 1 });
      }
      | some tail ↦ record v {
        pool = with_next v.pool tail (some idx);
        socks = update v.socks sock (record s { q_tail = some idx; q_count = s.q_count + 1 });
      }
    ]

unfoldable pub fill_pkt : VNet → ℕ → ℕ → ℕ → Bytes → VNet
fill_pkt v idx src_ip src_port content = record v {
  pool = update v.pool idx (record {
    len = u16 (length content);
    src_ip = src_ip;
    src_port = src_port;
    next = none;
    content = content;
  });
}

unfoldable pub push_to_socket : VNet → ℕ → ℕ → ℕ → Bytes → VNet
push_to_socket v sock src_ip src_port content =
    if ltb max_datagram (length content)
    then drop_too_big v
    else let (v', slot) = alloc_pkt v in
      elim slot [
        | none ↦ drop_no_buffer v'
        | some idx ↦ enqueue (fill_pkt v' idx src_ip src_port content) sock idx
      ]

-- `vfd >= 0 && vfd < MaxSockets && m_socks[vfd].used`.
abbrev pub is_open : VNet → ℕ → Bool
is_open v i = ltb i max_sockets && (v.socks i).used

-- The first unused entry from `i` on, with `left` entries to go.
unfoldable pub find_unused : (ℕ → Socket) → ℕ → ℕ → Index
find_unused socks zero i = none
find_unused socks (suc left) i =
    let rest = find_unused socks left (suc i) in if (socks i).used then rest else some i

unfoldable pub udp_open : VNet → VNet × Index
udp_open v = elim (find_unused v.socks max_sockets 0) [
  | none ↦ (v, none)
  | some i ↦ (record v { socks = update v.socks i (record empty_socket { used = true }) }, some i)
]

-- Whether a socket is bound to `port`, from socket `i` on.
unfoldable pub port_taken : (ℕ → Socket) → ℕ → ℕ → ℕ → Bool
port_taken socks port zero i = false
port_taken socks port (suc left) i =
    ((socks i).used && (socks i).local_port == port) || port_taken socks port left (suc i)

abbrev pub after_ephemeral : ℕ → ℕ
after_ephemeral port = if u16 (port + 1) == 0 then 49152 else u16 (port + 1)

-- The loop over the candidates: the port that was found, 0 if none, and the next candidate.
unfoldable pub find_ephemeral : (ℕ → Socket) → ℕ → ℕ → ℕ × ℕ
find_ephemeral socks zero candidate = (0, candidate)
find_ephemeral socks (suc tries) candidate =
    let rest = find_ephemeral socks tries (after_ephemeral candidate) in
    if port_taken socks candidate max_sockets 0
    then rest
    else (candidate, after_ephemeral candidate)

abbrev bind_socket : VNet → ℕ → ℕ → ℕ → VNet
bind_socket v i ip port =
    let s = v.socks i in
    record v {
      socks =
          update v.socks i
            (record s { local_ip = if ip == v.ip then 0 else ip; local_port = port });
    }

abbrev bind_ephemeral : VNet → ℕ → ℕ → ℕ × ℕ → VNet × Bool
bind_ephemeral v i ip (port, next) =
    let v' = record v { next_ephemeral = next } in
    if port == 0 then (v', false) else (bind_socket v' i ip port, true)

-- `true` is the return value 0, `false` is -1.
unfoldable pub udp_bind : VNet → Index → ℕ → ℕ → VNet × Bool
udp_bind v none ip port = (v, false)
udp_bind v (some i) ip port =
    if not (is_open v i)
    then (v, false)
    else if port == 0
    then bind_ephemeral v i ip (find_ephemeral v.socks 4096 v.next_ephemeral)
    else (bind_socket v i ip port, true)

unfoldable pub udp_set_broadcast : VNet → Index → Bool → VNet
udp_set_broadcast v none on = v
udp_set_broadcast v (some i) on =
    let s = v.socks i in
    if is_open v i then record v { socks = update v.socks i (record s { broadcast = on }) } else v

unfoldable pub udp_local_port : VNet → Index → ℕ
udp_local_port v none = 0
udp_local_port v (some i) = if is_open v i then (v.socks i).local_port else 0

unfoldable pub udp_readable : VNet → Index → Bool
udp_readable v none = false
udp_readable v (some i) = is_open v i && ltb 0 (v.socks i).q_count

-- What `udpRecvFrom` hands out: the bytes in the buffer, as many as it returns, and the source.
pub record Datagram : Type 0 where
  pub content : Bytes
  pub src_ip : ℕ
  pub src_port : ℕ

abbrev pub view_pkt : Pkt → ℕ → Datagram
view_pkt pk limit = record {
  content = take (if ltb pk.len limit then pk.len else limit) pk.content;
  src_ip = pk.src_ip;
  src_port = pk.src_port;
}

-- `if (!peek) { … }`: the head `idx` leaves the queue of socket `i`.
unfoldable pub dequeue : VNet → ℕ → ℕ → VNet
dequeue v i idx =
    let s = v.socks i in
    let head = (v.pool idx).next in
    let tail = if is_some head then s.q_tail else none in
    free_pkt
      (record v {
        socks =
            update v.socks i (record s { q_head = head; q_tail = tail; q_count = s.q_count - 1 });
      })
      idx

unfoldable pub udp_recv_from : VNet → Index → ℕ → Bool → VNet × Option Datagram
udp_recv_from v none limit peek = (v, none)
udp_recv_from v (some i) limit peek =
    if not (is_open v i) then (v, none) else elim (v.socks i).q_head [
      | none ↦ (v, none)
      | some idx ↦ (if peek then v else dequeue v i idx, some (view_pkt (v.pool idx) limit))
    ]

-- `while (idx >= 0)`: every packet of a chain is freed. A chain has at most `pool_packets` packets.
unfoldable pub free_chain : ℕ → VNet → Index → VNet
free_chain fuel v none = v
free_chain zero v (some idx) = v
free_chain (suc fuel) v (some idx) = free_chain fuel (free_pkt v idx) (v.pool idx).next

unfoldable pub udp_close : VNet → Index → VNet
udp_close v none = v
udp_close v (some i) =
    if not (is_open v i)
    then v
    else let v' = free_chain pool_packets v (v.socks i).q_head in
      record v' { socks = update v'.socks i empty_socket }
