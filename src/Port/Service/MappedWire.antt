-- ===== src/Port/Service/MappedWire.antt =====
-- source/zt_port.cpp: closeNatWire and maintainNatWire: the second socket, whose port the NAT mapper
-- maps, and the address that the node is told to announce.
pub mod Surface
use sys_grid.Base.{
  ℕ, zero, suc, ◌+◌, ◌%◌, Bool, true, false, not, ◌&&◌, ◌||◌, List, [], ◌∷◌, ◌++◌, ◌==◌, ◌!=◌, leb,
  if◌then◌else◌, take,
}
use sys_grid.Net.{Bytes}
use sys_grid.Nat.{Endpoint, Published, configure_nat_mapper, get_nat_endpoint}
use sys_grid.Port.{wire_received}
use sys_grid.Port.Service.{Service, Mapped, calling, clear_addresses, add_address, receive_packet}

unfoldable pub close_nat_wire : Service → Service
close_nat_wire s =
    let told = s.has_node && (s.mapped.address != 0 || s.mapped.public_port != 0) in
    let closed = record s {
      mapped = record s.mapped {
        desired = configure_nat_mapper s.mapped.desired 0;
        has_fd = false;
        port = 0;
        address = 0;
        public_port = 0;
      };
    } in
    if told then calling closed clear_addresses else closed

-- The port is fixed by the node's address.
abbrev pub mapped_port : ℕ → ℕ
mapped_port node_address = 20000 + node_address % 40000

-- `opens` and `binds` are what ::socket and ::bind return.
unfoldable pub open_mapped : Service → ℕ → ℕ → Bool → Bool → Service
open_mapped s now node_address opens binds =
    let tried = record s { mapped = record s.mapped { retry_at = now + 30000 } } in
    if not (not s.mapped.has_fd && s.wire.reachable && leb s.mapped.retry_at now)
    then s
    else if not (opens && binds)
    then tried
    else record s {
      mapped = record s.mapped {
        retry_at = now + 30000;
        has_fd = true;
        port = mapped_port node_address;
        socket_id = s.mapped.socket_id + 1;
        desired = configure_nat_mapper s.mapped.desired (mapped_port node_address);
      };
    }

unfoldable pub tell_endpoint : Service → Endpoint → Service
tell_endpoint s e =
    let cleared = calling s clear_addresses in
    let known = record cleared {
      mapped = record s.mapped { address = e.address; public_port = e.port };
    } in
    if e.address == s.mapped.address && e.port == s.mapped.public_port
    then s
    else if s.mapped.has_fd && (e.address != 0 && e.port != 0)
    then calling known (add_address e.address e.port)
    else known

-- The packets that the node is handed.
unfoldable pub receive_all : Service → ℕ → List Bytes → Service
receive_all s deadline [] = s
receive_all s deadline (p ∷ ps) =
    receive_all
      (calling (record s { wire = wire_received s.wire deadline })
        (receive_packet s.mapped.socket_id p))
      deadline ps

-- What ::poll reports of the mapped socket: nothing, an error, or the packets that ::recvfrom gives until
-- it has none.
pub data MappedPoll : Type 0 where
  silent broken : MappedPoll
  packets : List Bytes → MappedPoll

-- A burst is of 16 packets at most.
abbrev pub after_poll : Service → ℕ → MappedPoll → Service
after_poll s deadline silent = s
after_poll s deadline broken = close_nat_wire s
after_poll s deadline (packets ps) = receive_all s deadline (take 16 ps)

-- `published` is what the mapper's worker has published, and `mapper_now` the mapper's clock.
unfoldable pub maintain_nat_wire :
    Service → ℕ → ℕ → Bool → Bool → Published → ℕ → MappedPoll → ℕ → Service
maintain_nat_wire s now node_address opens binds published mapper_now poll deadline =
    let opened = open_mapped s now node_address opens binds in
    let told = tell_endpoint opened (get_nat_endpoint published opened.mapped.desired mapper_now) in
    if not s.mapped.enabled
    then s
    else if not s.wire.has_fd
    then close_nat_wire s
    else if not told.mapped.has_fd
    then told
    else after_poll told deadline poll
