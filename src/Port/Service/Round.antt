-- ===== src/Port/Service/Round.antt =====
-- source/zt_port.cpp: the loop of the node thread, RunLoop, with HandleSleep and Finalize. What the system calls return is an argument. The callbacks that the node makes during
-- its calls are steps of their own, in Port/Service; status, heartbeat and the other logs are left out.
pub mod Idle
use sys_grid.Base.{
  ℕ, zero, suc, ◌+◌, Bool, true, false, not, ◌&&◌, ◌||◌, List, [], ◌∷◌, ◌++◌, Option, none, some,
  ◌==◌, ◌!=◌, leb, if◌then◌else◌,
}
use sys_grid.Net.{Bytes}
use sys_grid.Vnet.{Frame}
use sys_grid.Config.{Text}
use sys_grid.Nat.{Published}
use sys_grid.Port.{put_to_sleep, woken, maintain_wire_socket, wire_received, wire_hung_up}
use sys_grid.Port.Service.{
  Service, calling, unreachable, receive_packet, background, delete, poll_network_selection,
  subscribe_broadcast, drain_frames, probe_peer,
}
use sys_grid.Port.Service.MappedWire.{MappedPoll, close_nat_wire, maintain_nat_wire}

-- ---- HandleSleep ----

-- Up to `g_quiesced.Signal()`.
unfoldable pub go_to_sleep : Service → Service
go_to_sleep s = let closed = close_nat_wire s in record closed { wire = put_to_sleep closed.wire }

-- Behind `g_resumed.Wait()`. `answers` are those of the system calls.
unfoldable pub wake_up : Service → Bool → Bool → List (Bool × Bool) → Service
wake_up s opens binds answers = record s { wire = woken s.wire opens binds answers }

-- ---- RunLoop ----

-- What ::poll on the wire socket gives: an error or nothing; or events, with one that tells of a dead
-- socket or not, and with the packet that ::recvfrom gives, if there is one.
pub data WirePoll : Type 0 where
  poll_failed poll_timeout : WirePoll
  events : Bool → Option Bytes → WirePoll

abbrev pub hear : Service → Option Bytes → ℕ → Service
hear s none deadline = s
hear s (some p) deadline =
    calling (record s { wire = wire_received s.wire deadline }) (receive_packet 0 p)

-- ::poll is called only on an open socket.
unfoldable pub poll_wire : Service → WirePoll → ℕ → Service
poll_wire s poll_failed deadline = s
poll_wire s poll_timeout deadline = s
poll_wire s (events bad packet) deadline =
    let hung = if bad then record s { wire = wire_hung_up s.wire } else s in
    if not s.wire.has_fd then s else hear hung packet deadline

abbrev pub resubscribe : Service → Service
resubscribe s =
    if s.need_subscribe then subscribe_broadcast (record s { need_subscribe = false }) else s

unfoldable pub run_tasks : Service → ℕ → ℕ → Service
run_tasks s now deadline =
    if s.wire.has_fd && leb s.wire.next_deadline now
    then calling (record s { wire = record s.wire { next_deadline = deadline } }) (background now)
    else s

-- What the environment gives in one round: times, the two files, the frames that the game's threads
-- emit while the network is switched, what the node returns for leave and join, the answers of the sockets, what the mapper has published, and the deadlines that the node
-- sets.
pub record Input : Type 0 where
  pub now : ℕ
  pub config : Option Text
  pub saved : Option Text
  pub emitted : List Frame
  pub left : ℕ
  pub joined : ℕ
  pub restored : ℕ
  pub wire_opens : Bool
  pub node_address : ℕ
  pub mapped_opens : Bool
  pub mapped_binds : Bool
  pub published : Published
  pub mapper_now : ℕ
  pub mapped_poll : MappedPoll
  pub wire_poll : WirePoll
  pub probe : ℕ
  pub deadline : ℕ

-- The first half: the selection, and the two sockets. The mapped socket is closed with the wire's when
-- maintainWireSocket pauses.
unfoldable pub run_sockets : Service → Input → Service
run_sockets s i =
    let selected =
      poll_network_selection s i.now i.config i.saved i.emitted i.left i.joined i.restored in
    let wired = record selected { wire = maintain_wire_socket selected.wire i.now i.wire_opens } in
    let paused = selected.wire.has_fd && not wired.wire.has_fd in
    let maintained = if paused then close_nat_wire wired else wired in
    maintain_nat_wire maintained i.now i.node_address i.mapped_opens i.mapped_binds i.published
      i.mapper_now i.mapped_poll i.deadline

-- One round of the loop in which no sleep is requested.
unfoldable pub run_round : Service → Input → Service
run_round s i =
    let heard = poll_wire (run_sockets s i) i.wire_poll i.deadline in
    let drained = drain_frames (resubscribe heard) i.deadline in
    run_tasks (probe_peer drained i.now i.probe) i.now i.deadline

unfoldable pub finalize : Service → Service
finalize s =
    let closed = unreachable (close_nat_wire s) in
    let gone =
      if closed.has_node then record (calling closed delete) { has_node = false } else closed in
    record gone { wire = record gone.wire { has_fd = false } }
