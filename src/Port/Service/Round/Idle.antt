-- ===== src/Port/Service/Round/Idle.antt =====
-- What the service loop leaves alone while the wire socket is closed.
use sys_grid.Base.{
  ℕ, zero, suc, ◌+◌, ◌≡◌, refl, ap, ◌∙◌, arith, Bool, true, false, not, ◌&&◌, ◌||◌, List, [], ◌∷◌,
  ◌++◌, append-nil, Option, leb, if◌then◌else◌, inl, inr, Option-cases,
}
use sys_grid.Vnet.{Frame}
use sys_grid.Config.{Text}
use sys_grid.Config.Saved.{resolve_configured_network_id}
use sys_grid.Port.{maintain_wire_socket}
use sys_grid.Port.Service.{
  Service, Call, join, leave, subscribe, send_frame, receive_packet, background, clear_addresses,
  switch_network, poll_network_selection, subscribe_broadcast, drain_frames, probe_peer,
}
use sys_grid.Port.Queue.{Queue, take_frame, drain, drain_outbound}
use sys_grid.Port.Service.MappedWire.{close_nat_wire, maintain_nat_wire}
use sys_grid.Port.Service.Round.{
  WirePoll, poll_failed, poll_timeout, events, Input, run_sockets, run_round, poll_wire,
  resubscribe, run_tasks,
}

-- The calls that carry packets of the wire, frames of the game, or the node's own tasks.
abbrev pub traffic : List Call → ℕ
traffic [] = 0
traffic (send_frame n m f ∷ cs) = suc (traffic cs)
traffic (receive_packet i p ∷ cs) = suc (traffic cs)
traffic (background t ∷ cs) = suc (traffic cs)
traffic (c ∷ cs) = traffic cs

-- The socket of `t` is closed, and its traffic is that of `s`.
pub record IsIdle (s t : Service) : Type 0 where
  pub no_fd : t.wire.has_fd ≡ false
  pub no_traffic : traffic t.calls ≡ traffic s.calls

IsIdle-self : (s : Service) → s.wire.has_fd ≡ false → IsIdle s s
IsIdle-self s down = record { no_fd = down; no_traffic = refl }

IsIdle-then : (s x y : Service) (c : Bool) → c ≡ true → IsIdle s x → IsIdle s (if c then x else y)
IsIdle-then s x y true e v = v
IsIdle-then s x y false e v = cc

IsIdle-else : (s x y : Service) (c : Bool) → c ≡ false → IsIdle s y → IsIdle s (if c then x else y)
IsIdle-else s x y true e v = cc
IsIdle-else s x y false e v = v

IsIdle-if : (s x y : Service) (c : Bool) → IsIdle s x → IsIdle s y → IsIdle s (if c then x else y)
IsIdle-if s x y true v w = v
IsIdle-if s x y false v w = w

-- One part of a round behind another.
IsIdle-trans : {s t u : Service} → IsIdle s t → IsIdle t u → IsIdle s u
IsIdle-trans v w = record { no_fd = w.no_fd; no_traffic = w.no_traffic ∙ v.no_traffic }

traffic-snoc : (cs : List Call) (c : Call) → traffic (cs ++ c ∷ []) ≡ traffic cs + traffic (c ∷ [])
traffic-snoc [] c = omega arith
traffic-snoc (send_frame n m f ∷ cs) c = omega (arith, traffic-snoc cs c)
traffic-snoc (receive_packet i p ∷ cs) c = omega (arith, traffic-snoc cs c)
traffic-snoc (background t ∷ cs) c = omega (arith, traffic-snoc cs c)
traffic-snoc (_ ∷ cs) c = omega (arith, traffic-snoc cs c)

switch_network-traffic :
    (s : Service) (id : ℕ) (emitted : List Frame) (left joined restored : ℕ)
    → traffic (switch_network s id emitted left joined restored).0.calls ≡ traffic s.calls
unfolding switch_network
switch_network-traffic s id emitted left joined restored =
    let one = traffic-snoc s.calls (leave s.nwid) in
    let two = traffic-snoc (s.calls ++ leave s.nwid ∷ []) (join id) in
    let three = traffic-snoc ((s.calls ++ leave s.nwid ∷ []) ++ join id ∷ []) (join s.nwid) in
    ground arith

poll_network_selection-traffic :
    (s : Service) (now : ℕ) (config saved : Option Text) (emitted : List Frame)
    (left joined restored : ℕ)
    → traffic (poll_network_selection s now config saved emitted left joined restored).calls
      ≡ traffic s.calls
unfolding poll_network_selection
poll_network_selection-traffic s now config saved emitted left joined restored =
    elim (Option-cases (resolve_configured_network_id config saved)) [
      | inl none_ ↦ rw none_ (ground arith)
      | inr (id, found) ↦
          let same =
            switch_network-traffic (record s { last_network_poll = now }) id emitted left joined
              restored in
          rw found (ground (arith, same))
    ]

close_nat_wire-IsIdle : (s : Service) → s.wire.has_fd ≡ false → IsIdle s (close_nat_wire s)
unfolding close_nat_wire
close_nat_wire-IsIdle s down = ground (arith, traffic-snoc s.calls clear_addresses)

run_sockets-IsIdle :
    (s : Service) (i : Input)
    → let selected =
        poll_network_selection s i.now i.config i.saved i.emitted i.left i.joined i.restored in
      (maintain_wire_socket selected.wire i.now i.wire_opens).has_fd ≡ false
      → IsIdle s (run_sockets s i)
unfolding run_sockets maintain_nat_wire
run_sockets-IsIdle s i down =
    let selected =
      poll_network_selection s i.now i.config i.saved i.emitted i.left i.joined i.restored in
    let wired = record selected { wire = maintain_wire_socket selected.wire i.now i.wire_opens } in
    let paused = selected.wire.has_fd && not wired.wire.has_fd in
    let maintained = if paused then close_nat_wire wired else wired in
    let same =
      poll_network_selection-traffic s i.now i.config i.saved i.emitted i.left i.joined
        i.restored in
    let before : IsIdle s wired = record { no_fd = down; no_traffic = same } in
    let here : IsIdle s maintained =
      IsIdle-if s _ wired paused (IsIdle-trans before (close_nat_wire-IsIdle wired down)) before in
    let closed = close_nat_wire-IsIdle maintained here.no_fd in
    IsIdle-if s _ _ (not maintained.mapped.enabled) here (
      IsIdle-then s _ _ (not maintained.wire.has_fd) (ground (arith, here.no_fd))
        (IsIdle-trans here closed))

subscribe_broadcast-IsIdle :
    (s : Service) → s.wire.has_fd ≡ false → IsIdle s (subscribe_broadcast s)
unfolding subscribe_broadcast
subscribe_broadcast-IsIdle s down =
    let one = traffic-snoc s.calls (subscribe s.nwid 0) in
    let two = traffic-snoc (s.calls ++ subscribe s.nwid 0 ∷ []) (subscribe s.nwid s.net.ip) in
    ground arith

drain_paused : (fuel : ℕ) (q : Queue) → (drain fuel q true).1 ≡ []
unfolding drain
drain_paused zero q = refl
drain_paused (suc fuel) q = elim (Option-cases (take_frame q)) [
  | inl none_ ↦ rw (none_, drain) refl
  | inr ((f, q'), found) ↦ rw (found, drain) (drain_paused fuel q')
]

drain_outbound_down :
    (q : Queue) (has_fd recovering : Bool)
    → has_fd ≡ false
    → (drain_outbound q has_fd recovering).1 ≡ []
unfolding drain_outbound
drain_outbound_down q true recovering e = cc
drain_outbound_down q false recovering e = drain_paused 32 q

drain_frames-IsIdle :
    (s : Service) (deadline : ℕ) → s.wire.has_fd ≡ false → IsIdle s (drain_frames s deadline)
unfolding drain_frames
drain_frames-IsIdle s deadline down =
    let nothing = drain_outbound_down s.queue s.wire.has_fd s.wire.recovering down in
    record { no_fd = rw nothing down; no_traffic = rw nothing (ap traffic (append-nil s.calls)) }

poll_wire-IsIdle :
    (s : Service) (p : WirePoll) (deadline : ℕ)
    → s.wire.has_fd ≡ false
    → IsIdle s (poll_wire s p deadline)
unfolding poll_wire
poll_wire-IsIdle s poll_failed deadline down = record { no_fd = down; no_traffic = refl }
poll_wire-IsIdle s poll_timeout deadline down = record { no_fd = down; no_traffic = refl }
poll_wire-IsIdle s (events bad packet) deadline down =
    IsIdle-then s s _ (not s.wire.has_fd) (ground arith) (IsIdle-self s down)

probe_peer-IsIdle :
    (s : Service) (now probe : ℕ) → s.wire.has_fd ≡ false → IsIdle s (probe_peer s now probe)
unfolding probe_peer
probe_peer-IsIdle s now probe down =
    IsIdle-then s s _ (not s.wire.has_fd || s.wire.recovering) (ground arith) (IsIdle-self s down)

run_tasks-IsIdle :
    (s : Service) (now deadline : ℕ) → s.wire.has_fd ≡ false → IsIdle s (run_tasks s now deadline)
unfolding run_tasks
run_tasks-IsIdle s now deadline down =
    IsIdle-else s _ s (s.wire.has_fd && leb s.wire.next_deadline now) (ground arith)
      (IsIdle-self s down)

resubscribe-IsIdle : (s : Service) → s.wire.has_fd ≡ false → IsIdle s (resubscribe s)
resubscribe-IsIdle s down =
    IsIdle-if s _ s s.need_subscribe
      (let v = subscribe_broadcast-IsIdle (record s { need_subscribe = false }) down in
        record { no_fd = v.no_fd; no_traffic = v.no_traffic })
      (IsIdle-self s down)

-- Whatever the environment gives: a round of the service loop in which maintainWireSocket leaves no
-- open wire socket hands no packet of the wire, no frame of the game and no timer to the node, and ends
-- with the socket closed. (Leaving and joining a network, subscribing and clearing the announced
-- address remain possible.)
pub run_round-IsIdle :
    (s : Service) (i : Input)
    → (maintain_wire_socket
        (poll_network_selection s i.now i.config i.saved i.emitted i.left i.joined i.restored).wire
        i.now
        i.wire_opens).has_fd
      ≡ false
    → IsIdle s (run_round s i)
unfolding run_round
run_round-IsIdle s i down =
    let sockets = run_sockets-IsIdle s i down in
    let heard = poll_wire-IsIdle (run_sockets s i) i.wire_poll i.deadline sockets.no_fd in
    let again = resubscribe-IsIdle _ heard.no_fd in
    let drained = drain_frames-IsIdle _ i.deadline again.no_fd in
    let probed = probe_peer-IsIdle _ i.now i.probe drained.no_fd in
    let ran = run_tasks-IsIdle _ i.now i.deadline probed.no_fd in
    IsIdle-trans sockets
      (IsIdle-trans heard (IsIdle-trans again (IsIdle-trans drained (IsIdle-trans probed ran))))
