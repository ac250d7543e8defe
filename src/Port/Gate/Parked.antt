-- ===== src/Port/Gate/Parked.antt =====
-- What an answer to the power-state thread means.
use sys_grid.Base.{Bool, true, false, ◌≡◌, ◌≢◌, refl, arith}
use sys_grid.Port.Gate.{
  Psc, ready, cleared_quiesced, cleared_resumed, answered, unset, Node, running, closing, closed,
  waiting, Gate, is_ready, Step, clear_quiesced, clear_resumed, set_requested, see_quiesced,
  time_out, unset_requested, signal_resumed, work, enter_sleep, close_sockets, signal_quiesced,
  pass_wait, reopen_socket, Reach, here, next, initial,
}

-- A request that the power-state thread has entered and not yet taken back.
abbrev in_request : Psc → Bool
in_request ready = false
in_request unset = false
in_request p = true

-- HandleSleep has begun and has not yet announced that it is done.
abbrev pub is_late : Node → Bool
is_late closing = true
is_late closed = true
is_late n = false

abbrev is_shut : Node → Bool
is_shut closed = true
is_shut waiting = true
is_shut n = false

record Inv (g : Gate) : Type 0 where
  shut : is_shut g.node ≡ true → (g.wire ≡ false) × (g.mapped ≡ false)
  lowered : g.requested ≡ true → g.resumed ≡ false
  dropped : g.psc ≡ unset → g.requested ≡ false
  cleared : g.psc ≡ cleared_resumed → g.resumed ≡ false
  told : g.psc ≡ answered → g.quiesced ≡ true
  early :
      in_request g.psc ≡ true
      → is_late g.node_at_request ≡ false
      → is_late g.node ≡ true
      → g.resumed ≡ false
  parked :
      in_request g.psc ≡ true
      → is_late g.node_at_request ≡ false
      → g.quiesced ≡ true
      → (g.node ≡ waiting) × (g.resumed ≡ false)

Step-Inv : {g h : Gate} → Step g h → Inv g → Inv h
Step-Inv (clear_quiesced g p) v = ground arith
Step-Inv (clear_resumed g p) v = ground arith
Step-Inv (set_requested g p) v = ground arith
Step-Inv (see_quiesced g p q) v = ground arith
Step-Inv (time_out g p q) v = ground arith
Step-Inv (unset_requested g p) v = ground arith
Step-Inv (signal_resumed g p) v = ground arith
Step-Inv (work g wire mapped p) v = ground arith
Step-Inv (enter_sleep g p q) v = ground arith
Step-Inv (close_sockets g p) v = ground arith
Step-Inv (signal_quiesced g p) v = ground arith
Step-Inv (pass_wait g p q) v = ground arith
Step-Inv (reopen_socket g opened p) v = ground arith

Reach-Inv : {wire : Bool} {g : Gate} → Reach (initial wire) g → Inv g
Reach-Inv here = ground arith
Reach-Inv (next r st) = Step-Inv st (Reach-Inv r)

-- In every state that the two threads reach from the start, in any interleaving of their reads and
-- writes: if WaitQuiesced has just returned true, and the node thread was not between the test of the
-- flag and its own signal when that request was entered, then the node thread stands in its wait for
-- the resume event, and both the wire socket and the mapped socket are closed.
pub Reach-answered :
    (wire : Bool) (g : Gate)
    → Reach (initial wire) g
    → g.psc ≡ answered
    → is_late g.node_at_request ≡ false
    → (g.node ≡ waiting) × (g.wire ≡ false) × (g.mapped ≡ false)
Reach-answered wire g r asked on_time =
    let v = Reach-Inv r in
    let (parked, _) = v.parked (ground arith) on_time (v.told asked) in
    let (no_wire, no_mapped) = v.shut (ground arith) in (parked, no_wire, no_mapped)

-- ---- what goes wrong ----

-- The steps that follow, as long as the resume is not signalled.
pub data Within (s : Gate) : Gate → Type 0 where
  start : Within s s
  later : {t u : Gate} → Within s t → Step t u → u.psc ≢ unset → Within s u

record Ignored (g : Gate) : Type 0 where
  unanswered_yet : g.quiesced ≡ false
  held : g.resumed ≡ false
  parked_still : g.node ≡ waiting
  asked : in_request g.psc ≡ true
  not_answered : g.psc ≢ answered

Step-Ignored : {g h : Gate} → Step g h → h.psc ≢ unset → Ignored g → Ignored h
Step-Ignored (clear_quiesced g p) n v = ground arith
Step-Ignored (clear_resumed g p) n v = ground arith
Step-Ignored (set_requested g p) n v = ground arith
Step-Ignored (see_quiesced g p q) n v = ground arith
Step-Ignored (time_out g p q) n v = ground arith
Step-Ignored (unset_requested g p) n v = ground arith
Step-Ignored (signal_resumed g p) n v = ground arith
Step-Ignored (work g wire mapped p) n v = ground arith
Step-Ignored (enter_sleep g p q) n v = ground arith
Step-Ignored (close_sockets g p) n v = ground arith
Step-Ignored (signal_quiesced g p) n v = ground arith
Step-Ignored (pass_wait g p q) n v = ground arith
Step-Ignored (reopen_socket g opened p) n v = ground arith

Within-Ignored : {g h : Gate} → Within g h → Ignored g → Ignored h
Within-Ignored start v = v
Within-Ignored (later r st n) v = Step-Ignored st n (Within-Ignored r v)

-- The request of a second sleep state, entered after an answered one and before a resume: take any
-- reachable state in which WaitQuiesced has returned true for a request that the node thread was not
-- late for, and let RequestQuiesce be entered again. As long as the resume is not signalled, no step
-- of either thread makes WaitQuiesced return true: the node thread stays in its wait, with the event
-- cleared, so the second request always runs into its time limit.
pub second_request-unanswered :
    (wire : Bool) (g h : Gate)
    → Reach (initial wire) g
    → g.psc ≡ answered
    → is_late g.node_at_request ≡ false
    → Within (record g { quiesced = false; psc = cleared_quiesced; node_at_request = g.node }) h
    → (h.psc ≢ answered) × (h.node ≡ waiting)
second_request-unanswered wire g h r asked on_time within =
    let v = Reach-Inv r in
    let (parked, held) = v.parked (ground arith) on_time (v.told asked) in
    let w = Within-Ignored within (record {
      unanswered_yet = refl;
      held = held;
      parked_still = parked;
      asked = refl;
      not_answered = λ e. cc e;
    }) in
    (w.not_answered, w.parked_still)

-- A request that is entered while the node thread is late for an earlier one that has been resumed:
-- from any reachable state in which the node thread has closed its sockets and not yet signalled, the
-- resume event is set and the power-state thread is free, some interleaving reaches a state in which
-- WaitQuiesced has returned true although the node thread is back in its loop with an open socket.
pub late_request-answered :
    (wire : Bool) (g : Gate)
    → Reach (initial wire) g
    → is_ready g.psc ≡ true
    → g.node ≡ closed
    → g.resumed ≡ true
    → (h : Gate) × Reach (initial wire) h
      × (h.psc ≡ answered)
      × (h.node ≡ running)
      × (h.wire ≡ true)
late_request-answered wire g r free late set =
    let r1 = next r (clear_quiesced g free) in
    let r2 = next r1 (signal_quiesced _ late) in
    let r3 = next r2 (pass_wait _ refl set) in
    let r4 = next r3 (reopen_socket _ true refl) in
    let r5 = next r4 (clear_resumed _ refl) in
    let r6 = next r5 (set_requested _ refl) in
    (_, next r6 (see_quiesced _ refl refl), refl, refl, refl)
