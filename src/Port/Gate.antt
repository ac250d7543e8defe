-- ===== src/Port/Gate.antt =====
-- source/zt_port.cpp and source/main.cpp: the handshake between the power-state thread (PscThreadMain:
-- RequestQuiesce, WaitQuiesced, SignalResume) and the node thread (RunLoop, HandleSleep). Each read or
-- write of a shared flag is one step, and the steps of the two threads interleave freely.
pub mod Parked
use sys_grid.Base.{ℕ, Bool, true, false, ◌≡◌}

-- Where the thread of PscThreadMain stands: waiting for the next power state; behind each of the two
-- clears of RequestQuiesce; in WaitQuiesced; behind the acknowledgement that follows it, with the
-- answer of the node thread or without one; and between the two writes of SignalResume.
pub data Psc : Type 0 where
  ready cleared_quiesced cleared_resumed awaiting answered unanswered unset : Psc

-- Where the node thread stands: in the rest of its loop; in HandleSleep before the sockets are
-- closed, behind that, behind `g_quiesced.Signal()` in the wait, and past the wait.
pub data Node : Type 0 where
  running closing closed waiting woken : Node

-- The two events and the flag; whether the wire socket and the mapped socket are open; and where the
-- node thread stood when RequestQuiesce was last entered.
pub record Gate : Type 0 where
  pub quiesced : Bool
  pub resumed : Bool
  pub requested : Bool
  pub wire : Bool
  pub mapped : Bool
  pub psc : Psc
  pub node : Node
  pub node_at_request : Node

-- `os::Event::Signal` releases the threads that wait, and a clear that follows does not hold them.
abbrev pub release : Node → Node
release waiting = woken
release n = n

-- A thread of PscThreadMain that may take the next power state.
abbrev pub is_ready : Psc → Bool
is_ready ready = true
is_ready answered = true
is_ready unanswered = true
is_ready p = false

pub data Step : Gate → Gate → Type 0 where
  -- RequestQuiesce.
  clear_quiesced :
      (g : Gate)
      → is_ready g.psc ≡ true
      → Step g (record g { quiesced = false; psc = cleared_quiesced; node_at_request = g.node })
  clear_resumed :
      (g : Gate)
      → g.psc ≡ cleared_quiesced
      → Step g (record g { resumed = false; psc = cleared_resumed })
  set_requested :
      (g : Gate) → g.psc ≡ cleared_resumed → Step g (record g { requested = true; psc = awaiting })
  -- WaitQuiesced returns true, or its time is up; either way the state is acknowledged.
  see_quiesced :
      (g : Gate) → g.psc ≡ awaiting → g.quiesced ≡ true → Step g (record g { psc = answered })
  time_out :
      (g : Gate) → g.psc ≡ awaiting → g.quiesced ≡ false → Step g (record g { psc = unanswered })
  -- SignalResume.
  unset_requested :
      (g : Gate) → is_ready g.psc ≡ true → Step g (record g { requested = false; psc = unset })
  signal_resumed :
      (g : Gate)
      → g.psc ≡ unset
      → Step g (record g { resumed = true; psc = ready; node = release g.node })
  -- The rest of the node thread's loop, which opens and closes its sockets, and the test of the flag.
  work :
      (g : Gate) (wire mapped : Bool)
      → g.node ≡ running
      → Step g (record g { wire = wire; mapped = mapped })
  enter_sleep :
      (g : Gate) → g.node ≡ running → g.requested ≡ true → Step g (record g { node = closing })
  -- HandleSleep.
  close_sockets :
      (g : Gate)
      → g.node ≡ closing
      → Step g (record g { wire = false; mapped = false; node = closed })
  signal_quiesced :
      (g : Gate) → g.node ≡ closed → Step g (record g { quiesced = true; node = waiting })
  pass_wait : (g : Gate) → g.node ≡ waiting → g.resumed ≡ true → Step g (record g { node = woken })
  reopen_socket :
      (g : Gate) (opened : Bool)
      → g.node ≡ woken
      → Step g (record g { wire = opened; node = running })

pub data Reach (s : Gate) : Gate → Type 0 where
  here : Reach s s
  next : {t u : Gate} → Reach s t → Step t u → Reach s u

-- Before the first request: the constructors of the events leave them clear.
abbrev pub initial : Bool → Gate
initial wire = record {
  quiesced = false;
  resumed = false;
  requested = false;
  wire = wire;
  mapped = false;
  psc = ready;
  node = running;
  node_at_request = running;
}
