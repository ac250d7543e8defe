-- ===== src/Port.antt =====
-- source/zt_port.cpp: the socket that carries ZeroTier's packets, its recovery, and
-- what a sleep does to it. The calls of the
-- system are outside: each step takes what they return. Times are milliseconds.
pub mod Recovery
pub mod Queue
pub mod Gate
pub mod Service
use sys_grid.Base.{
  ℕ, zero, suc, ◌+◌, ◌*◌, Bool, true, false, not, ◌&&◌, ◌||◌, ◌==◌, ltb, leb, if◌then◌else◌, List,
  [], ◌∷◌,
}

abbrev pub fail_streak_max : ℕ
fail_streak_max = 8

abbrev pub backoff_max : ℕ
backoff_max = 30000

-- The members of `Port` that the recovery reads and writes; `has_fd` is `m_wireFd >= 0`.
pub record Wire : Type 0 where
  pub has_fd : Bool
  pub reachable : Bool
  pub recovering : Bool
  pub recovery_confirmed : Bool
  pub hup : Bool
  pub ephemeral : Bool
  pub fail_streak : ℕ
  pub backoff_ms : ℕ
  pub reopen_fail : ℕ
  pub down_at : ℕ
  pub reopen_at : ℕ
  pub next_deadline : ℕ

abbrev pub confirm_if_recovering : Wire → Wire
confirm_if_recovering w = record w {
  reachable = true;
  recovery_confirmed = if w.recovering then true else w.recovery_confirmed;
}

-- `cbWireSend`. `live` says that a mapped socket is the current one, `ipv4` that the address is one,
-- and `sent` that `sendto` took the whole packet. `true` is the return value 0.
unfoldable pub wire_send : Wire → Bool → Bool → Bool → Bool → Wire × Bool
wire_send w mapped live ipv4 sent =
    if not w.has_fd
    then (w, false)
    else if mapped && not live
    then (w, false)
    else if not ipv4
    then (w, false)
    else if sent
    then (confirm_if_recovering (record w { fail_streak = 0 }), true)
    else (
      record w {
        fail_streak = if mapped then w.fail_streak else w.fail_streak + 1;
        reachable = false;
      },
      false,
    )

-- A packet that the poll of the node thread receives, and a poll that reports a dead socket.
unfoldable pub wire_received : Wire → ℕ → Wire
wire_received w deadline = let c = confirm_if_recovering w in record c { next_deadline = deadline }

unfoldable pub wire_hung_up : Wire → Wire
wire_hung_up w = record w { reachable = false; hup = true }

-- ---- openWireSocket and HandleSleep ----

-- `opens` and `binds` are what ::socket and ::bind return.
unfoldable pub open_wire_socket : Wire → Bool → Bool → Wire
open_wire_socket w opens binds = record w { has_fd = opens && binds }

unfoldable pub put_to_sleep : Wire → Wire
put_to_sleep w = if w.has_fd then record w { reachable = false; has_fd = false } else w

-- The attempts to open the socket behind the wait: each round of the loop tries while there is none.
unfoldable pub try_to_open : ℕ → Wire → List (Bool × Bool) → Wire
try_to_open zero w answers = w
try_to_open (suc left) w [] = w
try_to_open (suc left) w ((opens, binds) ∷ answers) =
    let rest = try_to_open left (open_wire_socket w opens binds) answers in
    if w.has_fd then w else rest

-- One attempt, and thirty more.
unfoldable pub woken : Wire → Bool → Bool → List (Bool × Bool) → Wire
woken w opens binds answers = record (try_to_open 30 (open_wire_socket w opens binds) answers) {
  next_deadline = 0;
}

-- ---- maintainWireSocket ----

abbrev pub next_backoff : ℕ → ℕ
next_backoff b =
    let doubled = if b == 0 then 2000 else b * 2 in
    if ltb backoff_max doubled then backoff_max else doubled

unfoldable pub resumed : Wire → Wire
resumed w =
    if w.recovery_confirmed
    then record w {
      recovery_confirmed = false;
      recovering = false;
      fail_streak = 0;
      backoff_ms = 0;
      reopen_fail = 0;
      hup = false;
      next_deadline = 0;
    }
    else w

-- The descriptor is gone: `opens` is what `openWireSocket` returns, when it is called.
unfoldable pub reopen : Wire → ℕ → Bool → Wire
reopen w now opens =
    let backoff = next_backoff w.backoff_ms in
    if ltb now w.reopen_at
    then w
    else if opens
    then record w {
      has_fd = true;
      reopen_fail = w.reopen_fail + 1;
      fail_streak = 0;
      hup = false;
      next_deadline = 0;
    }
    else record w {
      backoff_ms = backoff;
      reopen_at = now + backoff;
      reopen_fail = w.reopen_fail + 1;
    }

-- The socket is closed, and a time is set to probe again. The mapped socket, which is closed with it,
-- is in Port/Service/Round.
unfoldable pub pause : Wire → ℕ → Wire
pause w now =
    let before = if w.recovering then w.backoff_ms else 0 in
    let backoff = next_backoff before in
    record w {
      has_fd = false;
      reachable = false;
      down_at = if w.recovering then w.down_at else now;
      reopen_fail = if w.recovering then w.reopen_fail else 0;
      recovering = true;
      recovery_confirmed = false;
      ephemeral = not w.ephemeral;
      backoff_ms = backoff;
      reopen_at = now + backoff;
    }

unfoldable pub maintain_wire_socket : Wire → ℕ → Bool → Wire
maintain_wire_socket w now opens =
    let w' = resumed w in
    if not w'.has_fd
    then reopen w' now opens
    else if ltb w'.fail_streak fail_streak_max && not w'.hup
    then w'
    else pause w' now
