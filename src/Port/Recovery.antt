-- ===== src/Port/Recovery.antt =====
-- A wire socket that is lost, by failures or over a sleep, is probed again.
use sys_grid.Base.{ℕ, zero, suc, ◌+◌, ◌≤◌, ◌≡◌, arith, Bool, true, false, List, [], ◌∷◌}
use sys_grid.Port.{
  Wire, wire_send, wire_received, wire_hung_up, resumed, reopen, pause, maintain_wire_socket,
  backoff_max, open_wire_socket, put_to_sleep, try_to_open, woken,
}

-- The states that are reached at a time, from a socket that was opened at the start.
pub data Reached : ℕ → Wire → Type 0 where
  started : (t : ℕ) (w : Wire) → w.has_fd ≡ true → w.backoff_ms ≡ 0 → w.reopen_at ≡ 0 → Reached t w
  waited : (t later : ℕ) (w : Wire) → t ≤ later → Reached t w → Reached later w
  sent :
      (t : ℕ) (w : Wire) (mapped live ipv4 whole : Bool)
      → Reached t w
      → Reached t (wire_send w mapped live ipv4 whole).0
  received :
      (t : ℕ) (w : Wire) (deadline : ℕ)
      → w.has_fd ≡ true
      → Reached t w
      → Reached t (wire_received w deadline)
  hung_up : (t : ℕ) (w : Wire) → w.has_fd ≡ true → Reached t w → Reached t (wire_hung_up w)
  maintained :
      (t : ℕ) (w : Wire) (opens : Bool) → Reached t w → Reached t (maintain_wire_socket w t opens)
  slept : (t : ℕ) (w : Wire) → Reached t w → Reached t (put_to_sleep w)
  resumed_from :
      (t : ℕ) (w : Wire) (opens binds : Bool) (answers : List (Bool × Bool))
      → Reached t w
      → Reached t (woken w opens binds answers)

-- The next probe is at most 30 seconds away.
pub record IsLive (t : ℕ) (w : Wire) : Type 0 where
  pub bounded : w.backoff_ms ≤ backoff_max
  pub soon : w.reopen_at ≤ t + backoff_max

maintain_wire_socket-IsLive :
    (t : ℕ) (w : Wire) (opens : Bool) → IsLive t w → IsLive t (maintain_wire_socket w t opens)
unfolding maintain_wire_socket resumed reopen pause
maintain_wire_socket-IsLive t w opens h = record {
  bounded = ground (arith, h.bounded, h.soon);
  soon = ground (arith, h.bounded, h.soon);
}

wire_send-IsLive :
    (t : ℕ) (w : Wire) (mapped live ipv4 whole : Bool)
    → IsLive t w
    → IsLive t (wire_send w mapped live ipv4 whole).0
unfolding wire_send
wire_send-IsLive t w mapped live ipv4 whole h = record {
  bounded = ground (arith, h.bounded);
  soon = ground (arith, h.soon);
}

put_to_sleep-IsLive : (t : ℕ) (w : Wire) → IsLive t w → IsLive t (put_to_sleep w)
unfolding put_to_sleep
put_to_sleep-IsLive t w h = record {
  bounded = ground (arith, h.bounded);
  soon = ground (arith, h.soon);
}

try_to_open-IsLive :
    (left t : ℕ) (w : Wire) (answers : List (Bool × Bool))
    → IsLive t w
    → IsLive t (try_to_open left w answers)
unfolding try_to_open open_wire_socket
try_to_open-IsLive zero t w answers h = h
try_to_open-IsLive (suc left) t w [] h = h
try_to_open-IsLive (suc left) t w ((opens, binds) ∷ answers) h =
    let rest =
      try_to_open-IsLive left t (open_wire_socket w opens binds) answers
        (record { bounded = h.bounded; soon = h.soon }) in
    record {
      bounded = ground (arith, h.bounded, rest.bounded);
      soon = ground (arith, h.soon, rest.soon);
    }

woken-IsLive :
    (t : ℕ) (w : Wire) (opens binds : Bool) (answers : List (Bool × Bool))
    → IsLive t w
    → IsLive t (woken w opens binds answers)
unfolding woken open_wire_socket
woken-IsLive t w opens binds answers h =
    let tried =
      try_to_open-IsLive 30 t (open_wire_socket w opens binds) answers
        (record { bounded = h.bounded; soon = h.soon }) in
    record { bounded = tried.bounded; soon = tried.soon }

Reached-IsLive : (t : ℕ) (w : Wire) → Reached t w → IsLive t w
unfolding wire_received wire_hung_up
Reached-IsLive t w (started _ _ o b r) = record { bounded = omega arith; soon = omega arith }
Reached-IsLive t w (waited s _ _ l r) =
    let h = Reached-IsLive s w r in record { bounded = h.bounded; soon = omega (arith, h.soon) }
Reached-IsLive t w (sent _ v mapped live ipv4 whole r) =
    wire_send-IsLive t v mapped live ipv4 whole (Reached-IsLive t v r)
Reached-IsLive t w (received _ v d o r) =
    let h = Reached-IsLive t v r in record { bounded = h.bounded; soon = h.soon }
Reached-IsLive t w (hung_up _ v o r) =
    let h = Reached-IsLive t v r in record { bounded = h.bounded; soon = h.soon }
Reached-IsLive t w (maintained _ v opens r) =
    maintain_wire_socket-IsLive t v opens (Reached-IsLive t v r)
Reached-IsLive t w (slept _ v r) = put_to_sleep-IsLive t v (Reached-IsLive t v r)
Reached-IsLive t w (resumed_from _ v opens binds answers r) =
    woken-IsLive t v opens binds answers (Reached-IsLive t v r)

-- Maintenance at the times of a list, with a socket whenever one is asked for.
abbrev pub maintain_at : Wire → List ℕ → Wire
maintain_at w [] = w
maintain_at w (now ∷ times) = maintain_at (maintain_wire_socket w now true) times

-- The socket is open and sound, or it is probed by `until`.
pub record IsReturning (until : ℕ) (w : Wire) : Type 0 where
  pub sound : w.has_fd ≡ true → (w.fail_streak ≡ 0) × (w.hup ≡ false)
  pub due : w.has_fd ≡ false → w.reopen_at ≤ until

maintain_wire_socket-IsReturning :
    (until now : ℕ) (w : Wire)
    → IsReturning until w
    → IsReturning until (maintain_wire_socket w now true)
unfolding maintain_wire_socket resumed reopen pause
maintain_wire_socket-IsReturning until now w h = record {
  sound = ground (arith, h.sound, h.due);
  due = ground (arith, h.sound, h.due);
}

maintain_at-IsReturning :
    (until : ℕ) (w : Wire) (times : List ℕ)
    → IsReturning until w
    → IsReturning until (maintain_at w times)
maintain_at-IsReturning until w [] h = h
maintain_at-IsReturning until w (now ∷ times) h =
    maintain_at-IsReturning until (maintain_wire_socket w now true) times
      (maintain_wire_socket-IsReturning until now w h)

returns :
    (until now later : ℕ) (w : Wire) (opens : Bool)
    → IsReturning until w
    → until ≤ now
    → let back = maintain_wire_socket w now true in
      let after = maintain_wire_socket (wire_send back false true true true).0 later opens in
      (back.has_fd ≡ true)
      × (back.fail_streak ≡ 0)
      × (after.has_fd ≡ true)
      × (after.recovering ≡ false)
      × (after.reachable ≡ true)
unfolding maintain_wire_socket resumed reopen pause wire_send
returns until now later w opens h late = ground (arith, h.sound, h.due)

-- Whatever was sent, received, failed and slept through before: take a wire that has no socket at a
-- time, and maintenance at any times from then on, at which the system hands out a socket whenever it is
-- asked for one, and nothing else happens to the wire. Behind the first maintenance that is 30 seconds
-- later or more, whatever maintenance came before it, the wire has a socket with no failures counted;
-- and if a whole packet is sent on it then, the wire is reachable behind the next maintenance, and no
-- longer recovering.
pub maintain_wire_socket-recovers :
    (t now later : ℕ) (w : Wire) (times : List ℕ) (opens : Bool)
    → Reached t w
    → w.has_fd ≡ false
    → t + backoff_max ≤ now
    → let back = maintain_wire_socket (maintain_at w times) now true in
      let after = maintain_wire_socket (wire_send back false true true true).0 later opens in
      (back.has_fd ≡ true)
      × (back.fail_streak ≡ 0)
      × (after.has_fd ≡ true)
      × (after.recovering ≡ false)
      × (after.reachable ≡ true)
maintain_wire_socket-recovers t now later w times opens r lost late =
    let live = Reached-IsLive t w r in
    let here : IsReturning (t + backoff_max) w = record {
      sound = λ e. ground (arith, e, lost);
      due = λ e. live.soon;
    } in
    returns (t + backoff_max) now later (maintain_at w times) opens
      (maintain_at-IsReturning (t + backoff_max) w times here) late
