-- ===== src/Port/Queue.antt =====
-- source/zt_port.cpp: the queue of frames between the virtual interface and the node thread, cbEmit
-- and drainOutbound. A section that holds g_frameLock is one step.
pub mod Order
use sys_grid.Base.{
  ℕ, zero, suc, ◌+◌, ◌-◌, ◌%◌, ◌≤◌, ◌<◌, ◌≡◌, refl, ap, ◌∙◌, arith, Bool, true, false, List, [],
  ◌∷◌, ◌++◌, append_assoc, append-nil, map, ltb, Option, none, some, ◌==◌, if◌then◌else◌, length,
  update, Bool-cases, inl, inr,
}
use sys_grid.Vnet.{Frame, max_frame}

abbrev pub frame_queue_depth : ℕ
frame_queue_depth = 32

-- `g_frames`, `g_head` and `g_tail`; the length of a frame is that of its payload.
pub record Queue : Type 0 where
  pub frames : ℕ → Frame
  pub head : ℕ
  pub tail : ℕ

abbrev pub next_index : ℕ → ℕ
next_index i = (i + 1) % frame_queue_depth

-- `cbEmit`.
unfoldable pub cb_emit : Queue → Frame → Queue
cb_emit q f =
    if ltb max_frame (length f.payload)
    then q
    else if next_index q.head == q.tail
    then q
    else record q { frames = update q.frames q.head f; head = next_index q.head }

-- The locked section of `drainOutbound`: the next frame, or the end of the loop.
unfoldable pub take_frame : Queue → Option (Frame × Queue)
take_frame q =
    if q.tail == q.head then none else some (q.frames q.tail, record q { tail = next_index q.tail })

-- The loop, which ends when the queue is empty, when no other thread emits meanwhile: what it leaves, and the frames that it hands to the
-- node in order. A frame that is taken while the uplink is down is dropped.
unfoldable pub drain : ℕ → Queue → Bool → Queue × List Frame
drain zero q paused = (q, [])
drain (suc fuel) q paused = elim (take_frame q) [
  | none ↦ (q, [])
  | some (f, q') ↦
      let (last, sent) = drain fuel q' paused in (last, if paused then sent else f ∷ sent)
]

unfoldable pub drain_outbound : Queue → Bool → Bool → Queue × List Frame
drain_outbound q has_fd recovering = drain frame_queue_depth q (if has_fd then recovering else true)

-- `g_tail = g_head`, in `switchNetwork`.
unfoldable pub discard : Queue → Queue
discard q = record q { tail = q.head }

-- ---- the queue as a list ----

-- The `n` frames from index `i` on.
abbrev pub held : (ℕ → Frame) → ℕ → ℕ → List Frame
held frames i zero = []
held frames i (suc n) = frames i ∷ held frames (next_index i) n

-- The queue holds the list `waiting`, at most 31 frames.
pub record Holds (q : Queue) (waiting : List Frame) : Type 0 where
  pub tail_range : q.tail < 32
  pub few : length waiting < 32
  pub head_lem : q.head ≡ (q.tail + length waiting) % 32
  pub content : held q.frames q.tail (length waiting) ≡ waiting
