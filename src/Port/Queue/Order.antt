-- ===== src/Port/Queue/Order.antt =====
-- The queue of frames as a list: what comes out, and in which order.
use sys_grid.Base.{
  ℕ, zero, suc, ◌+◌, ◌%◌, ◌<◌, ◌≡◌, ◌≢◌, refl, ap, ap₂, ◌∙◌, arith, Bool, true, false, List, [],
  ◌∷◌, ◌++◌, Bool-cases, inl, inr, ltb, ◌==◌, if◌then◌else◌, length, length-append, update, none,
  some,
}
use sys_grid.Vnet.{Frame, max_frame}
use sys_grid.Port.Queue.{
  Queue, next_index, cb_emit, take_frame, drain, drain_outbound, discard, held, Holds,
}

-- A list of at most 31 frames.
abbrev pub accept : List Frame → Frame → List Frame
accept waiting f =
    if ltb max_frame (length f.payload)
    then waiting
    else if length waiting == 31
    then waiting
    else waiting ++ f ∷ []

held-update :
    (frames : ℕ → Frame) (i j n : ℕ) (f : Frame)
    → i < 32
    → j ≡ (i + n) % 32
    → n < 32
    → held (update frames j f) i (suc n) ≡ held frames i n ++ f ∷ []
held-update frames i j zero f r e h = ground arith
held-update frames i j (suc n) f r e h =
    let other : i ≢ j = omega arith in
    let head : update frames j f i ≡ frames i = ground arith in
    rw head (
      ap (◌∷◌ (frames i))
        (held-update frames (next_index i) j n f (omega arith) (omega arith) (omega arith)))

cb_emit-Holds :
    (q : Queue) (waiting : List Frame) (f : Frame)
    → Holds q waiting
    → Holds (cb_emit q f) (accept waiting f)
unfolding cb_emit
cb_emit-Holds q waiting f h =
    let full : (next_index q.head == q.tail) ≡ (length waiting == 31) =
      ground (arith, h.head_lem, h.few, h.tail_range) in
    let longer : length (waiting ++ f ∷ []) ≡ suc (length waiting) =
      omega (arith, length-append waiting (f ∷ [])) in
    elim (Bool-cases (ltb max_frame (length f.payload))) [
      | inl long ↦ rw long h
      | inr short ↦ elim (Bool-cases (length waiting == 31)) [
        | inl none_left ↦ rw (short, full, none_left) h
        | inr room ↦
            rw (short, full, room)
              (record {
                tail_range = h.tail_range;
                few = ground (arith, h.few, longer, room);
                head_lem = omega (arith, h.head_lem, longer);
                content = rw longer (
                    held-update q.frames q.tail q.head (length waiting) f h.tail_range h.head_lem
                      h.few
                    ∙ ap (λ (l : List Frame). l ++ f ∷ []) h.content);
              })
      ]
    ]

take_frame-Holds-none : (q : Queue) → Holds q [] → take_frame q ≡ none
unfolding take_frame
take_frame-Holds-none q h = ground (arith, h.head_lem, h.tail_range)

take_frame-Holds :
    (q : Queue) (f : Frame) (waiting : List Frame)
    → Holds q (f ∷ waiting)
    → (q' : Queue) × (take_frame q ≡ some (f, q')) × Holds q' waiting
unfolding take_frame
take_frame-Holds q f waiting h = (
  record q { tail = next_index q.tail },
  ground (arith, h.head_lem, h.few, h.tail_range, h.content),
  record {
    tail_range = omega arith;
    few = omega (arith, h.few);
    head_lem = omega (arith, h.head_lem);
    content = cc (h.content);
  },
)

discard-Holds : (q : Queue) (waiting : List Frame) → Holds q waiting → Holds (discard q) []
unfolding discard
discard-Holds q waiting h = record {
  tail_range = omega (arith, h.head_lem);
  few = omega arith;
  head_lem = omega (arith, h.head_lem);
  content = refl;
}

drain-Holds :
    (fuel : ℕ) (q : Queue) (waiting : List Frame) (paused : Bool)
    → Holds q waiting
    → length waiting < fuel
    → Holds (drain fuel q paused).0 []
      × ((drain fuel q paused).1 ≡ (if paused then [] else waiting))
unfolding drain
drain-Holds zero q waiting paused h few = absurd (omega arith)
drain-Holds (suc fuel) q [] paused h few = rw (take_frame-Holds-none q h, drain) (h, ground arith)
drain-Holds (suc fuel) q (f ∷ waiting) paused h few =
    let (q', taken, h') = take_frame-Holds q f waiting h in
    let (ends, sent) = drain-Holds fuel q' waiting paused h' (omega arith) in
    rw (taken, drain) (ends, ground (arith, sent))

drain_outbound-Holds :
    (q : Queue) (waiting : List Frame) (has_fd recovering : Bool)
    → Holds q waiting
    → let (q', sent) = drain_outbound q has_fd recovering in
      Holds q' [] × (sent ≡ (if has_fd then if recovering then [] else waiting else []))
unfolding drain_outbound
drain_outbound-Holds q waiting true recovering h = drain-Holds 32 q waiting recovering h h.few
drain_outbound-Holds q waiting false recovering h = drain-Holds 32 q waiting true h h.few

-- ---- histories ----

-- What the threads do to the queue, one locked section each; `drain` stands for a whole loop of the
-- node thread that no other thread enters.
pub data Event : Type 0 where
  emit : Frame → Event
  take_one : Event
  drain_all : Bool → Bool → Event
  empty_out : Event

-- The frames that come out of the queue's array, and those that come out of a list.
unfoldable pub run : Queue → List Event → Queue × List Frame
run q [] = (q, [])
run q (emit f ∷ es) = run (cb_emit q f) es
run q (take_one ∷ es) = elim (take_frame q) [
  | none ↦ run q es
  | some (f, q') ↦ let (last, sent) = run q' es in (last, f ∷ sent)
]
run q (drain_all has_fd recovering ∷ es) =
    let (q', now) = drain_outbound q has_fd recovering in
    let (last, sent) = run q' es in (last, now ++ sent)
run q (empty_out ∷ es) = run (discard q) es

abbrev pub run_list : List Frame → List Event → List Frame × List Frame
run_list waiting [] = (waiting, [])
run_list waiting (emit f ∷ es) = run_list (accept waiting f) es
run_list [] (take_one ∷ es) = run_list [] es
run_list (f ∷ waiting) (take_one ∷ es) = let (last, sent) = run_list waiting es in (last, f ∷ sent)
run_list waiting (drain_all has_fd recovering ∷ es) =
    let (last, sent) = run_list [] es in
    (last, (if has_fd then if recovering then [] else waiting else []) ++ sent)
run_list waiting (empty_out ∷ es) = run_list [] es

-- Take any queue that holds a list of frames, and any sequence of events: frames that the
-- interface emits, frames that the node thread takes one by one, loops of drainOutbound, and network
-- switches that empty the queue. The array with its two indices hands over the same frames in the
-- same order, and ends with the same frames in it, as a list that takes a frame at its end when it is
-- of MaxFrameLen bytes at most and fewer than 31 frames wait, that gives up its first frame, and that
-- a loop empties: to the node when the wire socket is open and not recovering, to nobody otherwise.
pub run-run_list :
    (q : Queue) (waiting : List Frame) (es : List Event)
    → Holds q waiting
    → Holds (run q es).0 (run_list waiting es).0 × ((run q es).1 ≡ (run_list waiting es).1)
unfolding run
run-run_list q waiting [] h = (h, refl)
run-run_list q waiting (emit f ∷ es) h =
    run-run_list (cb_emit q f) (accept waiting f) es (cb_emit-Holds q waiting f h)
run-run_list q [] (take_one ∷ es) h = rw (take_frame-Holds-none q h, run) (run-run_list q [] es h)
run-run_list q (f ∷ waiting) (take_one ∷ es) h =
    let (q', taken, h') = take_frame-Holds q f waiting h in
    let (ends, same) = run-run_list q' waiting es h' in rw (taken, run) (ends, ap (◌∷◌ f) same)
run-run_list q waiting (drain_all has_fd recovering ∷ es) h =
    let (empty, now) = drain_outbound-Holds q waiting has_fd recovering h in
    let (ends, same) = run-run_list (drain_outbound q has_fd recovering).0 [] es empty in
    (ends, ap₂ ◌++◌ now same)
run-run_list q waiting (empty_out ∷ es) h =
    run-run_list (discard q) [] es (discard-Holds q waiting h)
