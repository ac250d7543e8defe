-- ===== src/Log.antt =====
-- source/zt_port.cpp: the log of boot progress (Trace), the event log (Event), the clock (NowMs) and the
-- low-water marks of memory (TraceArenaWatermark, watchSystemMemory). The C library's formatting is
-- outside: a message is the text that it prints.
pub mod Ring
use sys_grid.Base.{
  ℕ, zero, suc, ◌+◌, ◌-◌, ◌*◌, ◌/◌, ◌%◌, Bool, true, false, not, ◌&&◌, ◌||◌, List, [], ◌∷◌, ◌++◌,
  Option, none, some, ◌==◌, ltb, leb, if◌then◌else◌, length, take, update,
}
use sys_grid.Config.{Text, newline}

-- ---- Trace ----

abbrev pub trace_capacity : ℕ
trace_capacity = 4096

-- `g_traceLen`, for a prefix and a message of these lengths. snprintf returns the length of the whole
-- text, also when it has cut it.
unfoldable pub trace_len : ℕ → ℕ → ℕ → ℕ
trace_len len prefix message =
    let full = len + prefix + message in
    if leb trace_capacity (len + 128)
    then len
    else if ltb full (trace_capacity - 1)
    then full + 1
    else full

-- ---- Event ----

abbrev pub event_lines : ℕ
event_lines = 48

abbrev pub event_line_len : ℕ
event_line_len = 96

-- `g_events` and `g_eventCount`.
pub record Events : Type 0 where
  pub line : ℕ → Text
  pub count : ℕ

-- The entry: the time stamp unless it fills the entry, and what fits of the message.
abbrev pub entry_of : Text → Text → Text
entry_of stamp message =
    take (event_line_len - 1) ((if ltb (length stamp) event_line_len then stamp else []) ++ message)

unfoldable pub add_event : Events → Text → Text → Events
add_event e stamp message = record e {
  line = update e.line (e.count % event_lines) (entry_of stamp message);
  count = e.count + 1;
}

-- The loop that rewrites the file, from entry `i` with `left` entries to go and `off` characters
-- written.
unfoldable pub write_lines : (ℕ → Text) → ℕ → ℕ → ℕ → Text
write_lines line zero i off = []
write_lines line (suc left) i off =
    let here = line (i % event_lines) in
    let rest = write_lines line left (suc i) (off + length here + 1) in
    if ltb (off + event_line_len + 2) (event_lines * event_line_len + 64)
    then here ++ newline ∷ rest
    else []

unfoldable pub event_text : Events → Text
event_text e =
    let first = if ltb event_lines e.count then e.count - event_lines else 0 in
    write_lines e.line (e.count - first) first 0

-- ---- NowMs ----

-- `s_anchorMs` and `s_anchorTick`; no anchor yet is 0.
pub record Anchor : Type 0 where
  pub ms : ℕ
  pub tick : ℕ

-- `seconds` is the wall clock, none where it cannot be read.
unfoldable pub now_ms : Anchor → ℕ → Option ℕ → Anchor × ℕ
now_ms a ticks seconds =
    if a.ms == 0
    then elim seconds [
      | none ↦ (a, 0)
      | some s ↦ (record { ms = s * 1000; tick = ticks }, s * 1000)
    ]
    else (a, a.ms + (ticks - a.tick) / 19200)

-- ---- low-water marks ----

-- The mark so far, none before the first report; the next mark, and whether this one is reported. `step`
-- is 256 KB in the unit of the mark.
unfoldable pub low_water : ℕ → Option ℕ → ℕ → Option ℕ × Bool
low_water step none free_now = (some free_now, true)
low_water step (some low) free_now =
    if ltb low (free_now + step) then (some low, false) else (some free_now, true)
