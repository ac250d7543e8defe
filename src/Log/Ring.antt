-- ===== src/Log/Ring.antt =====
-- What the event log's file holds.
use sys_grid.Base.{
  ℕ, zero, suc, ◌+◌, ◌-◌, ◌*◌, ◌%◌, ◌<◌, ◌≤◌, ◌≡◌, refl, sym, ap, ap₂, ◌∙◌, arith, true, List, [],
  ◌∷◌, ◌++◌, append-nil, append_assoc, ◌==◌, ltb, if◌then◌else◌, length, length-append, length-take,
  subst, drop, get_or,
}
use sys_grid.Config.{Text, newline}
use sys_grid.Log.{Events, event_lines, event_line_len, entry_of, add_event, write_lines, event_text}

-- The lines of a text, each behind its newline.
abbrev pub unlines : List Text → Text
unlines [] = []
unlines (l ∷ ls) = l ++ newline ∷ unlines ls

-- The log behind a sequence of events, and the entries of all of them.
unfoldable pub run : Events → List (Text × Text) → Events
run e [] = e
run e ((stamp, message) ∷ es) = run (add_event e stamp message) es

abbrev pub entries : List (Text × Text) → List Text
entries [] = []
entries ((stamp, message) ∷ es) = entry_of stamp message ∷ entries es

-- The array holds the last 48 of the entries so far, which are of 95 characters at most.
record Holds (e : Events) (all : List Text) : Type 0 where
  counted : e.count ≡ length all
  held : (i : ℕ) → i < length all → length all ≤ i + 48 → e.line (i % 48) ≡ get_or all i []
  short : (i : ℕ) → length (get_or all i []) ≤ 95

get_or-snoc :
    {A : Type 0} (xs : List A) (a d : A) (i : ℕ)
    → get_or (xs ++ a ∷ []) i d ≡ (if i == length xs then a else get_or xs i d)
get_or-snoc [] a d zero = refl
get_or-snoc [] a d (suc i) = ground arith
get_or-snoc (x ∷ xs) a d zero = ground arith
get_or-snoc (x ∷ xs) a d (suc i) = ground (arith, get_or-snoc xs a d i)

entry_of-le : (stamp message : Text) → length (entry_of stamp message) ≤ 95
entry_of-le stamp message =
    omega
      (arith, length-take 95 ((if ltb (length stamp) event_line_len then stamp else []) ++ message))

drop_all : {A : Type 0} (i : ℕ) (xs : List A) → length xs ≤ i → drop i xs ≡ []
drop_all zero [] h = refl
drop_all zero (x ∷ xs) h = absurd (omega arith)
drop_all (suc i) [] h = refl
drop_all (suc i) (x ∷ xs) h = drop_all i xs (omega arith)

drop-cons :
    {A : Type 0} (i : ℕ) (xs : List A) (d : A)
    → i < length xs
    → drop i xs ≡ get_or xs i d ∷ drop (suc i) xs
drop-cons zero [] d h = absurd (omega arith)
drop-cons zero (x ∷ xs) d h = refl
drop-cons (suc i) [] d h = absurd (omega arith)
drop-cons (suc i) (x ∷ xs) d h = drop-cons i xs d (omega arith)

add_event-Holds :
    (e : Events) (all : List Text) (stamp message : Text)
    → Holds e all
    → Holds (add_event e stamp message) (all ++ entry_of stamp message ∷ [])
unfolding add_event
add_event-Holds e all stamp message h =
    let line = entry_of stamp message in
    let longer : length (all ++ line ∷ []) ≡ length all + 1 =
      omega (arith, length-append all (line ∷ [])) in
    record {
      counted = omega (arith, h.counted);
      held = λ i below recent.
          let known = h.held i in ground (arith, h.counted, get_or-snoc all line [] i, known);
      short = λ i.
          let at = get_or-snoc all line [] i in
          let fits : length line ≤ 95 = entry_of-le stamp message in
          ground (arith, at, fits, h.short i);
    }

write_lines-unlines :
    (line : ℕ → Text) (all : List Text) (left i off : ℕ)
    → ((j : ℕ) → j < length all → i ≤ j → line (j % 48) ≡ get_or all j [])
    → ((j : ℕ) → length (get_or all j []) ≤ 95)
    → i + left ≡ length all
    → off + 96 * left ≤ 4608
    → write_lines line left i off ≡ unlines (drop i all)
unfolding write_lines
write_lines-unlines line all zero i off held short ends room =
    sym (ap unlines (drop_all i all (omega arith)))
write_lines-unlines line all (suc left) i off held short ends room =
    let line_i : line (i % 48) ≡ get_or all i [] = held i (omega arith) (omega arith) in
    let fits : ltb (off + event_line_len + 2) (event_lines * event_line_len + 64) ≡ true =
      ground arith in
    let small : length (line (i % 48)) ≤ 95 = omega (arith, ap length line_i, short i) in
    let rest =
      write_lines-unlines line all left (suc i) (off + length (line (i % 48)) + 1)
        (λ j below later. held j below (omega arith)) short (omega arith) (omega arith) in
    rw fits (
      ap₂ (λ (t u : Text). t ++ newline ∷ u) line_i rest
      ∙ sym (ap unlines (drop-cons i all [] (omega arith))))

run-Holds :
    (e : Events) (all : List Text) (es : List (Text × Text))
    → Holds e all
    → Holds (run e es) (all ++ entries es)
unfolding run
run-Holds e all [] h = rw (append-nil all) h
run-Holds e all ((stamp, message) ∷ es) h =
    subst (λ (l : List Text). Holds (run (add_event e stamp message) es) l)
      (append_assoc all (entry_of stamp message ∷ []) (entries es))
      (run-Holds (add_event e stamp message) (all ++ entry_of stamp message ∷ []) es
        (add_event-Holds e all stamp message h))

-- Behind any sequence of events, from an empty log: the text that Event writes to the file is the last
-- 48 of the entries, or all of them when there are fewer, in order, each behind its newline and none
-- left out. An entry is its time stamp, unless that is of 96 characters or more, and its message, cut
-- to 95 characters.
pub event_text-run :
    (line : ℕ → Text) (es : List (Text × Text))
    → event_text (run (record { line = line; count = 0 }) es)
      ≡ unlines (drop (length (entries es) - 48) (entries es))
unfolding event_text
event_text-run line es =
    let e = run (record { line = line; count = 0 }) es in
    let h : Holds e (entries es) =
      run-Holds (record { line = line; count = 0 }) [] es
        (record {
          counted = refl;
          held = λ i below recent. absurd (omega arith);
          short = λ i. omega arith;
        }) in
    let first : (if ltb event_lines e.count then e.count - event_lines else 0)
        ≡ length (entries es) - 48 =
      ground (arith, h.counted) in
    let from = length (entries es) - 48 in
    ap (λ (f : ℕ). write_lines e.line (e.count - f) f 0) first
    ∙ ap (λ (c : ℕ). write_lines e.line (c - from) from 0) h.counted
    ∙ write_lines-unlines e.line (entries es) (length (entries es) - from) from 0
        (λ j below later. h.held j below (omega arith)) h.short (omega arith) (omega arith)
