-- ===== src/Config/Nwid.antt =====
-- A network id that is appended to a configuration is the one that is found.
use sys_grid.Base.{
  ℕ, zero, suc, ◌+◌, ◌*◌, ◌/◌, ◌%◌, ◌^◌, ◌<◌, ◌≡◌, ◌≢◌, refl, sym, ◌∙◌, ap, ap₂, arith, Bool, true,
  false, List, [], ◌∷◌, ◌++◌, Option, none, some, bit_or, bit_or-sum, u64, ltb, ◌==◌, if◌then◌else◌,
  Bool-cases, Option-cases, inl, inr,
}
use native.Mathlib.Nat.{pow-suc, div-div-eq-div-mul, div-le_self}
use sys_grid.Config.{
  Text, newline, lines, extend_line, skip, is_blank, hex_digit, read_hex, parse_id, parse_nwid,
  last_nwid, nwid_of_line, nwid_key, assigned, after_key,
}

-- The text up to a line break is one or more lines of its own.
pub lines-append :
    (t u : Text) → (l : Text) × (ls : List Text) × (lines (t ++ newline ∷ u) ≡ l ∷ ls ++ lines u)
unfolding lines
lines-append [] u = ([], [], refl)
lines-append (c ∷ t) u =
    let (l, ls, e) = lines-append t u in
    elim (Bool-cases (c == newline)) [
      | inl stop ↦ ([], l ∷ ls, rw (stop, e) refl)
      | inr go ↦ (c ∷ l, ls, rw (go, e) refl)
    ]

pub last_nwid-append :
    (a : Bool) (front ls : List Text) (found : Option ℕ)
    → last_nwid a (front ++ ls) found ≡ last_nwid a ls (last_nwid a front found)
unfolding last_nwid
last_nwid-append a [] ls found = refl
last_nwid-append a (l ∷ front) ls found = last_nwid-append a front ls _

-- The lower-case hexadecimal digits of a number.
abbrev pub hex_char : ℕ → ℕ
hex_char d = if ltb d 10 then 48 + d else 87 + d

unfoldable pub print_hex : ℕ → ℕ → Text
print_hex zero v = []
print_hex (suc n) v = hex_char (v / 16 ^ n % 16) ∷ print_hex n v

pub hex_digit-hex_char : (d : ℕ) → d < 16 → hex_digit (hex_char d) ≡ some d
unfolding hex_digit
hex_digit-hex_char d h = ground arith

pub div_step : (v n : ℕ) → v / 16 ^ suc n ≡ v / 16 ^ n / 16
div_step v n = ap (λ (t : ℕ). v / t) (pow-suc 16 n) ∙ sym (div-div-eq-div-mul v (16 ^ n) 16)

read_hex_digit :
    (left value digits c d : ℕ) (t : Text)
    → hex_digit c ≡ some d
    → read_hex (suc left) value digits (c ∷ t)
      ≡ read_hex left (bit_or (u64 (value * 2 ^ 4)) d) (digits + 1) t
unfolding read_hex
read_hex_digit left value digits c d t e = rw (e, read_hex) refl

read_hex-print_hex :
    (v : ℕ) → v < 2 ^ 64 → (n k : ℕ) → read_hex n (v / 16 ^ n) k (print_hex n v) ≡ (v, k + n)
unfolding print_hex
read_hex-print_hex v h zero k =
    unfold read_hex in ap₂ (λ (a b : ℕ). (a, b)) (omega arith) (omega arith)
read_hex-print_hex v h (suc n) k =
    let w = v / 16 ^ n in
    let above : v / 16 ^ suc n ≡ w / 16 = div_step v n in
    let low : w < 2 ^ 64 = omega (arith, div-le_self v (16 ^ n)) in
    let shifted : u64 ((v / 16 ^ suc n) * 2 ^ 4) ≡ w / 16 * 16 = omega arith in
    let joined : bit_or (u64 ((v / 16 ^ suc n) * 2 ^ 4)) (w % 16) ≡ w = omega (
      arith,
      bit_or-sum 4 (w / 16) (u64 ((v / 16 ^ suc n) * 2 ^ 4)) (w % 16) (omega arith) (omega arith),
    ) in
    read_hex_digit n (v / 16 ^ suc n) k _ (w % 16) (print_hex n v)
      (hex_digit-hex_char (w % 16) (omega arith))
    ∙ ap (λ (x : ℕ). read_hex n x (k + 1) (print_hex n v)) joined
    ∙ read_hex-print_hex v h n (k + 1)
    ∙ ap (λ (m : ℕ). (v, m)) (omega arith)

-- `key = value` as the parser takes it apart.
pub after_key-append : (key t : Text) → after_key key (key ++ t) ≡ some t
unfolding after_key
after_key-append [] t = refl
after_key-append (k ∷ key) t = ground (arith, after_key-append key t)

parse_id-print_hex : (v : ℕ) → v < 2 ^ 64 → v ≢ 0 → parse_id (print_hex 16 v) ≡ some v
unfolding parse_id
parse_id-print_hex v h nonzero =
    let start : v / 16 ^ 16 ≡ 0 = omega arith in
    let read : read_hex 16 0 0 (print_hex 16 v) ≡ (v, 16) =
      ap (λ (x : ℕ). read_hex 16 x 0 (print_hex 16 v)) (sym start) ∙ read_hex-print_hex v h 16 0 in
    let given : (v == 0) ≡ false = ground arith in rw (read, given) refl

-- The line `nwid=<16 digits>`.
abbrev pub nwid_line : ℕ → Text
nwid_line v = nwid_key ++ 61 ∷ print_hex 16 v

skip-print_hex : (n v : ℕ) → skip is_blank (print_hex n v) ≡ print_hex n v
unfolding print_hex
skip-print_hex zero v = refl
skip-print_hex (suc n) v = ground arith

nwid_of_line-nwid_line :
    (a : Bool) (v : ℕ) → v < 2 ^ 64 → v ≢ 0 → nwid_of_line a (nwid_line v) ≡ some v
unfolding nwid_of_line assigned after_key
nwid_of_line-nwid_line true v h nonzero = rw (skip-print_hex 16 v) (parse_id-print_hex v h nonzero)
nwid_of_line-nwid_line false v h nonzero = rw (skip-print_hex 16 v) (parse_id-print_hex v h nonzero)

extend_line-print_hex :
    (n c v : ℕ) → extend_line c (lines (print_hex n v)) ≡ (c ∷ print_hex n v) ∷ []
unfolding print_hex lines
extend_line-print_hex zero c v = refl
extend_line-print_hex (suc n) c v =
    let d = hex_char (v / 16 ^ n % 16) in
    let inside : (d == newline) ≡ false = ground arith in
    rw (inside, extend_line-print_hex n d v) refl

lines-nwid_line : (v : ℕ) → lines (nwid_line v) ≡ nwid_line v ∷ []
unfolding lines
lines-nwid_line v = rw (extend_line-print_hex 16 61 v) refl

-- The line with more of the text below it.
extend_line-above :
    (n c v : ℕ) (below : Text)
    → extend_line c (lines (print_hex n v ++ newline ∷ below)) ≡ (c ∷ print_hex n v) ∷ lines below
unfolding print_hex lines
extend_line-above zero c v below = refl
extend_line-above (suc n) c v below =
    let d = hex_char (v / 16 ^ n % 16) in
    let inside : (d == newline) ≡ false = ground arith in
    rw (inside, extend_line-above n d v below) refl

lines-above :
    (v : ℕ) (below : Text) → lines (nwid_line v ++ newline ∷ below) ≡ nwid_line v ∷ lines below
unfolding lines
lines-above v below = rw (extend_line-above 16 61 v below) refl

-- The later id counts.
abbrev over : Option ℕ → Option ℕ → Option ℕ
over none found = found
over (some id) found = some id

last_nwid-over :
    (a : Bool) (ls : List Text) (found : Option ℕ)
    → last_nwid a ls found ≡ over (last_nwid a ls none) found
unfolding last_nwid
last_nwid-over a [] found = refl
last_nwid-over a (l ∷ ls) found = elim (Option-cases (nwid_of_line a l)) [
  | inl e ↦ rw e (last_nwid-over a ls found)
  | inr (x, e) ↦ elim (Option-cases (last_nwid a ls none)) [
    | inl none_ ↦ rw (e, last_nwid-over a ls (some x), none_) refl
    | inr (y, found_) ↦ rw (e, last_nwid-over a ls (some x), found_) refl
  ]
]

last_nwid-found :
    (a : Bool) (v : ℕ) (ls : List Text) (found : Option ℕ)
    → v < 2 ^ 64
    → v ≢ 0
    → last_nwid a ls none ≡ none
    → last_nwid a (nwid_line v ∷ ls) found ≡ some v
unfolding last_nwid
last_nwid-found a v ls found h nonzero silent =
    rw (nwid_of_line-nwid_line a v h nonzero, last_nwid-over a ls (some v), silent) refl

-- A line `nwid=` with sixteen lower-case hexadecimal digits behind it, of an id that is not 0, stands
-- behind a line break and either ends the configuration or is followed by lines in which no id is
-- found. The id that is found in the configuration is that of the digits, whatever stands above them.
pub parse_nwid-appended :
    (text below : Text) (a : Bool) (v : ℕ)
    → v < 2 ^ 64
    → v ≢ 0
    → parse_nwid below a ≡ none
    → (parse_nwid (text ++ newline ∷ nwid_line v) a ≡ some v)
      × (parse_nwid (text ++ newline ∷ (nwid_line v ++ newline ∷ below)) a ≡ some v)
unfolding parse_nwid
parse_nwid-appended text below a v h nonzero silent = (
  (let (l, ls, e) = lines-append text (nwid_line v) in
      rw (e, lines-nwid_line v)
        (last_nwid-append a (l ∷ ls) (nwid_line v ∷ []) none
          ∙ last_nwid-found a v [] (last_nwid a (l ∷ ls) none) h nonzero
              (unfold last_nwid in refl))),
  (let (l, ls, e) = lines-append text (nwid_line v ++ newline ∷ below) in
      rw (e, lines-above v below)
        (last_nwid-append a (l ∷ ls) (nwid_line v ∷ lines below) none
          ∙ last_nwid-found a v (lines below) (last_nwid a (l ∷ ls) none) h nonzero silent)),
)
