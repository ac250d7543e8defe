-- ===== src/Config.antt =====
-- source/zt_port.cpp: the parsers of config.ini and networks.ini, and the choice of the network. A C
-- string is the list of its characters before the terminator; an output buffer with a Boolean
-- result is an Option. Reading a file is outside: a file is an Option, none when it cannot be read.
pub mod Saved
pub mod Keys
pub mod Nwid
pub mod Strings
pub mod Ids
use sys_grid.Base.{
  ℕ, zero, suc, ◌+◌, ◌-◌, ◌*◌, Bool, true, false, not, ◌&&◌, ◌||◌, List, [], ◌∷◌, ◌++◌, Option,
  none, some, ◌==◌, ◌!=◌, ltb, leb, if◌then◌else◌, length, bit_or, ◌<<<◌, u64, get_last?, take,
  is_some,
}

abbrev pub Text : Type 0
Text = List ℕ

-- '\n', ' ', '\t', '\r', '#', ';', '=', '[', ']', '\'' and '"'.
abbrev pub newline : ℕ
newline = 10

abbrev pub is_blank : ℕ → Bool
is_blank c = c == 32 || c == 9

abbrev pub is_comment : ℕ → Bool
is_comment c = c == 35 || c == 59

abbrev pub is_quote : ℕ → Bool
is_quote c = c == 39 || c == 34

-- `while (p < eol && test(*p)) ++p`.
abbrev pub skip : (ℕ → Bool) → Text → Text
skip test [] = []
skip test (c ∷ t) = let rest = skip test t in if test c then rest else c ∷ t

-- The lines that the loops `while (*line)` visit.
abbrev pub extend_line : ℕ → List Text → List Text
extend_line c [] = (c ∷ []) ∷ []
extend_line c (l ∷ ls) = (c ∷ l) ∷ ls

unfoldable pub lines : Text → List Text
lines [] = []
lines (c ∷ t) = let rest = lines t in if c == newline then [] ∷ rest else extend_line c rest

-- What lies behind `key`, if the text starts with it: the length test and `strncmp`.
unfoldable pub after_key : Text → Text → Option Text
after_key [] t = some t
after_key (k ∷ key) [] = none
after_key (k ∷ key) (c ∷ t) = let rest = after_key key t in if c == k then rest else none

-- What lies behind `=` and the blanks around it.
abbrev pub behind_equals : Text → Option Text
behind_equals [] = none
behind_equals (c ∷ t) = if c == 61 then some (skip is_blank t) else none

abbrev pub behind_key : Option Text → Option Text
behind_key none = none
behind_key (some t) = behind_equals (skip is_blank t)

-- The text behind `key =`, for a text whose leading blanks are gone.
unfoldable pub assigned : Text → Text → Option Text
assigned key p = behind_key (after_key key p)

abbrev pub starts_comment : Text → Bool
starts_comment [] = false
starts_comment (c ∷ t) = is_comment c

-- "nwid".
abbrev pub nwid_key : Text
nwid_key = 110 ∷ 119 ∷ 105 ∷ 100 ∷ []

unfoldable pub hex_digit : ℕ → Option ℕ
hex_digit c =
    if leb 48 c && leb c 57
    then some (c - 48)
    else if leb 97 c && leb c 102
    then some (c - 97 + 10)
    else if leb 65 c && leb c 70
    then some (c - 65 + 10)
    else none

-- The loop over the digits, with `left` to go: the value and how many were read.
unfoldable pub read_hex : ℕ → ℕ → ℕ → Text → ℕ × ℕ
read_hex zero value digits t = (value, digits)
read_hex (suc left) value digits [] = (value, digits)
read_hex (suc left) value digits (c ∷ t) = elim (hex_digit c) [
  | none ↦ (value, digits)
  | some d ↦ read_hex left (bit_or (u64 (value <<< 4)) d) (digits + 1) t
]

-- `digits == 16 && v != 0`.
unfoldable pub parse_id : Text → Option ℕ
parse_id t =
    let (value, digits) = read_hex 16 0 0 t in
    if digits == 16 && value != 0 then some value else none

abbrev pub parse_assigned : Option Text → Option ℕ
parse_assigned none = none
parse_assigned (some t) = parse_id t

-- A round of `ParseNwid`: the id that the line sets.
unfoldable pub nwid_of_line : Bool → Text → Option ℕ
nwid_of_line allow_commented line =
    let p = skip is_blank line in
    let p' = if allow_commented then skip (λ c. is_comment c || is_blank c) p else p in
    if allow_commented || not (starts_comment p')
    then parse_assigned (assigned nwid_key p')
    else none

-- The loop of `ParseNwid`; `found` is the id so far.
unfoldable pub last_nwid : Bool → List Text → Option ℕ → Option ℕ
last_nwid allow_commented [] found = found
last_nwid allow_commented (l ∷ ls) found =
    let id = nwid_of_line allow_commented l in
    last_nwid allow_commented ls (if is_some id then id else found)

unfoldable pub parse_nwid : Text → Bool → Option ℕ
parse_nwid text allow_commented = last_nwid allow_commented (lines text) none
