-- ===== src/Config/Keys.antt =====
-- source/zt_port.cpp: the settings of config.ini that are flags, numbers and addresses.
pub mod Range
use sys_grid.Base.{
  ℕ, zero, suc, ◌+◌, ◌-◌, ◌*◌, Bool, ◌&&◌, ◌||◌, List, [], ◌∷◌, Option, none, some, ◌==◌, ◌!=◌, ltb,
  leb, if◌then◌else◌, bit_or, u32, ◌<<<◌,
}
use sys_grid.Config.{Text, lines, skip, is_blank, starts_comment, assigned}

-- The text that a line assigns to `key`.
unfoldable pub setting : Text → Text → Option Text
setting key line = let p = skip is_blank line in if starts_comment p then none else assigned key p

-- The loop over decimal digits: the value, how many there were, and what lies behind them. The value
-- is the mathematical one; the `int` of the code holds it as long as it is below 2^31.
unfoldable pub read_decimal : ℕ → ℕ → Text → ℕ × ℕ × Text
read_decimal value digits [] = (value, digits, [])
read_decimal value digits (c ∷ t) =
    let rest = read_decimal (value * 10 + (c - 48)) (digits + 1) t in
    if leb 48 c && leb c 57 then rest else (value, digits, c ∷ t)

-- ---- ConfigFlag ----

abbrev pub flag_of : Option Text → Bool → Bool
flag_of none result = result
flag_of (some []) result = result
flag_of (some (c ∷ t)) result = c != 48

unfoldable pub last_flag : Text → List Text → Bool → Bool
last_flag key [] result = result
last_flag key (l ∷ ls) result = last_flag key ls (flag_of (setting key l) result)

unfoldable pub config_flag : Option Text → Text → Bool → Bool
config_flag none key dflt = dflt
config_flag (some text) key dflt = last_flag key (lines text) dflt

-- ---- ConfigValue ----

abbrev pub value_of : Option Text → ℕ → ℕ
value_of none result = result
value_of (some q) result =
    let (value, digits, rest) = read_decimal 0 0 q in if ltb 0 digits then value else result

unfoldable pub last_value : Text → List Text → ℕ → ℕ
last_value key [] result = result
last_value key (l ∷ ls) result = last_value key ls (value_of (setting key l) result)

unfoldable pub config_value : Option Text → Text → ℕ → ℕ
config_value none key dflt = dflt
config_value (some text) key dflt = last_value key (lines text) dflt

-- ---- ConfigIpv4 ----

-- `q >= eol || *q != '.'`, and `++q`.
abbrev pub behind_dot : Text → Option Text
behind_dot [] = none
behind_dot (c ∷ t) = if c == 46 then some t else none

-- An octet and what lies behind it: no digits and a number above 255 are errors.
abbrev pub read_octet : Text → Option (ℕ × Text)
read_octet q =
    let (value, digits, rest) = read_decimal 0 0 q in
    if digits == 0 || ltb 255 value then none else some (value, rest)

-- The loop over the octets, with `left` to go; the last one needs no dot. none is `return 0`.
unfoldable pub read_octets : ℕ → ℕ → Text → Option ℕ
read_octets zero ip q = some ip
read_octets (suc left) ip q = elim (read_octet q) [
  | none ↦ none
  | some (value, rest) ↦
      let ip' = bit_or (u32 (ip <<< 8)) value in
      if left == 0
      then some ip'
      else elim (behind_dot rest) [ none ↦ none | some t ↦ read_octets left ip' t ]
]

-- A line that assigns something else than an address ends the search with 0.
unfoldable pub last_ipv4 : Text → List Text → ℕ → ℕ
last_ipv4 key [] result = result
last_ipv4 key (l ∷ ls) result = elim (setting key l) [
  | none ↦ last_ipv4 key ls result
  | some q ↦ elim (read_octets 4 0 q) [ none ↦ 0 | some ip ↦ last_ipv4 key ls ip ]
]

unfoldable pub config_ipv4 : Option Text → Text → ℕ
config_ipv4 none key = 0
config_ipv4 (some text) key = last_ipv4 key (lines text) 0
