-- ===== src/Config/Strings.antt =====
-- What the parsers hand out fits: strings their buffers, ids 64 bits.
use sys_grid.Base.{
  ℕ, ◌<◌, arith, ◌&&◌, List, [], ◌∷◌, Option, none, some, ltb, ◌==◌, length, Bool-cases, inl, inr,
}
use sys_grid.Config.{Text, lines, skip, is_blank, starts_comment, assigned}
use sys_grid.Config.Saved.{fitted, set_by, string_of_line, newer, last_string, parse_config_string}

-- A string that is handed out has a character and leaves room for the terminator.
abbrev pub Fits : ℕ → Option Text → Type 0
Fits out_len none = Unit
Fits out_len (some value) = (0 < length value) × (length value < out_len)

abbrev Sets : ℕ → Option (Option Text) → Type 0
Sets out_len none = Unit
Sets out_len (some found) = Fits out_len found

fitted-Fits : (out_len : ℕ) (value : Text) → Fits out_len (fitted out_len value)
fitted-Fits out_len value = elim (Bool-cases (ltb 0 (length value) && ltb (length value) out_len)) [
  | inl fits ↦ rw fits (ground arith)
  | inr other ↦ rw other tt
]

set_by-Sets : (out_len : ℕ) (q : Option Text) → Sets out_len (set_by out_len q)
set_by-Sets out_len none = tt
set_by-Sets out_len (some q) = fitted-Fits out_len _

string_of_line-Sets :
    (key line : Text) (out_len : ℕ) → Sets out_len (string_of_line key out_len line)
unfolding string_of_line
string_of_line-Sets key line out_len = elim (Bool-cases (starts_comment (skip is_blank line))) [
  | inl comment ↦ rw comment tt
  | inr plain ↦ rw plain (set_by-Sets out_len (assigned key (skip is_blank line)))
]

newer-Fits :
    (out_len : ℕ) (value : Option (Option Text)) (found : Option Text)
    → Sets out_len value
    → Fits out_len found
    → Fits out_len (newer value found)
newer-Fits out_len none found s f = f
newer-Fits out_len (some value) found s f = s

last_string-Fits :
    (key : Text) (out_len : ℕ) (ls : List Text) (found : Option Text)
    → Fits out_len found
    → Fits out_len (last_string key out_len ls found)
unfolding last_string
last_string-Fits key out_len [] found f = f
last_string-Fits key out_len (l ∷ ls) found f =
    last_string-Fits key out_len ls _
      (newer-Fits out_len _ found (string_of_line-Sets key l out_len) f)

-- A value that is read from a configuration is not empty and fits its buffer with the terminator.
pub parse_config_string-Fits :
    (text key : Text) (out_len : ℕ) → Fits out_len (parse_config_string text key out_len)
unfolding parse_config_string
parse_config_string-Fits text key out_len = elim (Bool-cases (out_len == 0)) [
  | inl e ↦ rw e tt
  | inr e ↦ rw e (last_string-Fits key out_len (lines text) none tt)
]
