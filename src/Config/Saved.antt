-- ===== src/Config/Saved.antt =====
-- source/zt_port.cpp: the selected network, the catalog of saved networks, and the order in which
-- they are tried.
use sys_grid.Base.{
  ℕ, ◌+◌, ◌-◌, Bool, true, false, not, ◌&&◌, ◌||◌, List, [], ◌∷◌, Option, none, some, ◌==◌, ltb,
  leb, if◌then◌else◌, length, take, get_last?,
}
use sys_grid.Config.{
  Text, lines, skip, is_blank, is_quote, is_comment, starts_comment, assigned, parse_id, parse_nwid,
  nwid_key,
}

-- Equality of texts: equal lengths and `strncmp`.
unfoldable pub same_text : Text → Text → Bool
same_text [] [] = true
same_text [] (d ∷ u) = false
same_text (c ∷ t) [] = false
same_text (c ∷ t) (d ∷ u) = c == d && same_text t u

-- `while (end > q && blank(end[-1])) --end`: the text without the blanks at its end.
abbrev pub is_trailing : ℕ → Bool
is_trailing c = c == 32 || c == 9 || c == 13

abbrev pub keep_char : ℕ → Text → Text
keep_char c [] = if is_trailing c then [] else c ∷ []
keep_char c (d ∷ t) = c ∷ d ∷ t

unfoldable pub trim_end : Text → Text
trim_end [] = []
trim_end (c ∷ t) = keep_char c (trim_end t)

-- The first and the last character are the same quote.
abbrev pub closes : ℕ → Option ℕ → Bool
closes c none = false
closes c (some d) = is_quote c && d == c

unfoldable pub unquote : Text → Text
unquote [] = []
unquote (c ∷ t) =
    if leb 2 (length (c ∷ t)) && closes c (get_last? (c ∷ t)) then take (length t - 1) t else c ∷ t

-- The result of a line that assigns: its value, if it fits the buffer.
abbrev pub fitted : ℕ → Text → Option Text
fitted out_len value =
    if ltb 0 (length value) && ltb (length value) out_len then some value else none

-- A round of `ParseConfigString`: the line leaves the result alone (none) or sets it.
abbrev pub set_by : ℕ → Option Text → Option (Option Text)
set_by out_len none = none
set_by out_len (some q) = some (fitted out_len (unquote (trim_end q)))

unfoldable pub string_of_line : Text → ℕ → Text → Option (Option Text)
string_of_line key out_len line =
    let p = skip is_blank line in if starts_comment p then none else set_by out_len (assigned key p)

abbrev pub newer : Option (Option Text) → Option Text → Option Text
newer none found = found
newer (some value) found = value

unfoldable pub last_string : Text → ℕ → List Text → Option Text → Option Text
last_string key out_len [] found = found
last_string key out_len (l ∷ ls) found =
    last_string key out_len ls (newer (string_of_line key out_len l) found)

unfoldable pub parse_config_string : Text → Text → ℕ → Option Text
parse_config_string text key out_len =
    if out_len == 0 then none else last_string key out_len (lines text) none

-- The name of a section header, the text behind `[` up to `]`; none when `]` is missing.
abbrev pub add_char : ℕ → Option Text → Option Text
add_char c none = none
add_char c (some t) = some (c ∷ t)

unfoldable pub header_name : Text → Option Text
header_name [] = none
header_name (c ∷ t) = let rest = header_name t in if c == 93 then some [] else add_char c rest

-- What a line of the catalog is, its leading blanks skipped.
pub data Entry : Type 0 where
  header : Option Text → Entry
  id_line : Text → Entry
  other : Entry

abbrev pub id_entry : Option Text → Entry
id_entry none = other
id_entry (some q) = id_line q

abbrev pub entry_of : Text → Entry
entry_of [] = other
entry_of (c ∷ t) =
    if c == 91
    then header (header_name t)
    else if is_comment c
    then other
    else id_entry (assigned nwid_key (c ∷ t))

abbrev pub names : Text → Option Text → Bool
names wanted none = false
names wanted (some name) = same_text name wanted

-- A round of `ParseSavedNetwork`; `rest` is what the later lines give, in or out of the section.
abbrev pub saved_by : Text → Entry → Bool → (Bool → Option ℕ) → Option ℕ
saved_by wanted (header name) in_section rest = rest (names wanted name)
saved_by wanted (id_line q) in_section rest = if in_section then parse_id q else rest in_section
saved_by wanted other in_section rest = rest in_section

-- The loop of `ParseSavedNetwork`: the first id line of a section `wanted` decides.
unfoldable pub find_saved : Text → List Text → Bool → Option ℕ
find_saved wanted [] in_section = none
find_saved wanted (l ∷ ls) in_section =
    saved_by wanted (entry_of (skip is_blank l)) in_section (λ b. find_saved wanted ls b)

unfoldable pub parse_saved_network : Text → Text → Option ℕ
parse_saved_network text wanted = find_saved wanted (lines text) false

-- "sys-zerotier".
abbrev pub own_section : Text
own_section = 115 ∷ 121 ∷ 115 ∷ 45 ∷ 122 ∷ 101 ∷ 114 ∷ 111 ∷ 116 ∷ 105 ∷ 101 ∷ 114 ∷ []

-- The state of `ParseFirstSavedNetwork`: the section, if it is usable, the first candidate, and how
-- many there are.
pub record Search : Type 0 where
  pub section : Option Text
  pub candidate : Option (Text × ℕ)
  pub valid_count : ℕ

abbrev pub usable : Option Text → Option Text
usable none = none
usable (some name) =
    if ltb 0 (length name) && ltb (length name) 96 && not (same_text name own_section)
    then some name
    else none

-- A valid id in the section `name`.
abbrev pub add_candidate : ℕ → Search → Text → Option ℕ → Search
add_candidate name_len s name none = s
add_candidate name_len s name (some id) =
    if ltb (length name) name_len
    then record s {
      candidate = if s.valid_count == 0 then some (name, id) else s.candidate;
      valid_count = s.valid_count + 1;
    }
    else s

abbrev pub take_id : ℕ → Search → Option Text → Text → Search
take_id name_len s none q = s
take_id name_len s (some name) q = add_candidate name_len s name (parse_id q)

abbrev pub search_line : ℕ → Search → Entry → Search
search_line name_len s (header name) = record s { section = usable name }
search_line name_len s (id_line q) = take_id name_len s s.section q
search_line name_len s other = s

unfoldable pub search_catalog : ℕ → List Text → Search → Search
search_catalog name_len [] s = s
search_catalog name_len (l ∷ ls) s =
    search_catalog name_len ls (search_line name_len s (entry_of (skip is_blank l)))

unfoldable pub parse_first_saved_network : Text → ℕ → Option (Text × ℕ)
parse_first_saved_network text name_len =
    let s =
      search_catalog name_len (lines text)
        (record { section = none; candidate = none; valid_count = 0 }) in
    if s.valid_count == 1 then s.candidate else none

-- ---- ResolveConfiguredNetworkId ----

-- "selected" and "network".
abbrev pub selected_key : Text
selected_key = 115 ∷ 101 ∷ 108 ∷ 101 ∷ 99 ∷ 116 ∷ 101 ∷ 100 ∷ []

abbrev pub network_key : Text
network_key = 110 ∷ 101 ∷ 116 ∷ 119 ∷ 111 ∷ 114 ∷ 107 ∷ []

abbrev pub or_else {ℓ} : {A : Type ℓ} → Option A → Option A → Option A
or_else none b = b
or_else (some a) b = some a

abbrev pub string_in : Option Text → Text → Option Text
string_in none key = none
string_in (some text) key = parse_config_string text key 96

abbrev pub saved_id : Option Text → Option Text → Option ℕ
saved_id none selected = none
saved_id (some saved) none = none
saved_id (some saved) (some name) = parse_saved_network saved name

abbrev pub direct_id : Option Text → Option ℕ
direct_id none = none
direct_id (some config) = parse_nwid config false

abbrev pub id_of : Option (Text × ℕ) → Option ℕ
id_of none = none
id_of (some c) = some c.1

abbrev pub only_saved : Option Text → Option ℕ
only_saved none = none
only_saved (some saved) = id_of (parse_first_saved_network saved 96)

unfoldable pub resolve_configured_network_id : Option Text → Option Text → Option ℕ
resolve_configured_network_id config saved =
    let selected = or_else (string_in saved selected_key) (string_in config network_key) in
    or_else (saved_id saved selected) (or_else (direct_id config) (only_saved saved))
