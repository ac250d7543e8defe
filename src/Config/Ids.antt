-- ===== src/Config/Ids.antt =====
-- The network ids that the parsers hand out are 64 bits and not 0.
use sys_grid.Base.{
  ℕ, zero, suc, ◌+◌, ◌*◌, ◌/◌, ◌^◌, ◌<◌, ◌≡◌, ◌≢◌, arith, Bool, true, false, not, ◌&&◌, ◌||◌, List,
  [], ◌∷◌, Option, none, some, bit_or-sum, u64, ltb, ◌==◌, ◌!=◌, if◌then◌else◌, length, Bool-cases,
  Option-cases, inl, inr, is_some,
}
use sys_grid.Config.{
  Text, lines, skip, is_blank, starts_comment, is_comment, hex_digit, read_hex, parse_id,
  parse_assigned, parse_nwid, last_nwid, nwid_of_line, assigned, nwid_key,
}
use sys_grid.Config.Saved.{
  find_saved, saved_by, parse_saved_network, entry_of, Entry, Search, usable, add_candidate,
  take_id, search_line, search_catalog, parse_first_saved_network, resolve_configured_network_id,
  same_text, saved_id, direct_id, only_saved, or_else, id_of, own_section, names, string_in,
  selected_key, network_key,
}
use sys_grid.Config.Strings.{Fits}

-- A network id: 64 bits, and not 0.
abbrev pub IsId : Option ℕ → Type 0
IsId none = Unit
IsId (some id) = (id ≢ 0) × (id < 2 ^ 64)

hex_digit-lt : (c d : ℕ) → hex_digit c ≡ some d → d < 16
unfolding hex_digit
hex_digit-lt c d e = ground arith

read_hex-lt :
    (left value digits : ℕ) (t : Text) → value < 2 ^ 64 → (read_hex left value digits t).0 < 2 ^ 64
unfolding read_hex
read_hex-lt zero value digits t h = h
read_hex-lt (suc left) value digits [] h = h
read_hex-lt (suc left) value digits (c ∷ t) h = elim (Option-cases (hex_digit c)) [
  | inl e ↦ rw (e, read_hex) h
  | inr (d, e) ↦
      let small = hex_digit-lt c d e in
      let joined =
        bit_or-sum 4 (u64 (value * 2 ^ 4) / 16) (u64 (value * 2 ^ 4)) d (omega arith)
          (omega arith) in
      rw (e, read_hex) (read_hex-lt left _ (digits + 1) t (omega arith))
]

parse_id-IsId : (t : Text) → IsId (parse_id t)
unfolding parse_id
parse_id-IsId t =
    let r = read_hex 16 0 0 t in
    elim (Bool-cases (r.1 == 16 && r.0 != 0)) [
      | inl good ↦ rw good (ground arith, read_hex-lt 16 0 0 t (omega arith))
      | inr bad ↦ rw bad tt
    ]

IsId-if : (c : Bool) (a b : Option ℕ) → IsId a → IsId b → IsId (if c then a else b)
IsId-if true a b x y = x
IsId-if false a b x y = y

or_else-IsId : (a b : Option ℕ) → IsId a → IsId b → IsId (or_else a b)
or_else-IsId none b x y = y
or_else-IsId (some id) b x y = x

parse_assigned-IsId : (q : Option Text) → IsId (parse_assigned q)
parse_assigned-IsId none = tt
parse_assigned-IsId (some t) = parse_id-IsId t

nwid_of_line-IsId : (a : Bool) (line : Text) → IsId (nwid_of_line a line)
unfolding nwid_of_line
nwid_of_line-IsId a line =
    let p =
      if a
      then skip (λ c. is_comment c || is_blank c) (skip is_blank line)
      else skip is_blank line in
    IsId-if (a || not (starts_comment p)) (parse_assigned (assigned nwid_key p)) none
      (parse_assigned-IsId (assigned nwid_key p)) tt

last_nwid-IsId :
    (a : Bool) (ls : List Text) (found : Option ℕ) → IsId found → IsId (last_nwid a ls found)
unfolding last_nwid
last_nwid-IsId a [] found h = h
last_nwid-IsId a (l ∷ ls) found h =
    last_nwid-IsId a ls _ (IsId-if (is_some (nwid_of_line a l)) _ found (nwid_of_line-IsId a l) h)

saved_by-IsId :
    (wanted : Text) (e : Entry) (in_section : Bool) (rest : Bool → Option ℕ)
    → ((b : Bool) → IsId (rest b))
    → IsId (saved_by wanted e in_section rest)
saved_by-IsId wanted (Entry.header name) in_section rest h = h (names wanted name)
saved_by-IsId wanted (Entry.id_line q) in_section rest h =
    IsId-if in_section (parse_id q) (rest in_section) (parse_id-IsId q) (h in_section)
saved_by-IsId wanted Entry.other in_section rest h = h in_section

find_saved-IsId :
    (wanted : Text) (ls : List Text) (in_section : Bool) → IsId (find_saved wanted ls in_section)
unfolding find_saved
find_saved-IsId wanted [] in_section = tt
find_saved-IsId wanted (l ∷ ls) in_section =
    saved_by-IsId wanted (entry_of (skip is_blank l)) in_section (λ b. find_saved wanted ls b)
      (λ b. find_saved-IsId wanted ls b)

-- The best candidate so far.
abbrev pub IsCandidate : ℕ → Option (Text × ℕ) → Type 0
IsCandidate name_len none = Unit
IsCandidate name_len (some (name, id)) = Fits name_len (some name) × IsId (some id)

abbrev Names : Option Text → Type 0
Names none = Unit
Names (some name) = 0 < length name

abbrev Searches : ℕ → Search → Type 0
Searches name_len s = Names s.section × IsCandidate name_len s.candidate

usable-Names : (name : Option Text) → Names (usable name)
usable-Names none = tt
usable-Names (some name) =
    elim (Bool-cases
      (ltb 0 (length name) && ltb (length name) 96 && not (same_text name own_section))) [
        | inl good ↦ rw good (ground arith)
        | inr bad ↦ rw bad tt
      ]

add_candidate-Searches :
    (name_len : ℕ) (s : Search) (name : Text) (id : Option ℕ)
    → 0 < length name
    → IsId id
    → Searches name_len s
    → Searches name_len (add_candidate name_len s name id)
add_candidate-Searches name_len s name none n i h = h
add_candidate-Searches name_len s name (some id) n i h =
    elim (Bool-cases (ltb (length name) name_len)) [
      | inl fits ↦ elim (Bool-cases (s.valid_count == 0)) [
        | inl first ↦ rw (fits, first) (h.0, ((n, ground arith), i))
        | inr later ↦ rw (fits, later) h
      ]
      | inr long ↦ rw long h
    ]

take_id-Searches :
    (name_len : ℕ) (s : Search) (section : Option Text) (q : Text)
    → Names section
    → Searches name_len s
    → Searches name_len (take_id name_len s section q)
take_id-Searches name_len s none q n h = h
take_id-Searches name_len s (some name) q n h =
    add_candidate-Searches name_len s name (parse_id q) n (parse_id-IsId q) h

search_line-Searches :
    (name_len : ℕ) (s : Search) (e : Entry)
    → Searches name_len s
    → Searches name_len (search_line name_len s e)
search_line-Searches name_len s (Entry.header name) h = (usable-Names name, h.1)
search_line-Searches name_len s (Entry.id_line q) h = take_id-Searches name_len s s.section q h.0 h
search_line-Searches name_len s Entry.other h = h

search_catalog-Searches :
    (name_len : ℕ) (ls : List Text) (s : Search)
    → Searches name_len s
    → Searches name_len (search_catalog name_len ls s)
unfolding search_catalog
search_catalog-Searches name_len [] s h = h
search_catalog-Searches name_len (l ∷ ls) s h =
    search_catalog-Searches name_len ls _
      (search_line-Searches name_len s (entry_of (skip is_blank l)) h)

-- The one network of a catalog that is chosen without a selection has a name that is not empty and
-- fits its buffer, and a valid id.
pub parse_first_saved_network-IsCandidate :
    (text : Text) (name_len : ℕ) → IsCandidate name_len (parse_first_saved_network text name_len)
unfolding parse_first_saved_network
parse_first_saved_network-IsCandidate text name_len =
    let s =
      search_catalog name_len (lines text)
        (record { section = none; candidate = none; valid_count = 0 }) in
    elim (Bool-cases (s.valid_count == 1)) [
      | inl one ↦ rw one (search_catalog-Searches name_len (lines text) _ (tt, tt)).1
      | inr bad ↦ rw bad tt
    ]

saved_id-IsId : (saved selected : Option Text) → IsId (saved_id saved selected)
saved_id-IsId none selected = tt
saved_id-IsId (some saved) none = tt
saved_id-IsId (some saved) (some name) =
    unfold parse_saved_network in find_saved-IsId name (lines saved) false

direct_id-IsId : (config : Option Text) → IsId (direct_id config)
direct_id-IsId none = tt
direct_id-IsId (some config) = unfold parse_nwid in last_nwid-IsId false (lines config) none tt

id_of-IsId : (c : Option (Text × ℕ)) → IsCandidate 96 c → IsId (id_of c)
id_of-IsId none h = tt
id_of-IsId (some c) h = h.1

only_saved-IsId : (saved : Option Text) → IsId (only_saved saved)
only_saved-IsId none = tt
only_saved-IsId (some saved) = id_of-IsId _ (parse_first_saved_network-IsCandidate saved 96)

-- The network that the configuration files settle on, whichever of them exist and whatever they
-- hold, has a 64-bit id that is not 0.
pub resolve_configured_network_id-IsId :
    (config saved : Option Text) → IsId (resolve_configured_network_id config saved)
unfolding resolve_configured_network_id
resolve_configured_network_id-IsId config saved =
    let selected = or_else (string_in saved selected_key) (string_in config network_key) in
    or_else-IsId (saved_id saved selected) (or_else (direct_id config) (only_saved saved))
      (saved_id-IsId saved selected)
      (or_else-IsId (direct_id config) (only_saved saved) (direct_id-IsId config)
        (only_saved-IsId saved))
