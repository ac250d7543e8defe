-- ===== src/Files/Paths.antt =====
-- The paths of two state objects are equal only if the objects are.
use sys_grid.Base.{
  ℕ, zero, suc, ◌+◌, ◌*◌, ◌/◌, ◌%◌, ◌^◌, ◌<◌, ◌≡◌, ◌↔◌, refl, sym, ap, ◌∙◌, arith, Bool, true,
  false, not, ◌&&◌, ◌||◌, [], ◌∷◌, ◌++◌, Option, none, some, ◌==◌, ltb, if◌then◌else◌, Bool-cases,
  inl, inr, get_or, drop, subst, ltb→lt, ==→eq,
}
use native.Mathlib.Nat.{div-eq_of_lt}
use sys_grid.Config.{Text, hex_digit}
use sys_grid.Config.Nwid.{div_step, print_hex, hex_char, hex_digit-hex_char}
use sys_grid.Files.{
  StateObject, identity_public, identity_secret, planet, network_config, peer, other_object,
  conf_ending, peer_ending, hex_width, print_llx, state_path,
}

-- The value of the digits at the head of a text.
hex_value : Text → ℕ → ℕ
hex_value [] value = value
hex_value (c ∷ t) value = elim (hex_digit c) [
  | none ↦ value
  | some d ↦ hex_value t (value * 16 + d)
]

hex_value-digit :
    (c d value : ℕ) (t : Text)
    → hex_digit c ≡ some d
    → hex_value (c ∷ t) value ≡ hex_value t (value * 16 + d)
unfolding hex_value
hex_value-digit c d value t e = rw (e, hex_value) refl

hex_value-print_hex : (n v : ℕ) (t : Text) → hex_value (print_hex n v ++ 46 ∷ t) (v / 16 ^ n) ≡ v
unfolding print_hex
hex_value-print_hex zero v t = unfold hex_value hex_digit in omega arith
hex_value-print_hex (suc n) v t =
    let joined : (v / 16 ^ suc n) * 16 + v / 16 ^ n % 16 ≡ v / 16 ^ n =
      omega (arith, div_step v n) in
    hex_value-digit (hex_char (v / 16 ^ n % 16)) (v / 16 ^ n % 16) (v / 16 ^ suc n)
      (print_hex n v ++ 46 ∷ t) (hex_digit-hex_char (v / 16 ^ n % 16) (omega arith))
    ∙ ap (λ (x : ℕ). hex_value (print_hex n v ++ 46 ∷ t) x) joined
    ∙ hex_value-print_hex n v t

hex_width-lt : (left p v : ℕ) → v < 16 ^ (p + left) → v < 16 ^ hex_width left p v
unfolding hex_width
hex_width-lt zero p v h = let all : p + 0 ≡ p = omega arith in subst (λ (t : ℕ). v < 16 ^ t) all h
hex_width-lt (suc left) p v h =
    let all : p + suc left ≡ suc p + left = omega arith in
    let later = hex_width-lt left (suc p) v (subst (λ (t : ℕ). v < 16 ^ t) all h) in
    elim (Bool-cases (ltb v (16 ^ p))) [
      | inl fits ↦ rw fits (ltb→lt v (16 ^ p) fits)
      | inr wider ↦ rw wider later
    ]

hex_value-print_llx :
    (p v : ℕ) (t : Text) → v < 16 ^ (p + 16) → hex_value (print_llx p v ++ 46 ∷ t) 0 ≡ v
hex_value-print_llx p v t h =
    let w = hex_width 16 p v in
    let none_above : v / 16 ^ w ≡ 0 = div-eq_of_lt (hex_width-lt 16 p v h) in
    ap (λ (x : ℕ). hex_value (print_hex w v ++ 46 ∷ t) x) (sym none_above)
    ∙ hex_value-print_hex w v t

-- What tells the objects apart: the kind, and the number where the path names it.
abbrev pub kind : StateObject → ℕ
kind identity_public = 1
kind identity_secret = 2
kind planet = 3
kind network_config = 4
kind peer = 5
kind other_object = 0

abbrev pub is_numbered : StateObject → Bool
is_numbered network_config = true
is_numbered peer = true
is_numbered t = false

abbrev pub same_object : StateObject → ℕ → StateObject → ℕ → Bool
same_object t id t' id' = kind t == kind t' && (not (is_numbered t) || id == id')

-- The kind and the number, read back from what follows the root.
key_of : Text → ℕ × ℕ
key_of t =
    if get_or t 0 0 == 105
    then (if get_or t 9 0 == 112 then 1 else 2, 0)
    else if get_or t 0 0 == 110
    then (4, hex_value (drop 11 t) 0)
    else if get_or t 1 0 == 108
    then (3, 0)
    else (5, hex_value (drop 8 t) 0)

path_key : Option Text → ℕ × ℕ
path_key none = (0, 0)
path_key (some p) = key_of (drop 46 p)

path_key-state_path :
    (t : StateObject) (id : ℕ)
    → id < 2 ^ 64
    → path_key (state_path t id) ≡ (kind t, if is_numbered t then id else 0)
unfolding path_key state_path key_of
path_key-state_path identity_public id h = refl
path_key-state_path identity_secret id h = refl
path_key-state_path planet id h = refl
path_key-state_path network_config id h =
    ap (λ (v : ℕ). (4, v)) (hex_value-print_llx 16 id (drop 1 conf_ending) (omega arith))
path_key-state_path peer id h =
    ap (λ (v : ℕ). (5, v)) (hex_value-print_llx 10 id (drop 1 peer_ending) (omega arith))
path_key-state_path other_object id h = refl

of_kind : ℕ → StateObject
of_kind k =
    if k == 1
    then identity_public
    else if k == 2
    then identity_secret
    else if k == 3
    then planet
    else if k == 4
    then network_config
    else if k == 5
    then peer
    else other_object

of_kind-kind : (t : StateObject) → of_kind (kind t) ≡ t
unfolding of_kind
of_kind-kind identity_public = refl
of_kind-kind identity_secret = refl
of_kind-kind planet = refl
of_kind-kind network_config = refl
of_kind-kind peer = refl
of_kind-kind other_object = refl

kind-injective : (t t' : StateObject) → kind t ≡ kind t' → t ≡ t'
kind-injective t t' e = sym (of_kind-kind t) ∙ ap of_kind e ∙ of_kind-kind t'

same_id :
    (t : StateObject) (id id' : ℕ)
    → (not (is_numbered t) || id == id') ≡ true
    → state_path t id ≡ state_path t id'
unfolding state_path
same_id identity_public id id' e = refl
same_id identity_secret id id' e = refl
same_id planet id id' e = refl
same_id network_config id id' e = ap (state_path network_config) (==→eq id id' e)
same_id peer id id' e = ap (state_path peer) (==→eq id id' e)
same_id other_object id id' e = refl

-- For ids of 64 bits: two state objects have the same path, or both have none, exactly when they are of
-- the same kind and, for the configuration of a network and for a peer, have the same id.
pub state_path_iff :
    (t : StateObject) (id : ℕ) (t' : StateObject) (id' : ℕ)
    → id < 2 ^ 64
    → id' < 2 ^ 64
    → (state_path t id ≡ state_path t' id') ↔ (same_object t id t' id' ≡ true)
state_path_iff t id t' id' h h' = (
  λ e.
      let keys = sym (path_key-state_path t id h) ∙ ap path_key e ∙ path_key-state_path t' id' h' in
      let kinds : kind t ≡ kind t' = ap (λ (k : ℕ × ℕ). k.0) keys in
      let ids : (if is_numbered t then id else 0) ≡ (if is_numbered t then id' else 0) =
        ap (λ (k : ℕ × ℕ). k.1) keys
        ∙ ap (λ (u : StateObject). if is_numbered u then id' else 0)
            (sym (kind-injective t t' kinds)) in
      ground (arith, kinds, ids),
  λ e.
      let kinds : kind t ≡ kind t' = ground (arith, e) in
      let numbers : (not (is_numbered t) || id == id') ≡ true = ground (arith, e) in
      same_id t id id' numbers
      ∙ ap (λ (u : StateObject). state_path u id') (kind-injective t t' kinds),
)
