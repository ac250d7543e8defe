-- ===== src/Config/Keys/Range.antt =====
-- An address that is read from config.ini has 32 bits.
use sys_grid.Base.{
  ℕ, zero, suc, ◌*◌, ◌/◌, ◌^◌, ◌<◌, ◌≤◌, arith, ◌||◌, Option, none, some, List, [], ◌∷◌, Bool-cases,
  Option-cases, inl, inr, bit_or, bit_or-sum, u32, ltb, ◌==◌,
}
use sys_grid.Config.{Text, lines}
use sys_grid.Config.Keys.{
  setting, read_decimal, read_octet, read_octets, behind_dot, last_ipv4, config_ipv4,
}

IsWord : Option ℕ → Type 0
IsWord none = Unit
IsWord (some ip) = ip < 4294967296

IsOctet : Option (ℕ × Text) → Type 0
IsOctet none = Unit
IsOctet (some (value, rest)) = value ≤ 255

read_octet-IsOctet : (q : Text) → IsOctet (read_octet q)
unfolding IsOctet
read_octet-IsOctet q =
    let r = read_decimal 0 0 q in
    elim (Bool-cases (r.1 == 0 || ltb 255 r.0)) [
      | inl bad ↦ rw bad tt
      | inr good ↦ rw good (ground arith)
    ]

read_octets-IsWord : (left ip : ℕ) (q : Text) → ip < 4294967296 → IsWord (read_octets left ip q)
unfolding read_octets IsWord
read_octets-IsWord zero ip q h = h
read_octets-IsWord (suc left) ip q h = elim (Option-cases (read_octet q)) [
  | inl bad ↦ rw (bad, read_octets) tt
  | inr (r, good) ↦
      let small : r.0 ≤ 255 = unfold IsOctet in rw good at (read_octet-IsOctet q) in
      let joined =
        bit_or-sum 8 (u32 (ip * 2 ^ 8) / 256) (u32 (ip * 2 ^ 8)) r.0 (omega arith) (omega arith) in
      let next : bit_or (u32 (ip * 2 ^ 8)) r.0 < 4294967296 = omega arith in
      elim (Bool-cases (left == 0)) [
        | inl last ↦ rw (good, read_octets, last) next
        | inr more ↦ elim (Option-cases (behind_dot r.1)) [
          | inl cut ↦ rw (good, read_octets, more, cut) tt
          | inr (t, dot) ↦ rw (good, read_octets, more, dot) (read_octets-IsWord left _ t next)
        ]
      ]
]

last_ipv4-lt :
    (key : Text) (ls : List Text) (result : ℕ)
    → result < 4294967296
    → last_ipv4 key ls result < 4294967296
unfolding last_ipv4
last_ipv4-lt key [] result h = h
last_ipv4-lt key (l ∷ ls) result h = elim (Option-cases (setting key l)) [
  | inl plain ↦ rw (plain, last_ipv4) (last_ipv4-lt key ls result h)
  | inr (q, set) ↦ elim (Option-cases (read_octets 4 0 q)) [
    | inl bad ↦ rw (set, last_ipv4, bad) (omega arith)
    | inr (ip, good) ↦
        let word : ip < 4294967296 =
          unfold IsWord in rw good at (read_octets-IsWord 4 0 q (omega arith)) in
        rw (set, last_ipv4, good) (last_ipv4-lt key ls ip word)
  ]
]

-- The address that a key is set to has 32 bits, whatever the file holds.
pub config_ipv4-lt : (file : Option Text) (key : Text) → config_ipv4 file key < 4294967296
unfolding config_ipv4
config_ipv4-lt none key = omega arith
config_ipv4-lt (some text) key = last_ipv4-lt key (lines text) 0 (omega arith)
