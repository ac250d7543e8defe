-- ===== src/Vnet/Sockets/Ephemeral.antt =====
-- The search for an ephemeral port always succeeds: the eight sockets cannot occupy nine ports.
use sys_grid.Base.{
  ℕ, zero, suc, ◌+◌, ◌-◌, ◌≤◌, ◌<◌, ◌%◌, ◌≡◌, ◌≢◌, ◌⊎◌, refl, arith, Bool, true, false, total,
  total-le_one, total-ge, ltb, ◌==◌, ◌&&◌, if◌then◌else◌, Bool-cases, inl, inr, total-add,
}
use native.Mathlib.Decide.{dec_lt}
use sys_grid.Vnet.{Socket, max_sockets}
use sys_grid.Vnet.Sockets.{find_ephemeral, port_taken, after_ephemeral}

abbrev pub binds : (ℕ → Socket) → ℕ → ℕ → Bool
binds socks port i = (socks i).used && (socks i).local_port == port

abbrev one_if : Bool → ℕ
one_if true = 1
one_if false = 0

-- How many of the next `n` candidates socket i occupies.
hits : (ℕ → Socket) → ℕ → ℕ → ℕ → ℕ
hits socks zero candidate i = 0
hits socks (suc n) candidate i =
    one_if (binds socks candidate i) + hits socks n (after_ephemeral candidate) i

abbrev IsEphemeral : ℕ → Type 0
IsEphemeral p = (49152 ≤ p) × (p < 65536)

after_ephemeral-IsEphemeral : (p : ℕ) → IsEphemeral p → IsEphemeral (after_ephemeral p)
after_ephemeral-IsEphemeral p h = ground arith

-- The steps from one candidate to another.
abbrev distance : ℕ → ℕ → ℕ
distance from to = (to + 16384 - from) % 16384

hits-zero :
    (socks : ℕ → Socket) (n candidate i : ℕ)
    → IsEphemeral candidate
    → ¬ IsEphemeral (socks i).local_port
    → hits socks n candidate i ≡ 0
unfolding hits
hits-zero socks zero candidate i h out = refl
hits-zero socks (suc n) candidate i h out =
    let rest =
      hits-zero socks n (after_ephemeral candidate) i (after_ephemeral-IsEphemeral candidate h)
        out in
    let miss : binds socks candidate i ≡ false = elim (Bool-cases (binds socks candidate i)) [
      | inl hit ↦ absurd (out (ground arith))
      | inr no_hit ↦ no_hit
    ] in
    rw miss (omega arith)

-- Within 16384 candidates a port comes up at most once, and not before its distance.
hits-distance :
    (socks : ℕ → Socket) (n candidate i : ℕ)
    → n ≤ 16384
    → IsEphemeral candidate
    → IsEphemeral (socks i).local_port
    → hits socks n candidate i ≤ (if ltb (distance candidate (socks i).local_port) n then 1 else 0)
unfolding hits
hits-distance socks zero candidate i h e p = omega arith
hits-distance socks (suc n) candidate i h e p =
    let rest =
      hits-distance socks n (after_ephemeral candidate) i (omega arith)
        (after_ephemeral-IsEphemeral candidate e) p in
    ground arith

hits-le_one :
    (socks : ℕ → Socket) (n candidate i : ℕ)
    → n ≤ 16384
    → IsEphemeral candidate
    → hits socks n candidate i ≤ 1
hits-le_one socks n candidate i h e = elim (in_range (socks i).local_port) [
  | inl inside ↦ ground (arith, hits-distance socks n candidate i h e inside)
  | inr outside ↦ omega (arith, hits-zero socks n candidate i e outside)
]
  where
    in_range : (p : ℕ) → IsEphemeral p ⊎ (¬ IsEphemeral p)
    in_range p = elim (dec_lt p 49152) [
      | yes low ↦ inr (λ q. absurd (omega arith))
      | no high ↦ elim (dec_lt p 65536) [
        | yes below ↦ inl (omega arith, below)
        | no above ↦ inr (λ q. absurd (omega arith))
      ]
    ]

-- A taken port is bound by one of the sockets.
taken-hit :
    (socks : ℕ → Socket) (port left i : ℕ)
    → port_taken socks port left i ≡ true
    → (j : ℕ) × (j < i + left) × (binds socks port j ≡ true)
unfolding port_taken
taken-hit socks port zero i e = cc
taken-hit socks port (suc left) i e = elim (Bool-cases (binds socks port i)) [
  | inl hit ↦ (i, omega arith, hit)
  | inr miss ↦
      let (j, below, hit) = taken-hit socks port left (suc i) (ground arith) in
      (j, omega arith, hit)
]

taken_counts :
    (socks : ℕ → Socket) (port : ℕ)
    → port_taken socks port max_sockets 0 ≡ true
    → 1 ≤ total max_sockets (λ i. one_if (binds socks port i))
taken_counts socks port e =
    let (j, below, hit) = taken-hit socks port max_sockets 0 e in
    let there = total-ge max_sockets (λ i. one_if (binds socks port i)) j (omega arith) in
    let one : one_if (binds socks port j) ≡ 1 = rw hit in omega arith

-- A search that fails has met a bound socket at every candidate.
failed_search :
    (socks : ℕ → Socket) (n candidate : ℕ)
    → IsEphemeral candidate
    → (find_ephemeral socks n candidate).0 ≡ 0
    → n ≤ total max_sockets (λ i. hits socks n candidate i)
unfolding find_ephemeral hits
failed_search socks zero candidate h e = omega arith
failed_search socks (suc n) candidate h e =
    elim (Bool-cases (port_taken socks candidate max_sockets 0)) [
      | inl taken ↦
          let rest =
            failed_search socks n (after_ephemeral candidate)
              (after_ephemeral-IsEphemeral candidate h) (ground arith) in
          omega (
            arith,
            taken_counts socks candidate taken,
            total-add max_sockets (λ i. one_if (binds socks candidate i))
                (λ i. hits socks n (after_ephemeral candidate) i),
          )
      | inr free ↦ absurd (ground arith)
    ]

free_port :
    (socks : ℕ → Socket) (n candidate : ℕ)
    → IsEphemeral candidate
    → (find_ephemeral socks n candidate).0 ≢ 0
    → (port_taken socks (find_ephemeral socks n candidate).0 max_sockets 0 ≡ false)
      × IsEphemeral (find_ephemeral socks n candidate).0
unfolding find_ephemeral
free_port socks zero candidate h e = absurd (e refl)
free_port socks (suc n) candidate h e =
    elim (Bool-cases (port_taken socks candidate max_sockets 0)) [
      | inl taken ↦ rw taken (
          free_port socks n (after_ephemeral candidate) (after_ephemeral-IsEphemeral candidate h)
            (ground arith))
      | inr free ↦ rw free (free, h)
    ]

not_taken :
    (socks : ℕ → Socket) (port left i j : ℕ)
    → port_taken socks port left i ≡ false
    → i ≤ j
    → j < i + left
    → binds socks port j ≡ false
unfolding port_taken
not_taken socks port zero i j e low high = absurd (omega arith)
not_taken socks port (suc left) i j e low high = ground (arith, not_taken socks port left (suc i) j)

-- The search for an ephemeral port succeeds within nine tries, and returns a port of the range
-- 49152 to 65535 that no socket is bound to.
pub find_ephemeral_lem :
    (socks : ℕ → Socket) (tries candidate : ℕ)
    → 9 ≤ tries
    → tries ≤ 16384
    → (49152 ≤ candidate) × (candidate < 65536)
    → let port = (find_ephemeral socks tries candidate).0 in
      (49152 ≤ port) × (port < 65536) × ((j : ℕ) → j < max_sockets → binds socks port j ≡ false)
find_ephemeral_lem socks tries candidate low high h =
    let found = free_port socks tries candidate h nonzero in
    (found.1.0, found.1.1, λ j k. not_taken socks _ max_sockets 0 j found.0 (omega arith) k)
  where
    nonzero : (find_ephemeral socks tries candidate).0 ≢ 0
    nonzero z =
        let many = failed_search socks tries candidate h z in
        let few =
          total-le_one max_sockets (λ i. hits socks tries candidate i)
            (λ i. hits-le_one socks tries candidate i high h) in
        absurd (omega arith)

-- The next candidate stays in the range.
pub find_ephemeral_next :
    (socks : ℕ → Socket) (tries candidate : ℕ)
    → (49152 ≤ candidate) × (candidate < 65536)
    → let next = (find_ephemeral socks tries candidate).1 in (49152 ≤ next) × (next < 65536)
unfolding find_ephemeral
find_ephemeral_next socks zero candidate h = h
find_ephemeral_next socks (suc tries) candidate h = ground (
  arith,
  after_ephemeral-IsEphemeral candidate h,
  find_ephemeral_next socks tries (after_ephemeral candidate)
      (after_ephemeral-IsEphemeral candidate h),
)
