-- ===== src/Vnet/Receive/Slots.antt =====
-- The choice of a reassembly slot.
use sys_grid.Base.{
  ℕ, zero, suc, ◌+◌, ◌<◌, ◌≤◌, ◌≡◌, refl, subst, arith, ◌⊎◌, true, false, not, Option, none, some,
  ltb, if◌then◌else◌, Bool-cases, inl, inr,
}
use sys_grid.Vnet.{Reasm, reasm_slots}
use sys_grid.Vnet.Receive.{Fragment, same_packet, find_slot}

-- What the search promises: the slot of the packet, if it finds one, and that there is none if not;
-- the victim is a slot of the table either way.
abbrev pub Found : (ℕ → Reasm) → Fragment → ℕ → ℕ → Option ℕ → Type 0
Found reasm f i left none = (j : ℕ) → i ≤ j → j < i + left → same_packet (reasm j) f ≡ false
Found reasm f i left (some s) = (i ≤ s) × (s < i + left) × (same_packet (reasm s) f ≡ true)

find_slot_step :
    (reasm : ℕ → Reasm) (f : Fragment) (left i victim : ℕ)
    → find_slot reasm f (suc left) i victim ≡ (
        if same_packet (reasm i) f
        then (some i, victim)
        else find_slot reasm f left (suc i) (
            if not (reasm i).used
            then i
            else if ltb (reasm i).age (reasm victim).age
            then i
            else victim))
unfolding find_slot
find_slot_step reasm f left i victim = refl

Found-cons :
    (reasm : ℕ → Reasm) (f : Fragment) (i left : ℕ) (o : Option ℕ)
    → same_packet (reasm i) f ≡ false
    → Found reasm f (suc i) left o
    → Found reasm f i (suc left) o
Found-cons reasm f i left none miss h = λ j a b. elim (here j a) [
  | inl e ↦ subst (λ n. same_packet (reasm n) f ≡ false) e miss
  | inr later ↦ h j later (omega arith)
]
  where
    here : (j : ℕ) → i ≤ j → (i ≡ j) ⊎ (suc i ≤ j)
    here j a = omega arith
Found-cons reasm f i left (some s) miss h = (omega (arith, h), omega (arith, h), h.2)

-- The search finds the slot of the packet, and only where there is one.
pub find_slot_lem :
    (reasm : ℕ → Reasm) (f : Fragment) (left i victim : ℕ)
    → Found reasm f i left (find_slot reasm f left i victim).0
find_slot_lem reasm f zero i victim = unfold find_slot in λ j a b. absurd (omega arith)
find_slot_lem reasm f (suc left) i victim = elim (Bool-cases (same_packet (reasm i) f)) [
  | inl hit ↦ rw (find_slot_step reasm f left i victim, hit) (omega arith, omega arith, hit)
  | inr miss ↦
      rw (find_slot_step reasm f left i victim, miss)
        (Found-cons reasm f i left _ miss (find_slot_lem reasm f left (suc i) _))
]

-- When every slot is in use: the slot of the packet, or, when it has none, the oldest slot.
abbrev pub Chosen : (ℕ → Reasm) → Fragment → Option ℕ × ℕ → Type 0
Chosen reasm f (some s, victim) = (s < reasm_slots) × (same_packet (reasm s) f ≡ true)
Chosen reasm f (none, victim) =
    (victim < reasm_slots)
    × ((j : ℕ)
        → j < reasm_slots
        → (same_packet (reasm j) f ≡ false) × ((reasm victim).age ≤ (reasm j).age))

-- The victim so far is the oldest of the slots below `i`, of which none has the packet.
abbrev IsOldest : (ℕ → Reasm) → Fragment → ℕ → ℕ → Type 0
IsOldest reasm f i victim =
    (victim < reasm_slots)
    × ((j : ℕ) → j < i → (same_packet (reasm j) f ≡ false) × ((reasm victim).age ≤ (reasm j).age))

IsOldest-suc :
    (reasm : ℕ → Reasm) (f : Fragment) (i victim : ℕ)
    → i < reasm_slots
    → same_packet (reasm i) f ≡ false
    → IsOldest reasm f i victim
    → IsOldest reasm f (suc i) (if ltb (reasm i).age (reasm victim).age then i else victim)
IsOldest-suc reasm f i victim h miss old =
    elim (Bool-cases (ltb (reasm i).age (reasm victim).age)) [
      | inl older ↦
          let less : (reasm i).age < (reasm victim).age = ground arith in
          rw older (
            h,
            λ j below. elim (last j below) [
              | inl before ↦ ((old.1 j before).0, omega (arith, (old.1 j before).1, less))
              | inr e ↦
                  subst (λ n. (same_packet (reasm n) f ≡ false) × ((reasm i).age ≤ (reasm n).age)) e
                    (miss, omega arith)
            ],
          )
      | inr younger ↦
          let most : (reasm victim).age ≤ (reasm i).age = ground arith in
          rw younger (
            old.0,
            λ j below. elim (last j below) [
              | inl before ↦ old.1 j before
              | inr e ↦
                  subst
                    (λ n. (same_packet (reasm n) f ≡ false) × ((reasm victim).age ≤ (reasm n).age))
                    e (miss, most)
            ],
          )
    ]
  where
    last : (j : ℕ) → j < suc i → (j < i) ⊎ (i ≡ j)
    last j below = omega arith

find_slot-Chosen_from :
    (reasm : ℕ → Reasm) (f : Fragment) (left i victim : ℕ)
    → i + left ≡ reasm_slots
    → ((j : ℕ) → j < reasm_slots → (reasm j).used ≡ true)
    → IsOldest reasm f i victim
    → Chosen reasm f (find_slot reasm f left i victim)
find_slot-Chosen_from reasm f zero i victim h busy old =
    unfold find_slot in (old.0, λ j below. old.1 j (omega arith))
find_slot-Chosen_from reasm f (suc left) i victim h busy old =
    elim (Bool-cases (same_packet (reasm i) f)) [
      | inl hit ↦ rw (find_slot_step reasm f left i victim, hit) (omega arith, hit)
      | inr miss ↦
          rw (find_slot_step reasm f left i victim, miss, busy i (omega arith))
            (find_slot-Chosen_from reasm f left (suc i) _ (omega arith) busy
              (IsOldest-suc reasm f i victim (omega arith) miss old))
    ]

-- When every slot of the table is in use, the search gives the slot that a fragment's packet has, and
-- if it has none, it says so, and the slot to evict is one whose last fragment is the oldest.
pub find_slot-Chosen :
    (reasm : ℕ → Reasm) (f : Fragment)
    → ((j : ℕ) → j < reasm_slots → (reasm j).used ≡ true)
    → Chosen reasm f (find_slot reasm f reasm_slots 0 0)
find_slot-Chosen reasm f busy =
    find_slot-Chosen_from reasm f reasm_slots 0 0 refl busy
      (omega arith, λ j below. absurd (omega arith))

-- The state that the search does not treat as meant: slot 0 is free, but was released later than the
-- packet of slot 1 got its last fragment; the slots 2 and 3 hold younger packets.
pub record LeftBehind (reasm : ℕ → Reasm) (f : Fragment) : Type 0 where
  pub free : (reasm 0).used ≡ false
  pub busy : (i : ℕ) → 0 < i → (reasm i).used ≡ true
  pub stale : (reasm 1).age < (reasm 0).age
  pub second : (reasm 1).age ≤ (reasm 2).age
  pub third : (reasm 1).age ≤ (reasm 3).age
  pub new : (i : ℕ) → same_packet (reasm i) f ≡ false

-- A fragment of a new packet then takes slot 1, whose packet is unfinished, although slot 0 is free:
-- the test for the oldest slot compares with the age that the free slot still holds.
pub find_slot-evicts :
    (reasm : ℕ → Reasm) (f : Fragment)
    → LeftBehind reasm f
    → (find_slot reasm f reasm_slots 0 0 ≡ (none, 1))
      × ((reasm 1).used ≡ true)
      × ((reasm 0).used ≡ false)
find_slot-evicts reasm f h =
    let older : ltb (reasm 1).age (reasm 0).age ≡ true = ground (arith, h.stale) in
    let second : ltb (reasm 2).age (reasm 1).age ≡ false = ground (arith, h.second) in
    let third : ltb (reasm 3).age (reasm 1).age ≡ false = ground (arith, h.third) in
    let chosen : find_slot reasm f 4 0 0 ≡ (none, 1) =
      rw
        (
          find_slot_step reasm f 3 0 0,
          h.new 0,
          h.free,
          find_slot_step reasm f 2 1 0,
          h.new 1,
          h.busy 1 (omega arith),
          older,
          find_slot_step reasm f 1 2 1,
          h.new 2,
          h.busy 2 (omega arith),
          second,
          find_slot_step reasm f 0 3 1,
          h.new 3,
          h.busy 3 (omega arith),
          third,
        )
        (unfold find_slot in refl) in
    (chosen, h.busy 1 (omega arith), h.free)
