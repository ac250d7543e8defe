-- ===== src/Vnet/Address/Cache.antt =====
-- What the ARP cache answers after it has learnt an address.
use sys_grid.Base.{
  ℕ, zero, suc, ◌+◌, ◌≤◌, ◌<◌, ◌≡◌, ◌≢◌, ◌⊎◌, inl, inr, refl, Bool, true, false, ◌&&◌, arith, ◌==◌,
  ◌!=◌, if◌then◌else◌, ltb, Bool-cases,
}
use sys_grid.Net.{mac_broadcast}
use sys_grid.Vnet.{VNet, ArpEntry, arp_entries}
use sys_grid.Vnet.Address.{find_mac, lookup_mac, pick_entry, learn_mac, is_broadcast}

-- The test of both loops: entry `j` is in use for `ip`.
abbrev pub holds : (ℕ → ArpEntry) → ℕ → ℕ → Bool
holds arp ip j = (arp j).mac != 0 && (arp j).ip == ip

-- `find_mac` from `i` on, where the entry at `slot` is the first for `ip`.
find_mac_at :
    (arp : ℕ → ArpEntry) (ip left i slot : ℕ)
    → i ≤ slot
    → slot < i + left
    → ((j : ℕ) → i ≤ j → j < slot → holds arp ip j ≡ false)
    → holds arp ip slot ≡ true
    → find_mac arp ip left i ≡ (arp slot).mac
unfolding find_mac
find_mac_at arp ip zero i slot low high before at = absurd (omega arith)
find_mac_at arp ip (suc left) i slot low high before at = elim (first i slot low) [
  | inl here ↦ ground arith
  | inr later ↦
      let miss = before i (omega arith) later in
      rw miss (
        find_mac_at arp ip left (suc i) slot later (omega arith) (λ j p q. before j (omega arith) q)
          at)
]
  where
    first : (a b : ℕ) → a ≤ b → (a ≡ b) ⊎ (a < b)
    first a b h = ground arith

-- `find_mac` depends on nothing but whether and where the entries hold the address.
find_mac_same :
    (arp arp' : ℕ → ArpEntry) (ip left i : ℕ)
    → ((j : ℕ)
        → i ≤ j
        → (holds arp' ip j ≡ holds arp ip j) × (holds arp ip j ≡ true → (arp' j).mac ≡ (arp j).mac))
    → find_mac arp' ip left i ≡ find_mac arp ip left i
unfolding find_mac
find_mac_same arp arp' ip zero i same = refl
find_mac_same arp arp' ip (suc left) i same =
    let now = same i (omega arith) in
    let rest = find_mac_same arp arp' ip left (suc i) (λ j h. same j (omega arith)) in ground arith

pick_entry_range :
    (arp : ℕ → ArpEntry) (ip left i oldest : ℕ)
    → oldest < i + left
    → (pick_entry arp ip left i oldest).0 < i + left
unfolding pick_entry
pick_entry_range arp ip zero i oldest h = h
pick_entry_range arp ip (suc left) i oldest h = ground (
  arith,
  pick_entry_range arp ip left (suc i)
      (if ltb (arp i).last_used (arp oldest).last_used then i else oldest),
)

pick_entry_known :
    (arp : ℕ → ArpEntry) (ip left i oldest : ℕ)
    → (pick_entry arp ip left i oldest).1 ≡ true
    → holds arp ip (pick_entry arp ip left i oldest).0 ≡ true
unfolding pick_entry
pick_entry_known arp ip zero i oldest h = cc
pick_entry_known arp ip (suc left) i oldest h = ground (
  arith,
  pick_entry_known arp ip left (suc i)
      (if ltb (arp i).last_used (arp oldest).last_used then i else oldest),
)

-- The picked entry has no entry for the address before it.
pick_entry_first :
    (arp : ℕ → ArpEntry) (ip left i oldest j : ℕ)
    → (j < i → holds arp ip j ≡ false)
    → j < (pick_entry arp ip left i oldest).0
    → j < i + left
    → holds arp ip j ≡ false
unfolding pick_entry
pick_entry_first arp ip zero i oldest j seen h k = seen (omega arith)
pick_entry_first arp ip (suc left) i oldest j seen h k = ground (
  arith,
  pick_entry_first arp ip left (suc i)
      (if ltb (arp i).last_used (arp oldest).last_used then i else oldest) j,
)

-- While an entry is empty, the pick is the entry for the address or an empty one.
pick_entry_free :
    (arp : ℕ → ArpEntry) (ip left i oldest j : ℕ)
    → i ≤ j
    → j < i + left
    → (arp j).mac ≡ 0
    → ((pick_entry arp ip left i oldest).1 ≡ true)
      ⊎ ((arp (pick_entry arp ip left i oldest).0).mac ≡ 0)
unfolding pick_entry
pick_entry_free arp ip zero i oldest j low high e = absurd (omega arith)
pick_entry_free arp ip (suc left) i oldest j low high e = ground (
  arith,
  pick_entry_free arp ip left (suc i)
      (if ltb (arp i).last_used (arp oldest).last_used then i else oldest) j,
)

-- In a full table without the address, the pick is an entry that was used longest ago.
pick_entry_oldest :
    (arp : ℕ → ArpEntry) (ip left i oldest j : ℕ)
    → (pick_entry arp ip left i oldest).1 ≡ false
    → (arp (pick_entry arp ip left i oldest).0).mac ≢ 0
    → (j < i → (arp oldest).last_used ≤ (arp j).last_used)
    → j < i + left
    → (arp (pick_entry arp ip left i oldest).0).last_used ≤ (arp j).last_used
unfolding pick_entry
pick_entry_oldest arp ip zero i oldest j miss full seen h = seen (omega arith)
pick_entry_oldest arp ip (suc left) i oldest j miss full seen h = ground (
  arith,
  pick_entry_oldest arp ip left (suc i)
      (if ltb (arp i).last_used (arp oldest).last_used then i else oldest) j,
)

module _ (v : VNet) (ip mac : ℕ) (ip_given : ip ≢ 0) (mac_given : mac ≢ 0)
    (unicast : mac ≢ mac_broadcast) where
  abbrev slot : ℕ
  slot = (pick_entry v.arp ip arp_entries 0 0).0

  -- The entry for the address afterwards, and the others.
  learnt : ((learn_mac v ip mac).arp slot).mac ≡ mac
  unfolding learn_mac
  learnt = ground arith

  learnt_ip : ((learn_mac v ip mac).arp slot).ip ≡ ip
  unfolding learn_mac
  learnt_ip = ground (arith, pick_entry_known v.arp ip arp_entries 0 0)

  untouched : (j : ℕ) → j ≢ slot → (learn_mac v ip mac).arp j ≡ v.arp j
  unfolding learn_mac
  untouched j h = ground arith

  -- An address that was learnt is answered with the address that was learnt last.
  pub lookup_mac-learn_mac : is_broadcast v ip ≡ false → lookup_mac (learn_mac v ip mac) ip ≡ mac
  unfolding lookup_mac
  lookup_mac-learn_mac directed =
      let same : is_broadcast (learn_mac v ip mac) ip ≡ is_broadcast v ip =
        unfold is_broadcast learn_mac in ground arith in
      let after = (learn_mac v ip mac).arp in
      let found : find_mac after ip arp_entries 0 ≡ (after slot).mac =
        find_mac_at after ip arp_entries 0 slot (omega arith)
          (omega (arith, pick_entry_range v.arp ip arp_entries 0 0 (omega arith)))
          (λ j p q. ground (
            arith,
            untouched j (λ e. absurd (omega arith)),
            pick_entry_first v.arp ip arp_entries 0 0 j (λ r. absurd (omega arith)) q
                (omega (arith, pick_entry_range v.arp ip arp_entries 0 0 (omega arith))),
          ))
          (ground (arith, learnt, learnt_ip)) in
      rw (same, directed) (ground (arith, found, learnt))

  kept :
      (other : ℕ)
      → other ≢ ip
      → holds v.arp other slot ≡ false
      → find_mac (learn_mac v ip mac).arp other arp_entries 0 ≡ find_mac v.arp other arp_entries 0
  kept other ne free =
      find_mac_same v.arp (learn_mac v ip mac).arp other arp_entries 0
        λ j _. ground (arith, untouched j, learnt_ip, learnt)

  -- Any other address is answered as before, unless the table was full and held it in the entry
  -- that was learnt longest ago, which is the one that is reused.
  pub find_mac-learn_mac_other :
      (other : ℕ)
      → other ≢ ip
      → (find_mac (learn_mac v ip mac).arp other arp_entries 0 ≡ find_mac v.arp other arp_entries 0)
        ⊎ ((k : ℕ) × (holds v.arp other k ≡ true)
            × ((j : ℕ)
                → j < arp_entries
                → ((v.arp j).mac ≢ 0) × ((v.arp k).last_used ≤ (v.arp j).last_used)))
  find_mac-learn_mac_other other ne = elim (Bool-cases (holds v.arp other slot)) [
    | inl lost ↦ inr (slot, lost, λ j h. evicted lost j h)
    | inr free ↦ inl (kept other ne free)
  ]
    where
      evicted :
          holds v.arp other slot ≡ true
          → (j : ℕ) → j < arp_entries
          → ((v.arp j).mac ≢ 0) × ((v.arp slot).last_used ≤ (v.arp j).last_used)
      evicted lost j h =
          let unknown : (pick_entry v.arp ip arp_entries 0 0).1 ≡ false =
            ground (arith, pick_entry_known v.arp ip arp_entries 0 0) in
          let full : (v.arp slot).mac ≢ 0 = ground arith in
          (
            λ e. ground (arith, pick_entry_free v.arp ip arp_entries 0 0 j (omega arith) h e),
            pick_entry_oldest v.arp ip arp_entries 0 0 j unknown full (λ r. absurd (omega arith)) h,
          )
