-- ===== src/Port/Service/Network.antt =====
-- The network that is selected, the one that is remembered, and the one that the node has joined.
use sys_grid.Base.{
  ℕ, ◌+◌, ◌≡◌, ◌≢◌, ◌⊎◌, inl, inr, refl, arith, Bool, true, false, not, ◌&&◌, ◌||◌, Option, none,
  some, ◌==◌, ◌!=◌, ltb, subst, if◌then◌else◌, Bool-cases, List,
}
use sys_grid.Config.{Text}
use sys_grid.Config.Saved.{resolve_configured_network_id}
use sys_grid.Config.Ids.{IsId, resolve_configured_network_id-IsId}
use sys_grid.Port.Queue.{discard}
use sys_grid.Vnet.{Frame}
use sys_grid.Port.Service.{Service, switch_network, poll_network_selection, enqueue_all}

-- The ZeroTier node: the networks it is in, and what a call of join or leave returns.
pub record Node : Type 1 where
  pub State : Type 0
  pub is_member : State → ℕ → Bool
  pub join : State → ℕ → State × ℕ
  pub leave : State → ℕ → State × ℕ

-- A call that returns 0 joins or leaves that network only, and one that fails changes nothing.
pub record IsLawful (n : Node) : Type 0 where
  pub join_lem :
      (st : n.State) (id j : ℕ)
      → n.is_member (n.join st id).0 j
        ≡ (if (n.join st id).1 == 0 && j == id then true else n.is_member st j)
  pub leave_lem :
      (st : n.State) (id j : ℕ)
      → n.is_member (n.leave st id).0 j
        ≡ (if (n.leave st id).1 == 0 && j == id then false else n.is_member st j)

poll_network_selection_lem :
    (s : Service) (now : ℕ) (config saved : Option Text) (id : ℕ) (emitted : List Frame)
    (left joined restored : ℕ)
    → resolve_configured_network_id config saved ≡ some id
    → (s.last_network_poll != 0 && ltb now (s.last_network_poll + 1000)) ≡ false
    → poll_network_selection s now config saved emitted left joined restored ≡ (
        if id != s.nwid
        then (switch_network
            (record s { last_network_poll = now })
            id
            emitted
            left
            joined
            restored).0
        else record s { last_network_poll = now })
unfolding poll_network_selection
poll_network_selection_lem s now config saved id emitted left joined restored selected due =
    rw (due, selected) refl

module _ (n : Node) where
  -- The node is in the remembered network and in no other.
  abbrev pub IsSynced : n.State → Service → Type 0
  IsSynced st s = (j : ℕ) → n.is_member st j ≡ (j == s.nwid)

  -- The calls of `switchNetwork` with what the node returns for each.
  abbrev pub away : n.State → Service → n.State × ℕ
  away st s = n.leave st s.nwid

  abbrev pub there : n.State → Service → ℕ → n.State × ℕ
  there st s id = n.join (away st s).0 id

  abbrev pub back : n.State → Service → ℕ → n.State × ℕ
  back st s id = n.join (there st s id).0 s.nwid

  pub switch_on : n.State → Service → ℕ → List Frame → n.State × Service
  switch_on st s id emitted = (
    if id == 0 || id == s.nwid || not s.has_node
        then st
        else if (away st s).1 != 0
        then (away st s).0
        else if (there st s id).1 == 0
        then (there st s id).0
        else (back st s id).0,
    (switch_network s id emitted (away st s).1 (there st s id).1 (back st s id).1).0,
  )

  module _ (lawful : IsLawful n) where
    -- Membership behind each of the three calls.
    stays :
        (st : n.State) (s : Service)
        → IsSynced st s
        → ((away st s).1 == 0) ≡ false
        → (j : ℕ) → n.is_member (away st s).0 j ≡ (j == s.nwid)
    stays st s synced failed j = ground (arith, lawful.leave_lem st s.nwid j, synced j)

    leaves :
        (st : n.State) (s : Service)
        → IsSynced st s
        → ((away st s).1 == 0) ≡ true
        → (j : ℕ) → n.is_member (away st s).0 j ≡ false
    leaves st s synced done j = ground (arith, lawful.leave_lem st s.nwid j, synced j)

    joins :
        (st : n.State) (id : ℕ)
        → ((j : ℕ) → n.is_member st j ≡ false)
        → ((n.join st id).1 == 0) ≡ true
        → (j : ℕ) → n.is_member (n.join st id).0 j ≡ (j == id)
    joins st id nowhere done j = ground (arith, lawful.join_lem st id j, nowhere j)

    fails :
        (st : n.State) (id : ℕ)
        → ((j : ℕ) → n.is_member st j ≡ false)
        → ((n.join st id).1 == 0) ≡ false
        → (j : ℕ) → n.is_member (n.join st id).0 j ≡ false
    fails st id nowhere failed j = ground (arith, lawful.join_lem st id j, nowhere j)

    pub switch_on-IsSynced :
        (st : n.State) (s : Service) (id : ℕ) (emitted : List Frame)
        → IsSynced st s
        → IsSynced (switch_on st s id emitted).0 (switch_on st s id emitted).1
          ⊎ (((there st s id).1 ≢ 0) × ((back st s id).1 ≢ 0))
    unfolding switch_on switch_network
    switch_on-IsSynced st s id emitted synced =
        elim (Bool-cases (id == 0 || id == s.nwid || not s.has_node)) [
          | inl stay ↦ rw stay (inl synced)
          | inr go ↦ elim (Bool-cases ((away st s).1 == 0)) [
            | inr failed ↦ rw (go, failed) (inl (stays st s synced failed))
            | inl left ↦
                let nowhere = leaves st s synced left in
                elim (Bool-cases ((there st s id).1 == 0)) [
                  | inl joined ↦ rw (go, left, joined) (inl (joins (away st s).0 id nowhere joined))
                  | inr lost ↦
                      let still_nowhere = fails (away st s).0 id nowhere lost in
                      elim (Bool-cases ((back st s id).1 == 0)) [
                        | inl restored ↦
                            rw (go, left, lost)
                              (inl (joins (there st s id).0 s.nwid still_nowhere restored))
                        | inr stranded ↦ inr (ground arith, ground arith)
                      ]
                ]
          ]
        ]

  -- `pollNetworkSelection` with what the node returns.
  pub poll_on : n.State → Service → ℕ → Option Text → Option Text → List Frame → n.State × Service
  poll_on st s now config saved emitted = elim (resolve_configured_network_id config saved) [
    | none ↦ (st, poll_network_selection s now config saved emitted 0 0 0)
    | some id ↦ (
      if s.last_network_poll != 0 && ltb now (s.last_network_poll + 1000)
          then st
          else (switch_on st (record s { last_network_poll = now }) id emitted).0,
      poll_network_selection s now config saved emitted (away st s).1 (there st s id).1
          (back st s id).1,
    )
  ]

  switch_network-nwid :
      (st : n.State) (s : Service) (id : ℕ) (emitted : List Frame)
      → id ≢ 0
      → s.has_node ≡ true
      → let s' = (switch_on st s id emitted).1 in
        (s'.nwid ≡ (if (away st s).1 == 0 && (there st s id).1 == 0 then id else s.nwid))
        × (s'.nwid ≢ s.nwid → s'.queue ≡ enqueue_all (discard s.queue) emitted)
  unfolding switch_on switch_network
  switch_network-nwid st s id emitted given up = ground arith

  poll_on_lem :
      (st : n.State) (s : Service) (now : ℕ) (config saved : Option Text) (id : ℕ)
      (emitted : List Frame)
      → resolve_configured_network_id config saved ≡ some id
      → (s.last_network_poll != 0 && ltb now (s.last_network_poll + 1000)) ≡ false
      → poll_on st s now config saved emitted ≡ (
        (switch_on st (record s { last_network_poll = now }) id emitted).0,
        if id != s.nwid
            then (switch_on st (record s { last_network_poll = now }) id emitted).1
            else record s { last_network_poll = now },
      )
  unfolding poll_on switch_on
  poll_on_lem st s now config saved id emitted selected due =
      let polled =
        poll_network_selection_lem s now config saved id emitted (away st s).1 (there st s id).1
          (back st s id).1 selected due in
      rw (selected, due, polled, poll_on) refl

  switch_on_same :
      (st : n.State) (s : Service) (id : ℕ) (emitted : List Frame)
      → (id != s.nwid) ≡ false
      → (switch_on st s id emitted).0 ≡ st
  unfolding switch_on
  switch_on_same st s id emitted same = ground arith

  module _ (lawful : IsLawful n) where
    -- Take a node that obeys its interface and is in the remembered network and in no other, and a
    -- poll of the selection, a second or more after the last one, that finds a network id. Behind the
    -- poll the node is again in the remembered network and in no other, unless the joins of the new
    -- and, after it, of the old network have both failed. The remembered network is the selected one
    -- if the node could leave the old one and join it, and otherwise it is the old one; and when it
    -- changes, the frames that waited in the queue are gone, and what it holds are the frames that the
    -- game's threads emitted behind the section that empties it, as far as they fit.
    pub poll_on-IsSynced :
        (st : n.State) (s : Service) (now : ℕ) (config saved : Option Text) (id : ℕ)
        (emitted : List Frame)
        → resolve_configured_network_id config saved ≡ some id
        → (s.last_network_poll != 0 && ltb now (s.last_network_poll + 1000)) ≡ false
        → s.has_node ≡ true
        → IsSynced st s
        → let (st', s') = poll_on st s now config saved emitted in
          (IsSynced st' s' ⊎ (((there st s id).1 ≢ 0) × ((back st s id).1 ≢ 0)))
          × (s'.nwid ≡ (if (away st s).1 == 0 && (there st s id).1 == 0 then id else s.nwid))
          × (s'.nwid ≢ s.nwid → s'.queue ≡ enqueue_all (discard s.queue) emitted)
    poll_on-IsSynced st s now config saved id emitted selected due up synced =
        let polled = record s { last_network_poll = now } in
        let given : id ≢ 0 =
          (subst (λ (o : Option ℕ). IsId o) selected
            (resolve_configured_network_id-IsId config saved)).0 in
        rw (poll_on_lem st s now config saved id emitted selected due)
          elim (Bool-cases (id != s.nwid)) [
            | inl other ↦ rw other (
                let (kept, moved) = switch_network-nwid st polled id emitted given up in
                (switch_on-IsSynced lawful st polled id emitted synced, kept, moved))
            | inr same ↦
                rw (same, switch_on_same st polled id emitted same)
                  (inl synced, ground arith, λ moved. absurd (moved refl))
          ]
