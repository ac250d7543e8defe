-- ===== src/Bsd/Sessions.antt =====
-- source/mitm/bsd_shim.cpp: the count of sessions per process, and descriptor sets.
use sys_grid.Base.{
  ℕ, zero, suc, ◌+◌, ◌<◌, ◌≤◌, ◌≡◌, ◌≢◌, refl, ◌∙◌, ap, sym, subst, arith, Option, none, some, ◌==◌,
  if◌then◌else◌, update, Bool-cases, inl, inr, ◌⊎◌,
}

abbrev pub max_tracked_clients : ℕ
max_tracked_clients = 32

pub record ClientSessions : Type 0 where
  pub pid : ℕ
  pub sessions : ℕ

abbrev pub Clients : Type 0
Clients = ℕ → ClientSessions

-- The first entry for `pid`, with `left` entries to go; 0 stands for an entry that is free.
unfoldable pub find_client : Clients → ℕ → ℕ → ℕ → Option ℕ
find_client table pid zero i = none
find_client table pid (suc left) i =
    let rest = find_client table pid left (suc i) in if (table i).pid == pid then some i else rest

-- The table, and the number of the connection; none is -1. An int holds the count.
abbrev set_count : Clients → ℕ → ℕ → ℕ → Clients × Option ℕ
set_count table i pid n = (update table i (record { pid = pid; sessions = n }), some n)

unfoldable pub count_client_session : Clients → ℕ → Clients × Option ℕ
count_client_session table pid = elim (find_client table pid max_tracked_clients 0) [
  | some i ↦ set_count table i pid ((table i).sessions + 1)
  | none ↦ elim (find_client table 0 max_tracked_clients 0) [
    | some i ↦ set_count table i pid 1
    | none ↦ (table, none)
  ]
]

-- The sessions that a table knows of a process.
abbrev sessions_at : Clients → Option ℕ → ℕ
sessions_at table none = 0
sessions_at table (some i) = (table i).sessions

abbrev pub sessions_of : Clients → ℕ → ℕ
sessions_of table pid = sessions_at table (find_client table pid max_tracked_clients 0)

abbrev Seen : Clients → ℕ → ℕ → ℕ → Option ℕ → Type 0
Seen table pid i left none = (j : ℕ) → i ≤ j → j < i + left → (table j).pid ≢ pid
Seen table pid i left (some k) =
    (i ≤ k)
    × (k < i + left)
    × ((table k).pid ≡ pid)
    × ((j : ℕ) → i ≤ j → j < k → (table j).pid ≢ pid)

find_client_step :
    (table : Clients) (pid left i : ℕ)
    → find_client table pid (suc left) i
      ≡ (if (table i).pid == pid then some i else find_client table pid left (suc i))
unfolding find_client
find_client_step table pid left i = refl

-- The search finds entry k when it is the first one.
find_client_at :
    (table : Clients) (pid left i k : ℕ)
    → i ≤ k
    → k < i + left
    → (table k).pid ≡ pid
    → ((j : ℕ) → i ≤ j → j < k → (table j).pid ≢ pid)
    → find_client table pid left i ≡ some k
find_client_at table pid zero i k low high here before = absurd (omega arith)
find_client_at table pid (suc left) i k low high here before =
    elim (Bool-cases ((table i).pid == pid)) [
      | inl hit ↦ elim (last i k low) [
        | inl e ↦ rw (find_client_step table pid left i, hit) (ap (λ (n : ℕ). some n) e)
        | inr less ↦ absurd (before i (omega arith) less (ground arith))
      ]
      | inr miss ↦ elim (last i k low) [
        | inl e ↦ absurd (ground arith)
        | inr less ↦
            rw (find_client_step table pid left i, miss)
              (find_client_at table pid left (suc i) k less (omega arith) here
                (λ j a b. before j (omega arith) b))
      ]
    ]
  where
    last : (a b : ℕ) → a ≤ b → (a ≡ b) ⊎ (suc a ≤ b)
    last a b h = omega arith

find_client-Seen :
    (table : Clients) (pid left i : ℕ) → Seen table pid i left (find_client table pid left i)
find_client-Seen table pid zero i = unfold find_client in λ j a b. absurd (omega arith)
find_client-Seen table pid (suc left) i = elim (Bool-cases ((table i).pid == pid)) [
  | inl hit ↦
      rw (find_client_step table pid left i, hit)
        (omega arith, omega arith, ground arith, λ j a b. absurd (omega arith))
  | inr miss ↦
      rw (find_client_step table pid left i, miss)
        (later _ (ground arith) (find_client-Seen table pid left (suc i)))
]
  where
    first : (j : ℕ) → i ≤ j → (j ≡ i) ⊎ (suc i ≤ j)
    first j h = omega arith

    not_here :
        (j : ℕ)
        → (table i).pid ≢ pid
        → i ≤ j
        → (suc i ≤ j → (table j).pid ≢ pid)
        → (table j).pid ≢ pid
    not_here j ne h rest = elim (first j h) [
      | inl e ↦ subst (λ n. (table n).pid ≢ pid) (sym e) ne
      | inr l ↦ rest l
    ]

    later :
        (o : Option ℕ)
        → (table i).pid ≢ pid
        → Seen table pid (suc i) left o
        → Seen table pid i (suc left) o
    later none ne h = λ j a b. not_here j ne a (λ l. h j l (omega arith))
    later (some k) ne h =
        (omega (arith, h), omega (arith, h), h.2, λ j a b. not_here j ne a (λ l. h.3 j l b))

find_client-ext :
    (t u : Clients) (pid left i : ℕ)
    → ((j : ℕ) → ((t j).pid == pid) ≡ ((u j).pid == pid))
    → find_client t pid left i ≡ find_client u pid left i
find_client-ext t u pid zero i h = unfold find_client in refl
find_client-ext t u pid (suc left) i h =
    rw
      (
        find_client_step t pid left i,
        find_client_step u pid left i,
        h i,
        find_client-ext t u pid left (suc i) h,
      )
      refl

abbrev written : Clients → ℕ → ℕ → ℕ → Clients
written table i pid n = update table i (record { pid = pid; sessions = n })

-- A write to entry i that other processes do not see.
sessions_of_other :
    (table : Clients) (i pid n other : ℕ)
    → other ≢ pid
    → (table i).pid ≢ other
    → sessions_of (written table i pid n) other ≡ sessions_of table other
sessions_of_other table i pid n other ne free =
    ap (sessions_at (written table i pid n)) (
      find_client-ext (written table i pid n) table other max_tracked_clients 0 (λ j. ground arith))
    ∙ same (find_client table other max_tracked_clients 0)
        (find_client-Seen table other max_tracked_clients 0)
  where
    same :
        (o : Option ℕ)
        → Seen table other 0 max_tracked_clients o
        → sessions_at (written table i pid n) o ≡ sessions_at table o
    same none h = refl
    same (some k) h = ground (arith, h.2)

sessions_of_self :
    (table : Clients) (i pid n : ℕ)
    → i < max_tracked_clients
    → ((j : ℕ) → j < i → (table j).pid ≢ pid)
    → sessions_of (written table i pid n) pid ≡ n
sessions_of_self table i pid n h before =
    ap (sessions_at (written table i pid n)) (
      find_client_at (written table i pid n) pid max_tracked_clients 0 i (omega arith) (omega arith)
        (ground arith) (λ j a b. ground (arith, before j b)))
    ∙ ground arith

-- What a call promises.
abbrev pub Counted : Clients → ℕ → Clients × Option ℕ → Type 0
Counted table pid (t, none) =
    (j : ℕ) → j < max_tracked_clients → ((table j).pid ≢ pid) × ((table j).pid ≢ 0)
Counted table pid (t, some n) =
    (n ≡ sessions_of table pid + 1)
    × (sessions_of t pid ≡ n)
    × ((other : ℕ) → other ≢ pid → other ≢ 0 → sessions_of t other ≡ sessions_of table other)

-- A connection gets the number after that of the last one from the same process, starting from 1;
-- the counts of the other processes stay. A connection is refused only when the process is not in
-- the table and no entry is free.
pub count_client_session-Counted :
    (table : Clients) (pid : ℕ) → pid ≢ 0 → Counted table pid (count_client_session table pid)
unfolding count_client_session
count_client_session-Counted table pid given =
    by_owner (find_client table pid max_tracked_clients 0) refl
      (find_client-Seen table pid max_tracked_clients 0)
  where
    by_free :
        (o : Option ℕ)
        → Seen table 0 0 max_tracked_clients o
        → find_client table pid max_tracked_clients 0 ≡ none
        → Seen table pid 0 max_tracked_clients none
        → Counted table pid (elim o [ some i ↦ set_count table i pid 1 | none ↦ (table, none) ])
    by_free none h e unknown =
        λ j k. (unknown j (omega arith) (omega arith), h j (omega arith) (omega arith))
    by_free (some i) h e unknown = (
      ap (λ o. sessions_at table o + 1) (sym e),
      sessions_of_self table i pid 1 (omega (arith, h))
          (λ j b. unknown j (omega arith) (omega (arith, h))),
      λ other ne o. sessions_of_other table i pid 1 other ne (omega (arith, h.2, o)),
    )

    by_owner :
        (o : Option ℕ)
        → find_client table pid max_tracked_clients 0 ≡ o
        → Seen table pid 0 max_tracked_clients o
        → Counted table pid (elim o [
          | some i ↦ set_count table i pid ((table i).sessions + 1)
          | none ↦ elim (find_client table 0 max_tracked_clients 0) [
            | some i ↦ set_count table i pid 1
            | none ↦ (table, none)
          ]
        ])
    by_owner none e h = by_free _ (find_client-Seen table 0 max_tracked_clients 0) e h
    by_owner (some i) e h = (
      ap (λ o. sessions_at table o + 1) (sym e),
      sessions_of_self table i pid _ (omega (arith, h)) (λ j b. h.3 j (omega arith) b),
      λ other ne o. sessions_of_other table i pid _ other ne (ground (arith, h.2, ne)),
    )
