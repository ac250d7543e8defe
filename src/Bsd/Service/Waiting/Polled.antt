-- ===== src/Bsd/Service/Waiting/Polled.antt =====
-- What Poll reports: the entries, and how many of them are ready.
use sys_grid.Base.{
  ℕ, zero, suc, ◌+◌, ◌≤◌, ◌≡◌, refl, ap, ◌∙◌, arith, Bool, true, false, ◌&&◌, Option, none, some,
  ◌==◌, if◌then◌else◌, bit_or, bit_or_digit, List, [], ◌∷◌, ◌++◌, length, take, drop, Bool-cases,
  inl, inr, map, take_all, ltb, append-nil,
}
use sys_grid.Bsd.Lan.{Shim, lan_socket_readable}
use sys_grid.Bsd.Service.Waiting.{
  PollFd, asks_in, merge_entries, watches, ready_now, physical_timeout, poll_count, poll_limit,
  poll, PollResult,
}

-- An entry with what the virtual network has for it.
abbrev pub with_virtual : Shim → ℕ → PollFd → PollFd
with_virtual s pid p =
    if asks_in p && lan_socket_readable s pid p.fd
    then record p { revents = bit_or p.revents 1 }
    else p

-- The number of entries that report an event.
abbrev pub ready_count : List PollFd → ℕ
ready_count [] = 0
ready_count (p ∷ ps) = if p.revents == 0 then ready_count ps else suc (ready_count ps)

odd : (n : ℕ) → (bit_or n 1 == 0) ≡ false
odd n = ground (arith, bit_or_digit n 1)

merge_entries-entries :
    (s : Shim) (pid : ℕ) (ps : List PollFd) (merged : ℕ)
    → (merge_entries s pid ps merged).0 ≡ map (with_virtual s pid) ps
unfolding merge_entries
merge_entries-entries s pid [] merged = refl
merge_entries-entries s pid (p ∷ ps) merged =
    ap (λ rest. with_virtual s pid p ∷ rest) (merge_entries-entries s pid ps _)

-- What the loop adds is what the entries gain.
merge_entries-count :
    (s : Shim) (pid : ℕ) (ps : List PollFd) (merged : ℕ)
    → (merge_entries s pid ps merged).1 + ready_count ps
      ≡ merged + ready_count (map (with_virtual s pid) ps)
unfolding merge_entries
merge_entries-count s pid [] merged = refl
merge_entries-count s pid (p ∷ ps) merged =
    elim (Bool-cases (asks_in p && lan_socket_readable s pid p.fd)) [
      | inl hit ↦ elim (Bool-cases (p.revents == 0)) [
        | inl idle ↦
            rw (hit, idle, odd p.revents) (omega (arith, merge_entries-count s pid ps (merged + 1)))
        | inr busy ↦
            rw (hit, busy, odd p.revents) (omega (arith, merge_entries-count s pid ps merged))
      ]
      | inr miss ↦ elim (Bool-cases (p.revents == 0)) [
        | inl idle ↦ rw (miss, idle) (merge_entries-count s pid ps merged)
        | inr busy ↦ rw (miss, busy) (omega (arith, merge_entries-count s pid ps merged))
      ]
    ]

drop_all : (n : ℕ) (ps : List PollFd) → length ps ≤ n → drop n ps ≡ []
drop_all zero [] h = refl
drop_all zero (p ∷ ps) h = absurd (omega (arith, h))
drop_all (suc n) [] h = refl
drop_all (suc n) (p ∷ ps) h = drop_all n ps (omega (arith, h))

physical_timeout-le :
    (ready : Bool) (timeout : Option ℕ)
    → (ms : ℕ) × (physical_timeout true ready timeout ≡ some (if ready then 0 else ms)) × (ms ≤ 10)
unfolding physical_timeout
physical_timeout-le true timeout = (0, refl, omega arith)
physical_timeout-le false none = (10, refl, omega arith)
physical_timeout-le false (some n) = elim (Bool-cases (ltb 10 n)) [
  | inl above ↦ rw above (10, refl, omega arith)
  | inr below ↦ rw below (n, refl, ground arith)
]

merged-entries :
    (s : Shim) (pid count : ℕ) (got : List PollFd)
    → length got ≤ count
    → (merge_entries s pid (take count got) (ready_count got)).0 ++ drop count got
      ≡ map (with_virtual s pid) got
merged-entries s pid count got few =
    rw (take_all count got few, drop_all count got few)
      (append-nil _ ∙ merge_entries-entries s pid got (ready_count got))

merged-count :
    (s : Shim) (pid count : ℕ) (got : List PollFd)
    → length got ≤ count
    → (merge_entries s pid (take count got) (ready_count got)).1
      ≡ ready_count (map (with_virtual s pid) got)
merged-count s pid count got few =
    rw (take_all count got few) (omega (arith, merge_entries-count s pid got (ready_count got)))

-- A Poll that watches a mirrored socket. The console's service is called with a wait of 10 ms at most,
-- and of nothing when a datagram is there already. Other threads may do anything to the table and to the
-- virtual network meanwhile, `later` being what they leave. If the service then reports as many ready
-- entries as it returns, at most those of the call, the game gets the same entries with POLLIN added
-- exactly where it asked for it and `later` has a datagram, so that one which arrived during the wait
-- counts, and the number of entries that are ready then.
pub poll-Merged :
    (s later : Shim) (pid nfds room : ℕ) (timeout : Option ℕ) (entries got : List PollFd) (err : ℕ)
    (physical : Option ℕ → Option (Shim × PollResult))
    → let count = poll_count nfds room in
      watches s pid (take count entries) ≡ true
      → physical (poll_limit s pid count timeout entries)
        ≡ some (later, (record { ret = some (ready_count got); err = err }, got))
      → length got ≤ count
      → let merged = map (with_virtual later pid) got in
        (poll s pid nfds room timeout entries physical
          ≡ some (record { ret = some (ready_count merged); err = 0 }, merged))
        × ((ms : ℕ) × (poll_limit s pid count timeout entries
              ≡ some (if ready_now s pid (take count entries) then 0 else ms))
            × (ms ≤ 10))
unfolding poll
poll-Merged s later pid nfds room timeout entries got err physical watched given few =
    let count = poll_count nfds room in
    (
      rw (given, poll)
          (rw
            (watched, merged-entries later pid count got few, merged-count later pid count got few)
            refl),
      rw watched (physical_timeout-le (ready_now s pid (take count entries)) timeout),
    )
