-- ===== src/Bsd/Service/Waiting.antt =====
-- source/mitm/bsd_shim.cpp: Poll and Select, which wait on both networks, FdIsSet and FdSet. The
-- console's service is a function from the time limit that it is given to its answer and to the state
-- that other threads have left when it returns: datagrams can arrive, and sockets change, while it waits.
-- A time limit is none when there is none.
pub mod Polled
pub mod Selected
use sys_grid.Base.{
  ℕ, zero, suc, ◌+◌, ◌/◌, ◌%◌, ◌^◌, Bool, true, false, not, ◌&&◌, ◌||◌, Option, none, some, ◌==◌,
  ◌!=◌, ltb, if◌then◌else◌, bit_and, bit_or, is_some, List, [], ◌∷◌, length, take, drop, min, ◌++◌,
}
use sys_grid.Net.{Bytes, byte_at}
use sys_grid.Vnet.{Index}
use sys_grid.Bsd.Lan.{Shim, get_lan_vfd, lan_socket_readable}
use sys_grid.Bsd.Service.{Answer}

-- ---- Poll ----

pub record PollFd : Type 0 where
  pub fd : Index
  pub events : ℕ
  pub revents : ℕ

abbrev pub poll_in : ℕ
poll_in = 1

abbrev pub asks_in : PollFd → Bool
asks_in p = bit_and p.events poll_in != 0

-- Whether an entry is a mirrored socket, and whether one of them has a datagram.
unfoldable pub watches : Shim → ℕ → List PollFd → Bool
watches s pid [] = false
watches s pid (p ∷ ps) = asks_in p && is_some (get_lan_vfd s.table pid p.fd) || watches s pid ps

unfoldable pub ready_now : Shim → ℕ → List PollFd → Bool
ready_now s pid [] = false
ready_now s pid (p ∷ ps) =
    asks_in p && is_some (get_lan_vfd s.table pid p.fd) && lan_socket_readable s pid p.fd
    || ready_now s pid ps

-- The milliseconds that the console's service may wait.
abbrev above_ten : Option ℕ → Bool
above_ten none = true
above_ten (some ms) = ltb 10 ms

unfoldable pub physical_timeout : Bool → Bool → Option ℕ → Option ℕ
physical_timeout watched ready timeout =
    if ready then some 0 else if watched && above_ten timeout then some 10 else timeout

-- The loop over the entries that the console's service returns.
unfoldable pub merge_entries : Shim → ℕ → List PollFd → ℕ → List PollFd × ℕ
merge_entries s pid [] merged = ([], merged)
merge_entries s pid (p ∷ ps) merged =
    let counted = if p.revents == 0 then merged + 1 else merged in
    let hit = asks_in p && lan_socket_readable s pid p.fd in
    let (rest, total) = merge_entries s pid ps (if hit then counted else merged) in
    ((if hit then record p { revents = bit_or p.revents poll_in } else p) ∷ rest, total)

-- The number of descriptors that are ready, and the entries.
abbrev pub PollResult : Type 0
PollResult = Answer × List PollFd

abbrev merge_counted : Answer → List PollFd → List PollFd × ℕ → PollResult
merge_counted a behind (entries, merged) =
    (record { ret = some merged; err = 0 }, entries ++ behind)

abbrev merge_polled : Shim → ℕ → Bool → ℕ → PollResult → PollResult
merge_polled s pid watched count (a, entries) = elim a.ret [
  | none ↦ (a, entries)
  | some n ↦
      if watched
      then merge_counted a (drop count entries) (merge_entries s pid (take count entries) n)
      else (a, entries)
]

-- The entries that the loops visit: `room` is the number of entries that the output buffer has. The code
-- bounds its reads of the input by it as well.
abbrev pub poll_count : ℕ → ℕ → ℕ
poll_count nfds room = min nfds room

abbrev pub poll_limit : Shim → ℕ → ℕ → Option ℕ → List PollFd → Option ℕ
poll_limit s pid count timeout entries =
    physical_timeout (watches s pid (take count entries)) (ready_now s pid (take count entries))
      timeout

-- `entries` is what lies in memory from the input buffer on, which has less than `count` entries only
-- if the read leaves the buffer. The readiness that is merged is that of the state after the wait.
unfoldable pub poll :
    Shim
    → ℕ
    → ℕ
    → ℕ
    → Option ℕ
    → List PollFd
    → (Option ℕ → Option (Shim × PollResult))
    → Option PollResult
poll s pid nfds room timeout entries physical =
    let count = poll_count nfds room in
    elim (physical (poll_limit s pid count timeout entries)) [
      | none ↦ none
      | some (later, result) ↦
          some (merge_polled later pid (watches s pid (take count entries)) count result)
    ]

-- ---- FdIsSet, FdSet ----

unfoldable pub fd_is_set : ℕ → Bytes → Bool
fd_is_set fd fds = ltb (fd / 8) (length fds) && bit_and (byte_at fds (fd / 8)) (2 ^ (fd % 8)) != 0

abbrev pub set_bit : Bytes → ℕ → ℕ → Bytes
set_bit [] i bits = []
set_bit (b ∷ bs) zero bits = bit_or b bits ∷ bs
set_bit (b ∷ bs) (suc i) bits = b ∷ set_bit bs i bits

unfoldable pub fd_set : ℕ → Bytes → Bytes
fd_set fd fds = set_bit fds (fd / 8) (2 ^ (fd % 8))

-- ---- Select ----

abbrev pub watched_fd : Shim → ℕ → Bytes → ℕ → Bool
watched_fd s pid rd fd = fd_is_set fd rd && is_some (get_lan_vfd s.table pid (some fd))

-- The loop over the descriptors that are asked for, which stops at the first that is readable on the
-- virtual network. `watched` and `ready` are its two flags.
unfoldable pub scan_fds : ℕ → ℕ → Shim → ℕ → Bytes → Bool → Bool × Bool
scan_fds zero fd s pid rd watched = (watched, false)
scan_fds (suc left) fd s pid rd watched =
    let hit = watched_fd s pid rd fd in
    let rest = scan_fds left (suc fd) s pid rd (watched || hit) in
    if hit && lan_socket_readable s pid (some fd) then (true, true) else rest

-- A time limit in microseconds: the code compares the seconds and the microseconds.
pub record Timeval : Type 0 where
  pub seconds : ℕ
  pub microseconds : ℕ

abbrev above_ten_ms : Option Timeval → Bool
above_ten_ms none = true
above_ten_ms (some t) = t.seconds != 0 || ltb 10000 t.microseconds

unfoldable pub select_timeout : Bool × Bool → Option Timeval → Option Timeval
select_timeout (watched, ready) timeout =
    if ready
    then some (record { seconds = 0; microseconds = 0 })
    else if watched && above_ten_ms timeout
    then some (record { seconds = 0; microseconds = 10000 })
    else timeout

-- The loop that merges the readable sockets of the virtual network into the set that is returned.
-- One round of it.
abbrev pub merge_fd : Shim → ℕ → Bytes → ℕ → Bytes × ℕ → Bytes × ℕ
merge_fd s pid rd fd (ord, merged) =
    if fd_is_set fd rd && lan_socket_readable s pid (some fd)
    then (fd_set fd ord, if fd_is_set fd ord then merged else merged + 1)
    else (ord, merged)

unfoldable pub merge_fds : ℕ → ℕ → Shim → ℕ → Bytes → Bytes × ℕ → Bytes × ℕ
merge_fds zero fd s pid rd state = state
merge_fds (suc left) fd s pid rd state =
    merge_fds left (suc fd) s pid rd (merge_fd s pid rd fd state)

-- The answer, with the set of the descriptors that can be read.
abbrev pub SelectResult : Type 0
SelectResult = Answer × Bytes

abbrev merge_selected : Shim → ℕ → ℕ → Bytes → Bool → SelectResult → SelectResult
merge_selected s pid nfds rd watched (a, ord) = elim a.ret [
  | none ↦ (a, ord)
  | some n ↦
      let (set, merged) = merge_fds nfds 0 s pid rd (ord, n) in
      if watched then (record { ret = some merged; err = 0 }, set) else (a, ord)
]

-- The scan is made before the wait, and the merge with the state after it.
unfoldable pub select :
    Shim
    → ℕ
    → ℕ
    → Option Timeval
    → Bytes
    → (Option Timeval → Option (Shim × SelectResult))
    → Option SelectResult
select s pid nfds timeout rd physical =
    let scanned = scan_fds nfds 0 s pid rd false in
    elim (physical (select_timeout scanned timeout)) [
      | none ↦ none
      | some (later, result) ↦ some (merge_selected later pid nfds rd scanned.0 result)
    ]
