-- ===== src/Bsd/Service/Waiting/Selected.antt =====
-- What Select reports: the set of descriptors that can be read, and how many were added to it.
use sys_grid.Base.{
  none, ◌!=◌, ℕ, zero, suc, ◌+◌, ◌*◌, ◌/◌, ◌%◌, ◌^◌, ◌≤◌, ◌<◌, ◌≡◌, refl, ap, ◌∙◌, arith, Bool,
  true, false, ◌&&◌, ◌||◌, Option, some, ◌==◌, ltb, leb, if◌then◌else◌, bit_or, has_bit-bit_or, [],
  ◌∷◌, length, Bool-cases, inl, inr,
}
use sys_grid.Net.{Bytes, byte_at}
use sys_grid.Bsd.Lan.{Shim, lan_socket_readable}
use sys_grid.Bsd.Service.Waiting.{
  fd_is_set, fd_set, set_bit, merge_fd, merge_fds, scan_fds, select_timeout, Timeval, select,
  SelectResult,
}

length-set_bit : (fds : Bytes) (i bits : ℕ) → length (set_bit fds i bits) ≡ length fds
length-set_bit [] i bits = refl
length-set_bit (b ∷ bs) zero bits = refl
length-set_bit (b ∷ bs) (suc i) bits = ap suc (length-set_bit bs i bits)

length-fd_set : (fd : ℕ) (fds : Bytes) → length (fd_set fd fds) ≡ length fds
unfolding fd_set
length-fd_set fd fds = length-set_bit fds (fd / 8) (2 ^ (fd % 8))

byte_at-set_bit :
    (fds : Bytes) (i j bits : ℕ)
    → i < length fds
    → byte_at (set_bit fds i bits) j
      ≡ (if j == i then bit_or (byte_at fds j) bits else byte_at fds j)
byte_at-set_bit [] i j bits h = absurd (omega (arith, h))
byte_at-set_bit (b ∷ bs) zero zero bits h = refl
byte_at-set_bit (b ∷ bs) zero (suc j) bits h = ground arith
byte_at-set_bit (b ∷ bs) (suc i) zero bits h = ground arith
byte_at-set_bit (b ∷ bs) (suc i) (suc j) bits h =
    ground (arith, byte_at-set_bit bs i j bits (omega (arith, h)))

-- After FdSet a descriptor is in the set when it was before, or is the one that was added.
fd_is_set-fd_set :
    (fd other : ℕ) (fds : Bytes)
    → fd / 8 < length fds
    → fd_is_set other (fd_set fd fds) ≡ (other == fd || fd_is_set other fds)
unfolding fd_is_set fd_set
fd_is_set-fd_set fd other fds h =
    rw
      (
        length-set_bit fds (fd / 8) (2 ^ (fd % 8)),
        byte_at-set_bit fds (fd / 8) (other / 8) (2 ^ (fd % 8)) h,
      )
      (elim (Bool-cases (other / 8 == fd / 8)) [
        | inl same ↦
            let within : ltb (other / 8) (length fds) ≡ true = ground arith in
            let rest : (other % 8 == fd % 8) ≡ (other == fd) = ground arith in
            rw
              (
                same,
                has_bit-bit_or (other % 8) (fd % 8) (byte_at fds (other / 8)),
                rest,
                within,
                fd_is_set,
              )
              refl
        | inr far ↦ let other_fd : (other == fd) ≡ false = ground arith in rw (far, other_fd) refl
      ])

-- ---- one round ----

abbrev pub readable_on : Shim → ℕ → Bytes → ℕ → Bool
readable_on s pid rd fd = fd_is_set fd rd && lan_socket_readable s pid (some fd)

merge_fd-length :
    (s : Shim) (pid fd : ℕ) (rd ord : Bytes) (merged : ℕ)
    → length (merge_fd s pid rd fd (ord, merged)).0 ≡ length ord
merge_fd-length s pid fd rd ord merged = elim (Bool-cases (readable_on s pid rd fd)) [
  | inl hit ↦ rw hit (length-fd_set fd ord)
  | inr miss ↦ rw miss refl
]

merge_fd-fd_is_set :
    (s : Shim) (pid fd other : ℕ) (rd ord : Bytes) (merged : ℕ)
    → fd / 8 < length ord
    → fd_is_set other (merge_fd s pid rd fd (ord, merged)).0
      ≡ (other == fd && readable_on s pid rd fd || fd_is_set other ord)
merge_fd-fd_is_set s pid fd other rd ord merged h = elim (Bool-cases (readable_on s pid rd fd)) [
  | inl hit ↦
      rw (hit, fd_is_set-fd_set fd other ord h)
        (elim (Bool-cases (other == fd)) [ inl e ↦ rw e refl | inr e ↦ rw e refl ])
  | inr miss ↦ rw miss (elim (Bool-cases (other == fd)) [ inl e ↦ rw e refl | inr e ↦ rw e refl ])
]

-- ---- the loop ----

abbrev pub in_range : ℕ → ℕ → ℕ → Bool
in_range first behind fd = leb first fd && ltb fd behind

merge_fds-fd_is_set :
    (left fd other : ℕ) (s : Shim) (pid : ℕ) (rd ord : Bytes) (merged : ℕ)
    → fd + left ≤ 8 * length ord
    → fd_is_set other (merge_fds left fd s pid rd (ord, merged)).0
      ≡ (in_range fd (fd + left) other && readable_on s pid rd other || fd_is_set other ord)
unfolding merge_fds
merge_fds-fd_is_set zero fd other s pid rd ord merged h =
    let empty : in_range fd (fd + 0) other ≡ false = ground arith in rw empty refl
merge_fds-fd_is_set (suc left) fd other s pid rd ord merged h =
    rw
      (
        merge_fds-fd_is_set left (suc fd) other s pid rd (merge_fd s pid rd fd (ord, merged)).0
            (merge_fd s pid rd fd (ord, merged)).1
            (omega (arith, merge_fd-length s pid fd rd ord merged)),
        merge_fd-fd_is_set s pid fd other rd ord merged (omega arith),
      )
      (elim (Bool-cases (other == fd)) [
        | inl same ↦
            let e : other ≡ fd = ground arith in
            let later : in_range (suc fd) (suc fd + left) other ≡ false = ground arith in
            let now : in_range fd (fd + suc left) other ≡ true = ground arith in
            rw (later, now, same, ap (readable_on s pid rd) e) refl
        | inr far ↦
            let range : in_range (suc fd) (suc fd + left) other
                ≡ in_range fd (fd + suc left) other =
              ground arith in
            rw (range, far) refl
      ])

-- ---- counting ----

-- The descriptors of a range that are in a set.
abbrev pub count_fds : ℕ → ℕ → Bytes → ℕ
count_fds zero fd fds = 0
count_fds (suc left) fd fds =
    let rest = count_fds left (suc fd) fds in if fd_is_set fd fds then suc rest else rest

count_fds-ext :
    (left fd : ℕ) (a b : Bytes)
    → ((other : ℕ) → fd ≤ other → fd_is_set other a ≡ fd_is_set other b)
    → count_fds left fd a ≡ count_fds left fd b
count_fds-ext zero fd a b h = refl
count_fds-ext (suc left) fd a b h =
    rw (h fd (omega arith), count_fds-ext left (suc fd) a b (λ other l. h other (omega arith))) refl

count_fds-fd_set :
    (left first fd : ℕ) (fds : Bytes)
    → first ≤ fd
    → fd < first + left
    → fd / 8 < length fds
    → count_fds left first (fd_set fd fds)
      ≡ count_fds left first fds + (if fd_is_set fd fds then 0 else 1)
count_fds-fd_set zero first fd fds l u h = absurd (omega arith)
count_fds-fd_set (suc left) first fd fds l u h = elim (Bool-cases (first == fd)) [
  | inl same ↦
      let e : first ≡ fd = ground arith in
      let behind = count_fds-ext left (suc first) (fd_set fd fds) fds (λ other b.
        let later : (other == fd) ≡ false = ground arith in
        fd_is_set-fd_set fd other fds h ∙ rw later refl) in
      rw (behind, fd_is_set-fd_set fd first fds h, same, ap (λ t. fd_is_set t fds) e)
        (elim (Bool-cases (fd_is_set fd fds)) [
          | inl on ↦ rw on (omega arith)
          | inr off ↦ rw off (omega arith)
        ])
  | inr far ↦
      rw
        (
          fd_is_set-fd_set fd first fds h,
          far,
          count_fds-fd_set left (suc first) fd fds (ground arith) (omega arith) h,
        )
        (elim (Bool-cases (fd_is_set first fds)) [
          | inl on ↦ rw on (omega arith)
          | inr off ↦ rw off refl
        ])
]

merge_fd-count :
    (nfds fd : ℕ) (s : Shim) (pid : ℕ) (rd ord : Bytes) (merged : ℕ)
    → fd < nfds
    → nfds ≤ 8 * length ord
    → (merge_fd s pid rd fd (ord, merged)).1 + count_fds nfds 0 ord
      ≡ merged + count_fds nfds 0 (merge_fd s pid rd fd (ord, merged)).0
merge_fd-count nfds fd s pid rd ord merged u h = elim (Bool-cases (readable_on s pid rd fd)) [
  | inl hit ↦
      rw (hit, count_fds-fd_set nfds 0 fd ord (omega arith) (omega arith) (omega arith))
        (elim (Bool-cases (fd_is_set fd ord)) [
          | inl on ↦ rw on (omega arith)
          | inr off ↦ rw off (omega arith)
        ])
  | inr miss ↦ rw miss refl
]

merge_fds-count :
    (left fd nfds : ℕ) (s : Shim) (pid : ℕ) (rd ord : Bytes) (merged : ℕ)
    → fd + left ≤ nfds
    → nfds ≤ 8 * length ord
    → (merge_fds left fd s pid rd (ord, merged)).1 + count_fds nfds 0 ord
      ≡ merged + count_fds nfds 0 (merge_fds left fd s pid rd (ord, merged)).0
unfolding merge_fds
merge_fds-count zero fd nfds s pid rd ord merged u h = refl
merge_fds-count (suc left) fd nfds s pid rd ord merged u h =
    let round = merge_fd s pid rd fd (ord, merged) in
    omega (
      arith,
      merge_fd-count nfds fd s pid rd ord merged (omega arith) h,
      merge_fds-count left (suc fd) nfds s pid rd round.0 round.1 (omega arith)
          (omega (arith, merge_fd-length s pid fd rd ord merged)),
    )

select_timeout-le :
    (watched ready : Bool) (timeout : Option Timeval)
    → watched ≡ true
    → (us : ℕ) × (select_timeout (watched, ready) timeout
        ≡ some (record { seconds = 0; microseconds = if ready then 0 else us }))
      × (us ≤ 10000)
unfolding select_timeout
select_timeout-le watched true timeout h = (0, refl, omega arith)
select_timeout-le watched false none h = (10000, rw h refl, omega arith)
select_timeout-le watched false (some t) h =
    elim (Bool-cases (t.seconds != 0 || ltb 10000 t.microseconds)) [
      | inl above ↦ rw (h, above) (10000, refl, omega arith)
      | inr below ↦
          let none_whole : t.seconds ≡ 0 = ground arith in
          let unchanged : select_timeout (watched, false) (some t) ≡ some t = rw (h, below) refl in
          (
            t.microseconds,
            unchanged
                ∙ ap
                    (λ (whole : ℕ).
                      some (record { seconds = whole; microseconds = t.microseconds }))
                    none_whole,
            ground arith,
          )
    ]

-- A Select that watches a mirrored socket, and whose sets have room for its descriptors. Other threads
-- may do anything to the table and to the virtual network while the console's service waits, `later`
-- being what they leave. When the service returns a set, the game gets that set with the descriptors
-- added that it asked for and for which `later` has a datagram, so that one which arrived during the
-- wait counts, and no others; what is added to the number of ready descriptors is the number of those
-- that were not in the set. The service waits 10 ms at most, and not at all when the scan before it
-- has found a datagram.
pub select-Merged :
    (s later : Shim) (pid nfds : ℕ) (timeout : Option Timeval) (rd ord : Bytes) (n err : ℕ)
    (physical : Option Timeval → Option (Shim × SelectResult))
    → (scan_fds nfds 0 s pid rd false).0 ≡ true
    → physical (select_timeout (scan_fds nfds 0 s pid rd false) timeout)
      ≡ some (later, (record { ret = some n; err = err }, ord))
    → nfds ≤ 8 * length ord
    → (merged : ℕ) × (set : Bytes) × (select s pid nfds timeout rd physical
        ≡ some (record { ret = some merged; err = 0 }, set))
      × (merged + count_fds nfds 0 ord ≡ n + count_fds nfds 0 set)
      × ((fd : ℕ)
          → fd_is_set fd set
            ≡ (in_range 0 nfds fd && readable_on later pid rd fd || fd_is_set fd ord))
      × ((us : ℕ) × (select_timeout (scan_fds nfds 0 s pid rd false) timeout
            ≡ some (record {
              seconds = 0;
              microseconds = if (scan_fds nfds 0 s pid rd false).1 then 0 else us;
            }))
          × (us ≤ 10000))
unfolding select
select-Merged s later pid nfds timeout rd ord n err physical watched given room =
    let (set, merged) = merge_fds nfds 0 later pid rd (ord, n) in
    let start : 0 + nfds ≡ nfds = omega arith in
    (
      merged,
      set,
      rw (given, select) (rw watched refl),
      merge_fds-count nfds 0 nfds later pid rd ord n (omega arith) room,
      λ fd. rw start at (merge_fds-fd_is_set nfds 0 fd later pid rd ord n (omega arith)),
      select_timeout-le (scan_fds nfds 0 s pid rd false).0 (scan_fds nfds 0 s pid rd false).1
          timeout watched,
    )
