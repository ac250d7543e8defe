-- ===== src/Bsd/Lan/Mirror.antt =====
-- What the table of mirrored sockets promises.
use sys_grid.Base.{
  ℕ, zero, suc, ◌+◌, ◌≤◌, ◌<◌, ◌≡◌, ◌≢◌, refl, ◌∙◌, ap, arith, Bool, true, false, not, ◌&&◌, ◌||◌,
  none, some, ◌==◌, if◌then◌else◌, update, is_some, Bool-cases, inl, inr,
}
use sys_grid.Vnet.{VNet, Index}
use sys_grid.Bsd.Lan.{
  Shim, LanSocket, max_lan_sockets, find_lan, find_lan_socket, same_fd, get_lan_vfd, mirror_of,
  close_lan, forget_lan_sockets_for_pid, without_pid, ensure_lan_mirror, open_candidate, need_of,
  mirror_for, install,
}

abbrev pub holds : (ℕ → LanSocket) → ℕ → ℕ → ℕ → Bool
holds table pid fd i = (table i).pid == pid && same_fd (table i).bsd_fd fd

-- The search finds the first entry for the descriptor, and none only if there is none.
abbrev Finds : (ℕ → LanSocket) → ℕ → ℕ → ℕ → ℕ → Index → Type 0
Finds table pid fd i left none = (j : ℕ) → i ≤ j → j < i + left → holds table pid fd j ≡ false
Finds table pid fd i left (some k) = (i ≤ k) × (k < i + left) × (holds table pid fd k ≡ true)

find_lan_step :
    (table : ℕ → LanSocket) (pid fd left i : ℕ)
    → find_lan table pid fd (suc left) i
      ≡ (if holds table pid fd i then some i else find_lan table pid fd left (suc i))
unfolding find_lan
find_lan_step table pid fd left i = refl

Finds-later :
    (table : ℕ → LanSocket) (pid fd i left : ℕ) (o : Index)
    → holds table pid fd i ≡ false
    → Finds table pid fd (suc i) left o
    → Finds table pid fd i (suc left) o
Finds-later table pid fd i left none miss h = λ j a b. elim (Bool-cases (j == i)) [
  | inl e ↦ ground arith
  | inr e ↦ h j (ground arith) (omega arith)
]
Finds-later table pid fd i left (some k) miss h = (omega (arith, h), omega (arith, h), h.2)

find_lan-Finds :
    (table : ℕ → LanSocket) (pid fd left i : ℕ)
    → Finds table pid fd i left (find_lan table pid fd left i)
find_lan-Finds table pid fd zero i = unfold find_lan in λ j a b. absurd (omega arith)
find_lan-Finds table pid fd (suc left) i = elim (Bool-cases (holds table pid fd i)) [
  | inl hit ↦ rw (find_lan_step table pid fd left i, hit) (omega arith, omega arith, hit)
  | inr miss ↦
      rw (find_lan_step table pid fd left i, miss)
        (Finds-later table pid fd i left _ miss (find_lan-Finds table pid fd left (suc i)))
]

cleared :
    (table : ℕ → LanSocket) (pid fd i : ℕ)
    → pid ≢ 0
    → holds (without_pid table pid) pid fd i ≡ false
unfolding without_pid
cleared table pid fd i given = ground arith

untouched :
    (table : ℕ → LanSocket) (pid other fd i : ℕ)
    → other ≢ pid
    → other ≢ 0
    → holds (without_pid table pid) other fd i ≡ holds table other fd i
unfolding without_pid
untouched table pid other fd i ne given = ground arith

find_lan-cleared :
    (table : ℕ → LanSocket) (pid fd left i : ℕ)
    → pid ≢ 0
    → find_lan (without_pid table pid) pid fd left i ≡ none
find_lan-cleared table pid fd zero i given = unfold find_lan in refl
find_lan-cleared table pid fd (suc left) i given =
    find_lan_step (without_pid table pid) pid fd left i
    ∙ rw (cleared table pid fd i given) (find_lan-cleared table pid fd left (suc i) given)

find_lan-untouched :
    (table : ℕ → LanSocket) (pid other fd left i : ℕ)
    → other ≢ pid
    → other ≢ 0
    → find_lan (without_pid table pid) other fd left i ≡ find_lan table other fd left i
find_lan-untouched table pid other fd zero i ne given = unfold find_lan in refl
find_lan-untouched table pid other fd (suc left) i ne given =
    rw
      (
        find_lan_step (without_pid table pid) other fd left i,
        find_lan_step table other fd left i,
        untouched table pid other fd i ne given,
        find_lan-untouched table pid other fd left (suc i) ne given,
      )
      refl

mirror_of-untouched :
    (table : ℕ → LanSocket) (pid other fd : ℕ) (o : Index)
    → other ≢ pid
    → Finds table other fd 0 max_lan_sockets o
    → mirror_of (without_pid table pid) o ≡ mirror_of table o
unfolding without_pid
mirror_of-untouched table pid other fd none ne h = refl
mirror_of-untouched table pid other fd (some k) ne h = ground (arith, h.2)

-- After the sockets of a process are forgotten, no descriptor of it is mirrored any more, and those
-- of the other processes are mirrored as before.
pub forget_lan_sockets_for_pid-get_lan_vfd :
    (s : Shim) (pid other : ℕ) (fd : Index)
    → pid ≢ 0
    → let table = (forget_lan_sockets_for_pid s pid).0.table in
      (get_lan_vfd table pid fd ≡ none)
      × (other ≢ pid → other ≢ 0 → get_lan_vfd table other fd ≡ get_lan_vfd s.table other fd)
unfolding forget_lan_sockets_for_pid get_lan_vfd find_lan_socket
forget_lan_sockets_for_pid-get_lan_vfd s pid other none given = (refl, λ ne o. refl)
forget_lan_sockets_for_pid-get_lan_vfd s pid other (some fd) given = (
  rw (find_lan-cleared s.table pid fd max_lan_sockets 0 given) refl,
  λ ne o. rw (find_lan-untouched s.table pid other fd max_lan_sockets 0 ne o) (
      mirror_of-untouched s.table pid other fd _ ne
        (find_lan-Finds s.table other fd max_lan_sockets 0)),
)

-- What a call hands out is the mirror that is found for the descriptor afterwards.
abbrev Agrees : ℕ → Index → Shim × Index → Type 0
Agrees pid fd (s, o) = (vfd : ℕ) → o ≡ some vfd → get_lan_vfd s.table pid fd ≡ some vfd

Agrees-none : (pid : ℕ) (fd : Index) (s : Shim) → Agrees pid fd (s, none)
Agrees-none pid fd s vfd e = ground arith

pub find_lan-ext :
    (t u : ℕ → LanSocket) (pid fd left i : ℕ)
    → ((j : ℕ) → holds t pid fd j ≡ holds u pid fd j)
    → find_lan t pid fd left i ≡ find_lan u pid fd left i
find_lan-ext t u pid fd zero i h = unfold find_lan in refl
find_lan-ext t u pid fd (suc left) i h =
    rw
      (
        find_lan_step t pid fd left i,
        find_lan_step u pid fd left i,
        h i,
        find_lan-ext t u pid fd left (suc i) h,
      )
      refl

abbrev mirrored_by : Shim → ℕ → Index → Shim
mirrored_by s i candidate = record s {
  table =
      let entry = s.table i in
      update s.table i (record entry { vnet_fd = candidate; mirrored = true });
}

found_after :
    (s : Shim) (pid fd i : ℕ) (candidate : Index)
    → find_lan_socket s.table pid (some fd) ≡ some i
    → get_lan_vfd (mirrored_by s i candidate).table pid (some fd) ≡ candidate
unfolding find_lan_socket get_lan_vfd
found_after s pid fd i candidate e =
    let same =
      find_lan-ext (mirrored_by s i candidate).table s.table pid fd max_lan_sockets 0
        (λ j. ground arith) in
    ap (mirror_of (mirrored_by s i candidate).table) (same ∙ e) ∙ ground arith

found_already :
    (s : Shim) (pid : ℕ) (fd : Index) (i : ℕ)
    → find_lan_socket s.table pid fd ≡ some i
    → (s.table i).mirrored ≡ true
    → get_lan_vfd s.table pid fd ≡ (s.table i).vnet_fd
unfolding get_lan_vfd
found_already s pid fd i e m = ap (mirror_of s.table) e ∙ ground arith

close_lan-table : (s : Shim) (vfd : Index) → (close_lan s vfd).table ≡ s.table
close_lan-table s vfd = ground arith

either :
    (pid : ℕ) (fd : Index) (c : Bool) (a b : Shim × Index)
    → (c ≡ true → Agrees pid fd a)
    → (c ≡ false → Agrees pid fd b)
    → Agrees pid fd (if c then a else b)
either pid fd true a b x y = x refl
either pid fd false a b x y = y refl

install-Agrees :
    (s : Shim) (pid fd : ℕ) (candidate o : Index)
    → find_lan_socket s.table pid (some fd) ≡ o
    → Agrees pid (some fd) (install s candidate o)
install-Agrees s pid fd candidate none e = Agrees-none pid (some fd) (close_lan s candidate)
install-Agrees s pid fd candidate (some i) e =
    either pid (some fd) (not (s.table i).udp) (close_lan s candidate, none) _
      (λ u. Agrees-none pid (some fd) (close_lan s candidate))
      (λ u.
        either pid (some fd) (s.table i).mirrored (close_lan s candidate, (s.table i).vnet_fd)
          (mirrored_by s i candidate, candidate)
          (λ m vfd k.
            ap (λ t. get_lan_vfd t pid (some fd)) (close_lan-table s candidate)
            ∙ found_already s pid (some fd) i e m
            ∙ k)
          (λ m vfd k. found_after s pid fd i candidate e ∙ k))

mirror_for-Agrees :
    (s : Shim) (pid fd : ℕ) (o : Index) (result : Shim × Index)
    → find_lan_socket s.table pid (some fd) ≡ o
    → Agrees pid (some fd) result
    → Agrees pid (some fd) (mirror_for s (need_of s.table o) result)
mirror_for-Agrees s pid fd none result e r = Agrees-none pid (some fd) s
mirror_for-Agrees s pid fd (some i) result e r = elim (Bool-cases (s.table i).udp) [
  | inl udp ↦ elim (Bool-cases (s.table i).mirrored) [
    | inl m ↦ rw (udp, m) (λ vfd k. found_already s pid (some fd) i e m ∙ k)
    | inr m ↦ rw (udp, m) r
  ]
  | inr plain ↦ rw plain (Agrees-none pid (some fd) s)
]

-- The virtual socket that a call hands out for a descriptor is the one that the descriptor is
-- mirrored by afterwards, whatever other threads did while the table was not locked.
pub ensure_lan_mirror-get_lan_vfd :
    (s : Shim) (pid fd port : ℕ) (meanwhile : Shim → Shim) (vfd : ℕ)
    → let (w, o) = ensure_lan_mirror s pid (some fd) port meanwhile in
      o ≡ some vfd → get_lan_vfd w.table pid (some fd) ≡ some vfd
unfolding ensure_lan_mirror
ensure_lan_mirror-get_lan_vfd s pid fd port meanwhile =
    either pid (some fd) (not s.has_port || port == 0) (s, none) _
      (λ c. Agrees-none pid (some fd) s)
      (λ c. mirror_for-Agrees s pid fd _ _ refl (
        either pid (some fd) (is_some candidate.1) _ (record s { net = candidate.0 }, none)
          (λ e. install-Agrees later pid fd candidate.1 _ refl)
          (λ e. Agrees-none pid (some fd) (record s { net = candidate.0 }))))
  where
    candidate : VNet × Index
    candidate = open_candidate s.net port

    later : Shim
    later = meanwhile (record s { net = candidate.0 })
