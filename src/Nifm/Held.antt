-- ===== src/Nifm/Held.antt =====
-- The histories of a request: which replies are held back, and what Splatoon 3 is told.
use sys_grid.Base.{
  ℕ, ◌+◌, ◌≤◌, ◌≡◌, refl, subst, sym, arith, Bool, true, false, not, ◌&&◌, Option, none, some, ◌==◌,
  if◌then◌else◌, List, [], ◌∷◌, Bool-cases, inl, inr,
}
use sys_grid.Nifm.{
  Surroundings, Request, new_request, Reported, get_request_state, synthetic_state, real_state,
  submit, cancel, confirmed, set_connection_confirmation_option, ryujinx_internet_enabled,
}
use sys_grid.Nifm.Titles.{splatoon3_program_id, uses_ryujinx_nifm_request_model}

-- A call of the game, with what it sees and the answer of the console's service.
pub data Ask : Type 0 where
  reads : Surroundings → Option ℕ → Ask
  submits cancels : Bool → Ask
  chooses : ℕ → Bool → Ask

abbrev after : Request → Ask → Request
after r (reads e physical) = (get_request_state r e physical).0
after r (submits physical) = (submit r physical).0
after r (cancels physical) = (cancel r physical).0
after r (chooses option physical) = (set_connection_confirmation_option r option physical).0

abbrev pub run : Request → List Ask → Request
run r [] = r
run r (a ∷ asks) = run (after r a) asks

-- The replies that are held back.
abbrev held : Request → Ask → ℕ
held r (reads e physical) = if (get_request_state r e physical).1.1 then 1 else 0
held r (submits physical) = 0
held r (cancels physical) = 0
held r (chooses option physical) = 0

abbrev pub count_held : Request → List Ask → ℕ
count_held r [] = 0
count_held r (a ∷ asks) = held r a + count_held (after r a) asks

-- The calls of Submit and of Cancel.
abbrev renews : Ask → ℕ
renews (reads e physical) = 0
renews (submits physical) = 1
renews (cancels physical) = 1
renews (chooses option physical) = 0

abbrev pub count_renews : List Ask → ℕ
count_renews [] = 0
count_renews (a ∷ asks) = renews a + count_renews asks

-- How many replies may still be held before the next Submit or Cancel.
abbrev credit : Request → ℕ
credit r = if r.readiness_barrier_complete then 0 else 1

abbrev Fits : Request → Request × Reported → Type 0
Fits r (later, (answer, waited)) = (if waited then 1 else 0) + credit later ≤ credit r

real_state-Fits :
    (r : Request) (e : Surroundings) (physical : Option ℕ) → Fits r (real_state r e physical)
real_state-Fits r e none = omega arith
real_state-Fits r e (some state) = ground arith

synthetic_state-Fits : (r : Request) (e : Surroundings) → Fits r (synthetic_state r e)
synthetic_state-Fits r e = ground arith

get_request_state-Fits :
    (r : Request) (e : Surroundings) (physical : Option ℕ) → Fits r (get_request_state r e physical)
unfolding get_request_state
get_request_state-Fits r e physical =
    elim (Bool-cases (uses_ryujinx_nifm_request_model r.program_id)) [
      | inl synthetic ↦ rw synthetic (synthetic_state-Fits r e)
      | inr genuine ↦ rw genuine (real_state-Fits r e physical)
    ]

held-credit : (r : Request) (a : Ask) → held r a + credit (after r a) ≤ credit r + renews a
unfolding submit cancel set_connection_confirmation_option
held-credit r (reads e physical) = omega (arith, get_request_state-Fits r e physical)
held-credit r (submits physical) = ground arith
held-credit r (cancels physical) = ground arith
held-credit r (chooses option physical) = ground arith

count_held-le : (r : Request) (asks : List Ask) → count_held r asks ≤ credit r + count_renews asks
count_held-le r [] = omega arith
count_held-le r (a ∷ asks) = omega (arith, held-credit r a, count_held-le (after r a) asks)

-- Whatever a game asks of a new request, and whatever it sees, at most one reply is held back, and one
-- more for each Submit and each Cancel.
pub new_request-count_held :
    (program_id : ℕ) (asks : List Ask)
    → count_held (new_request program_id) asks ≤ 1 + count_renews asks
new_request-count_held program_id asks = count_held-le (new_request program_id) asks

-- ---- Splatoon 3 ----

-- The confirmation option that was chosen last.
abbrev pub last_option : ℕ → List Ask → ℕ
last_option option [] = option
last_option option (reads e physical ∷ asks) = last_option option asks
last_option option (submits physical ∷ asks) = last_option option asks
last_option option (cancels physical ∷ asks) = last_option option asks
last_option option (chooses later physical ∷ asks) = last_option later asks

abbrev IsSynthetic : Request → ℕ → Type 0
IsSynthetic r option =
    (uses_ryujinx_nifm_request_model r.program_id ≡ true)
    × (r.connection_confirmation_option ≡ option)

synthetic_state-keeps :
    (r : Request) (e : Surroundings) (option : ℕ)
    → IsSynthetic r option
    → IsSynthetic (synthetic_state r e).0 option
synthetic_state-keeps r e option h =
    elim (Bool-cases
      (r.connection_confirmation_option == 1 && not r.shoal_wait_complete && e.has_port)) [
        | inl first ↦ rw first h
        | inr again ↦ rw again h
      ]

confirmed-keeps :
    (r : Request) (option later : ℕ) → IsSynthetic r option → IsSynthetic (confirmed r later) later
confirmed-keeps r option later h = elim (Bool-cases (later == 1)) [
  | inl lan ↦ rw lan (h.0, refl)
  | inr boot ↦ rw boot (h.0, refl)
]

reads_synthetic :
    (r : Request) (e : Surroundings) (physical : Option ℕ)
    → uses_ryujinx_nifm_request_model r.program_id ≡ true
    → get_request_state r e physical ≡ synthetic_state r e
unfolding get_request_state
reads_synthetic r e physical h = rw h refl

chooses_synthetic :
    (r : Request) (later : ℕ) (physical : Bool)
    → uses_ryujinx_nifm_request_model r.program_id ≡ true
    → set_connection_confirmation_option r later physical ≡ (confirmed r later, true)
unfolding set_connection_confirmation_option
chooses_synthetic r later physical h = rw h refl

after-IsSynthetic :
    (r : Request) (option : ℕ) (a : Ask)
    → IsSynthetic r option
    → IsSynthetic (after r a) (last_option option (a ∷ []))
unfolding submit cancel
after-IsSynthetic r option (reads e physical) h =
    subst (λ x. IsSynthetic x.0 option) (sym (reads_synthetic r e physical (h.0)))
      (synthetic_state-keeps r e option h)
after-IsSynthetic r option (submits physical) h = h
after-IsSynthetic r option (cancels physical) h = h
after-IsSynthetic r option (chooses later physical) h =
    subst (λ x. IsSynthetic x.0 later) (sym (chooses_synthetic r later physical (h.0)))
      (confirmed-keeps r option later h)

run-IsSynthetic :
    (r : Request) (option : ℕ) (asks : List Ask)
    → IsSynthetic r option
    → IsSynthetic (run r asks) (last_option option asks)
run-IsSynthetic r option [] h = h
run-IsSynthetic r option (reads e physical ∷ asks) h =
    run-IsSynthetic (after r (reads e physical)) option asks
      (after-IsSynthetic r option (reads e physical) h)
run-IsSynthetic r option (submits physical ∷ asks) h =
    run-IsSynthetic (after r (submits physical)) option asks
      (after-IsSynthetic r option (submits physical) h)
run-IsSynthetic r option (cancels physical ∷ asks) h =
    run-IsSynthetic (after r (cancels physical)) option asks
      (after-IsSynthetic r option (cancels physical) h)
run-IsSynthetic r option (chooses later physical ∷ asks) h =
    run-IsSynthetic (after r (chooses later physical)) later asks
      (after-IsSynthetic r option (chooses later physical) h)

-- What the state of a synthetic request is: Available is 3, Error is 1.
synthetic-reads :
    (r : Request) (option : ℕ) (e : Surroundings) (physical : Option ℕ)
    → IsSynthetic r option
    → (get_request_state r e physical).1
      ≡ (some (if option == 1 && e.has_port && e.configured then 3 else 1), false)
unfolding get_request_state ryujinx_internet_enabled
synthetic-reads r option e physical h = rw (h.0) (rw (h.1) refl)

-- After any history of its calls, Splatoon 3 is told that the network is available exactly when it has
-- chosen the option 1 last, which asks for LAN mode, and the virtual network has an address. The state
-- of the wire and that of the console's own request do not count, and no reply is held back.
pub run-get_request_state :
    (asks : List Ask) (e : Surroundings) (physical : Option ℕ)
    → (get_request_state (run (new_request splatoon3_program_id) asks) e physical).1
      ≡ (some (if last_option 0 asks == 1 && e.has_port && e.configured then 3 else 1), false)
run-get_request_state asks e physical =
    synthetic-reads (run (new_request splatoon3_program_id) asks) (last_option 0 asks) e physical (
      run-IsSynthetic (new_request splatoon3_program_id) 0 asks
        (unfold uses_ryujinx_nifm_request_model in refl, refl))
