-- ===== src/Tests/Titles.antt =====
-- Concrete histories of a request of nifm:u.
use sys_grid.Base.{◌+◌, ◌≤◌, ◌≡◌, true, false, some, [], ◌∷◌, List}
use sys_grid.Nifm.{Surroundings, new_request, get_request_state}
use sys_grid.Nifm.Held.{
  Ask, reads, submits, chooses, run, count_held, new_request-count_held, run-get_request_state,
}
use sys_grid.Nifm.Titles.{splatoon3_program_id}

-- The virtual network has an address, and the wire is down.
abbrev paused : Surroundings
paused = record {
  has_port = true;
  configured = true;
  wire_reachable = false;
  ip = 0x0a000001;
  netmask = 0xffffff00;
}

-- Mario Kart 8 Deluxe asks twice, submits, and asks again.
abbrev karts : List Ask
karts = reads paused (some 3) ∷ reads paused (some 3) ∷ submits true ∷ reads paused (some 3) ∷ []

new_request-count_held_example : count_held (new_request 0x0100152000022000) karts ≤ 1 + 1
new_request-count_held_example = new_request-count_held 0x0100152000022000 karts

-- LAN mode is chosen in the Shoal.
abbrev shoal : List Ask
shoal = chooses 4 true ∷ reads paused (some 1) ∷ chooses 1 true ∷ submits true ∷ []

run-get_request_state_example :
    (get_request_state (run (new_request splatoon3_program_id) shoal) paused (some 1)).1
    ≡ (some 3, false)
run-get_request_state_example = run-get_request_state shoal paused (some 1)
