-- ===== src/Tests/Nat.antt =====
-- Concrete runs of the NAT mapper.
use sys_grid.Base.{
  ℕ, ◌+◌, ◌*◌, ◌<◌, ◌≤◌, ◌≡◌, ◌≢◌, ◌⊎◌, refl, ap, arith, true, false, [], ◌∷◌, none, some, u16, All,
}
use sys_grid.Nat.{
  Endpoint, no_endpoint, Pmp, response, try_again, Upnp, Router, absent, map_upnp, map_pmp,
  map_round, read_pmp, may_write, try_ports, configure_nat_mapper, get_nat_endpoint,
}
use sys_grid.Nat.Safe.{IsSafe, IsLast, map_upnp-IsSafe}
use sys_grid.Nat.Worker
use sys_grid.Nat.Worker.{Mapper, Reach, here, next, initial, routed}
use sys_grid.Nat.Lease.{WasGranted, Reach-get_nat_endpoint, map_round-keeps_lease}
use sys_grid.Nat.Quiet.{is_busy, Reach-is_busy}

-- ---- the mapper ----

abbrev open_router : Router
open_router = record { entry = λ p. absent; accepts = λ p. true }

abbrev home : Upnp
home = record {
  local = some (49 ∷ []);
  devices = true;
  connected = true;
  external = 7;
  router = open_router;
  cancelled_before = false;
  cancelled = λ i. false;
}

map_upnp-IsSafe_example :
    All (IsSafe open_router (49 ∷ []) [] 30000) (map_upnp home [] 30000).0
    × (((map_upnp home [] 30000).1 ≡ none)
        ⊎ ((p : ℕ) × ((map_upnp home [] 30000).1 ≡ some (record { address = 7; port = p }))
            × IsLast (map_upnp home [] 30000).0 (some p)
            × (home.external ≢ 0)))
map_upnp-IsSafe_example = map_upnp-IsSafe home (49 ∷ []) [] 30000 refl

-- A gateway that answers both requests of NAT-PMP with a lease of five seconds.
abbrev brief : Pmp
brief = record {
  opens = true;
  asks_address = true;
  address_polls = try_again ∷ response 0 ∷ [];
  address = 9;
  asks_mapping = true;
  mapping_polls = response 1 ∷ [];
  public_port = 30000;
  private_port = 30000;
  lifetime = 5;
}

abbrev at_home : Endpoint
at_home = record { address = 7; port = 30000 }

rejected_response : map_round brief home [] false 95536 ≡ some (at_home, 5)
unfolding read_pmp map_upnp try_ports may_write
rejected_response = map_round-keeps_lease brief home [] 95536 at_home refl refl (omega arith) refl

-- The request for port 30000, up to its publication at time 1000.
abbrev asked : ℕ
asked = 95536

abbrev mapped : Mapper
mapped = record initial {
  desired = asked;
  idle = false;
  published = record { endpoint = at_home; generation = asked; expiry = 601000 };
  active = asked;
  gateway = 2;
  deadline = 15000;
  previous_ip = 1;
  previous_gateway = 2;
  previous_generation = asked;
  retry_at = 301000;
  place = Worker.finishing;
  granted = record { request = asked; endpoint = at_home; lease = 600 } ∷ [];
  published_at = 1000;
}

-- A gateway that does not speak NAT-PMP.
abbrev silent_gateway : Pmp
silent_gateway = record brief { opens = false }

mapped_reached : Reach initial mapped
unfolding configure_nat_mapper map_round map_pmp map_upnp try_ports may_write routed
mapped_reached =
    let r1 = next here (Worker.configure initial 30000 refl (omega arith)) in
    let r2 = next r1 (Worker.load _ refl (omega arith)) in
    let r3 = next r2 (Worker.mark _ asked 0 refl) in
    let r4 = next r3 (Worker.go_on _ refl refl) in
    let r5 = next r4 (Worker.find_route _ 1 2 0 refl (omega arith) (omega arith)) in
    let r6 = next r5 (Worker.ask_router _ silent_gateway home [] false 0 refl (omega arith) refl) in
    let r7 = next r6 (Worker.allow_publish _ at_home 600 refl refl) in
    next r7 (Worker.publish_endpoint _ at_home 600 1000 1000 refl)

mapped_given : get_nat_endpoint mapped.published asked 2000 ≢ no_endpoint
unfolding get_nat_endpoint
mapped_given e = absurd (omega (arith, ap (λ (t : Endpoint). t.address) e))

Reach-get_nat_endpoint_example :
    (lease : ℕ) × WasGranted mapped.granted asked
      (get_nat_endpoint mapped.published asked 2000)
      lease
    × (lease ≤ 600)
    × (2000 < 1000 + lease * 1000)
Reach-get_nat_endpoint_example = Reach-get_nat_endpoint mapped 2000 mapped_reached mapped_given

abbrev quieted : Mapper
quieted = record initial { quiet = true }

quieted_reached : Reach initial quieted
unfolding configure_nat_mapper
quieted_reached =
    next (next here (Worker.begin_quiesce initial refl)) (Worker.end_quiesce _ refl refl)

Reach-is_busy_example : (u16 0 ≡ 0) × (is_busy Worker.top ≡ false)
Reach-is_busy_example = Reach-is_busy quieted quieted_reached refl
