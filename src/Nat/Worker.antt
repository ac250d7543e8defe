-- ===== src/Nat/Worker.antt =====
-- source/nat_mapper.cpp: the worker's loop, Main, and the calls of the node thread, as steps that
-- interleave. Each access to what the two threads share is one step. Times and the system's answers are
-- arguments of the steps.
use sys_grid.Base.{
  ℕ, ◌+◌, ◌*◌, ◌<◌, ◌≤◌, ◌≡◌, ◌≢◌, Bool, true, false, ◌&&◌, ◌||◌, List, [], ◌∷◌, Option, none, some,
  ◌==◌, ◌!=◌, if◌then◌else◌, u16,
}
use sys_grid.Config.{Text}
use sys_grid.Nat.{Endpoint, no_endpoint, Pmp, Upnp, map_round, configure_nat_mapper, Published}

-- Where the worker stands: at the head of its loop, behind the read of `desired`, behind the write of
-- `deadline`, before the route query, before the mapping, behind it with its result, behind the test
-- that lets it publish, at the end of the loop's body, and behind a `continue`.
pub data Place : Type 0 where
  top : Place
  loaded : ℕ → Place
  checking routing attempt : Place
  deciding : Option (Endpoint × ℕ) → Place
  publishing : Endpoint → ℕ → Place
  finishing again : Place

-- A mapping that a router has given: the request it was asked for, the endpoint and the lease.
pub record Grant : Type 0 where
  pub request : ℕ
  pub endpoint : Endpoint
  pub lease : ℕ

-- The variables of the file. `granted` and `published_at` are history: the mappings that the router
-- gave, and when `Publish` was last called. `quiescing` says that the node thread is in
-- QuiesceNatMapper, and `quiet` that its last call returned true and no port was configured since.
pub record Mapper : Type 0 where
  pub desired : ℕ
  pub idle : Bool
  pub published : Published
  pub active : ℕ
  pub gateway : ℕ
  pub deadline : ℕ
  pub previous_ip : ℕ
  pub previous_gateway : ℕ
  pub previous_generation : ℕ
  pub retry_at : ℕ
  pub place : Place
  pub granted : List Grant
  pub published_at : ℕ
  pub quiescing : Bool
  pub quiet : Bool

-- `Publish`.
abbrev pub publish : Mapper → Endpoint → ℕ → ℕ → Mapper
publish m e now expiry = record m {
  published = record { endpoint = e; generation = m.active; expiry = expiry };
  published_at = now;
}

-- The route is known: a change of it, or of the request, drops the published endpoint.
unfoldable pub routed : Mapper → ℕ → ℕ → ℕ → Mapper
routed m ip gw now =
    let known = record m { gateway = gw; place = attempt } in
    if ip != m.previous_ip || gw != m.previous_gateway || m.active != m.previous_generation
    then record (publish known no_endpoint now 0) {
      retry_at = 0;
      previous_ip = ip;
      previous_gateway = gw;
      previous_generation = m.active;
    }
    else known

abbrev pub add_grant : Mapper → Option (Endpoint × ℕ) → List Grant
add_grant m none = m.granted
add_grant m (some (e, lease)) =
    record { request = m.active; endpoint = e; lease = lease } ∷ m.granted

pub data Step : Mapper → Mapper → Type 0 where
  -- Main. Where `ztnx_nat_cancelled` returns false, `desired` is still `active`.
  load :
      (m : Mapper)
      → m.place ≡ top
      → u16 m.desired ≢ 0
      → Step m (record m { place = loaded m.desired })
  mark :
      (m : Mapper) (request now : ℕ)
      → m.place ≡ loaded request
      → Step m
          (record m { idle = false; active = request; deadline = now + 15000; place = checking })
  turn_back : (m : Mapper) → m.place ≡ checking → Step m (record m { place = again })
  go_on :
      (m : Mapper)
      → m.place ≡ checking
      → m.desired ≡ m.active
      → Step m (record m { place = routing })
  lose_route :
      (m : Mapper) (now : ℕ)
      → m.place ≡ routing
      → Step m (record (publish m no_endpoint now 0) {
        previous_ip = 0;
        previous_gateway = 0;
        place = again;
      })
  find_route :
      (m : Mapper) (ip gw now : ℕ)
      → m.place ≡ routing
      → ip ≢ 0
      → gw ≢ 0
      → Step m (routed m ip gw now)
  skip_attempt : (m : Mapper) → m.place ≡ attempt → Step m (record m { place = finishing })
  ask_router :
      (m : Mapper) (p : Pmp) (u : Upnp) (description : Text) (cancelled : Bool) (now : ℕ)
      → m.place ≡ attempt
      → m.retry_at ≤ now
      → m.desired ≡ m.active
      → Step m (record m {
        place = deciding (map_round p u description cancelled m.active);
        granted = add_grant m (map_round p u description cancelled m.active);
      })
  allow_publish :
      (m : Mapper) (e : Endpoint) (lease : ℕ)
      → m.place ≡ deciding (some (e, lease))
      → m.desired ≡ m.active
      → Step m (record m { place = publishing e lease })
  publish_endpoint :
      (m : Mapper) (e : Endpoint) (lease now later : ℕ)
      → m.place ≡ publishing e lease
      → Step m (record (publish m e now (now + lease * 1000)) {
        retry_at = later + lease * 500;
        place = finishing;
      })
  fail :
      (m : Mapper) (now : ℕ)
      → m.place ≡ deciding none
      → m.desired ≡ m.active
      → Step m (record m { retry_at = now + 60000; place = finishing })
  drop :
      (m : Mapper) (result : Option (Endpoint × ℕ)) (now : ℕ)
      → m.place ≡ deciding result
      → Step m (record m {
        retry_at = if m.desired == m.active then now + 60000 else m.retry_at;
        place = finishing;
      })
  finish : (m : Mapper) → m.place ≡ finishing → Step m (record m { idle = true; place = top })
  restart : (m : Mapper) → m.place ≡ again → Step m (record m { idle = true; place = top })
  -- The node thread: ConfigureNatMapper and QuiesceNatMapper.
  configure :
      (m : Mapper) (port : ℕ)
      → m.quiescing ≡ false
      → port < 65536
      → Step m
          (record m { desired = configure_nat_mapper m.desired port; quiet = m.quiet && port == 0 })
  begin_quiesce :
      (m : Mapper)
      → m.quiescing ≡ false
      → Step m (record m { desired = configure_nat_mapper m.desired 0; quiescing = true })
  end_quiesce :
      (m : Mapper)
      → m.quiescing ≡ true
      → m.idle ≡ true
      → Step m (record m { quiescing = false; quiet = true })
  time_out : (m : Mapper) → m.quiescing ≡ true → Step m (record m { quiescing = false })

pub data Reach (s : Mapper) : Mapper → Type 0 where
  here : Reach s s
  next : {t u : Mapper} → Reach s t → Step t u → Reach s u

-- The initial values of the variables.
abbrev pub initial : Mapper
initial = record {
  desired = 0;
  idle = true;
  published = record { endpoint = no_endpoint; generation = 0; expiry = 0 };
  active = 0;
  gateway = 0;
  deadline = 0;
  previous_ip = 0;
  previous_gateway = 0;
  previous_generation = 0;
  retry_at = 0;
  place = top;
  granted = [];
  published_at = 0;
  quiescing = false;
  quiet = false;
}
