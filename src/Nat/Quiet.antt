-- ===== src/Nat/Quiet.antt =====
-- What QuiesceNatMapper promises: no call of the router or of the route service after it.
use sys_grid.Base.{
  ℕ, ◌+◌, ◌/◌, ◌%◌, ◌<◌, ◌≡◌, ◌≢◌, refl, arith, Bool, true, false, ◌||◌, ◌!=◌, subst, u16, u64,
  ◌<<<◌, ◌>>>◌, bit_or-sum, Bool-cases, inl, inr,
}
use sys_grid.Nat.{configure_nat_mapper}
use sys_grid.Nat.Worker.{
  Place, top, loaded, checking, routing, again, Mapper, routed, Step, load, mark, turn_back, go_on,
  lose_route, find_route, skip_attempt, ask_router, allow_publish, publish_endpoint, fail, drop,
  finish, restart, configure, begin_quiesce, end_quiesce, time_out, Reach, here, next, initial,
}

pub configure_nat_mapper-port :
    (desired port : ℕ) → port < 65536 → u16 (configure_nat_mapper desired port) ≡ port
unfolding configure_nat_mapper
configure_nat_mapper-port desired port h = elim (Bool-cases (u16 desired != port)) [
  | inr same ↦ rw same (ground arith)
  | inl other ↦ rw other (
      omega (
        arith,
        bit_or-sum 16 ((desired / 65536 + 1) % 281474976710656) (u64 ((desired >>> 16 + 1) <<< 16))
            port (omega arith) (omega arith),
      ))
]

-- Places at which the worker may be in a call of the route service or of a router.
abbrev pub is_busy : Place → Bool
is_busy top = false
is_busy (loaded r) = false
is_busy checking = false
is_busy again = false
is_busy other = true

-- Places that the worker reaches with its idle flag set.
abbrev is_resting : Place → Bool
is_resting top = true
is_resting (loaded r) = true
is_resting other = false

-- A request that the worker has taken has a port.
abbrev HasPort : ℕ → Place → Type 0
HasPort active (loaded r) = u16 r ≢ 0
HasPort active checking = u16 active ≢ 0
HasPort active other = Unit

record Inv (m : Mapper) : Type 0 where
  has_port : HasPort m.active m.place
  rests : m.idle ≡ true → is_resting m.place ≡ true
  unset : m.quiescing ≡ true → u16 m.desired ≡ 0
  calm : m.quiet ≡ true → (u16 m.desired ≡ 0) × (is_busy m.place ≡ false)

HasPort-at : (active : ℕ) {p : Place} (q : Place) → p ≡ q → HasPort active p → HasPort active q
HasPort-at active q e h = subst (λ t. HasPort active t) e h

resting-idle : (p : Place) → is_resting p ≡ true → is_busy p ≡ false
resting-idle top h = refl
resting-idle (loaded r) h = refl
resting-idle _ h = ground arith

find_route-Inv : (m : Mapper) (ip gw now : ℕ) → m.place ≡ routing → Inv m → Inv (routed m ip gw now)
unfolding routed
find_route-Inv m ip gw now p v =
    elim (Bool-cases
      (ip != m.previous_ip || gw != m.previous_gateway || m.active != m.previous_generation)) [
        | inl changed ↦ rw changed (record {
          has_port = tt;
          rests = ground (arith, v.rests);
          unset = v.unset;
          calm = ground (arith, v.calm);
        })
        | inr same ↦ rw same (record {
          has_port = tt;
          rests = ground (arith, v.rests);
          unset = v.unset;
          calm = ground (arith, v.calm);
        })
      ]

Step-Inv : {m n : Mapper} → Step m n → Inv m → Inv n
Step-Inv (load m p q) v = record {
  has_port = q;
  rests = λ e. refl;
  unset = v.unset;
  calm = ground (arith, v.calm);
}
Step-Inv (mark m r now p) v = record {
  has_port = HasPort-at m.active (loaded r) p v.has_port;
  rests = ground arith;
  unset = v.unset;
  calm = ground (arith, v.calm);
}
Step-Inv (turn_back m p) v = record {
  has_port = tt;
  rests = ground (arith, v.rests);
  unset = v.unset;
  calm = ground (arith, v.calm);
}
Step-Inv (go_on m p q) v =
    let port : u16 m.active ≢ 0 = HasPort-at m.active checking p v.has_port in
    record {
      has_port = tt;
      rests = ground (arith, v.rests);
      unset = v.unset;
      calm = ground (arith, v.calm, port);
    }
Step-Inv (lose_route m now p) v = record {
  has_port = tt;
  rests = ground (arith, v.rests);
  unset = v.unset;
  calm = ground (arith, v.calm);
}
Step-Inv (skip_attempt m p) v = record {
  has_port = tt;
  rests = ground (arith, v.rests);
  unset = v.unset;
  calm = ground (arith, v.calm);
}
Step-Inv (ask_router m p u d c now q r s) v = record {
  has_port = tt;
  rests = ground (arith, v.rests);
  unset = v.unset;
  calm = ground (arith, v.calm);
}
Step-Inv (allow_publish m e lease p q) v = record {
  has_port = tt;
  rests = ground (arith, v.rests);
  unset = v.unset;
  calm = ground (arith, v.calm);
}
Step-Inv (publish_endpoint m e lease now later p) v = record {
  has_port = tt;
  rests = ground (arith, v.rests);
  unset = v.unset;
  calm = ground (arith, v.calm);
}
Step-Inv (fail m now p q) v = record {
  has_port = tt;
  rests = ground (arith, v.rests);
  unset = v.unset;
  calm = ground (arith, v.calm);
}
Step-Inv (drop m result now p) v = record {
  has_port = tt;
  rests = ground (arith, v.rests);
  unset = v.unset;
  calm = ground (arith, v.calm);
}
Step-Inv (finish m p) v = record {
  has_port = tt;
  rests = ground (arith, v.rests);
  unset = v.unset;
  calm = ground (arith, v.calm);
}
Step-Inv (restart m p) v = record {
  has_port = tt;
  rests = ground (arith, v.rests);
  unset = v.unset;
  calm = ground (arith, v.calm);
}
Step-Inv (find_route m ip gw now p q r) v = find_route-Inv m ip gw now p v
Step-Inv (configure m port p q) v = record {
  has_port = v.has_port;
  rests = v.rests;
  unset = ground arith;
  calm = ground (arith, v.calm, configure_nat_mapper-port m.desired port q);
}
Step-Inv (begin_quiesce m p) v = record {
  has_port = v.has_port;
  rests = v.rests;
  unset = ground (arith, configure_nat_mapper-port m.desired 0 (omega arith));
  calm = ground (arith, v.calm, configure_nat_mapper-port m.desired 0 (omega arith));
}
Step-Inv (end_quiesce m p q) v = record {
  has_port = v.has_port;
  rests = v.rests;
  unset = ground arith;
  calm = λ e. (v.unset p, resting-idle m.place (v.rests q));
}
Step-Inv (time_out m p) v = record {
  has_port = v.has_port;
  rests = v.rests;
  unset = ground arith;
  calm = v.calm;
}

Reach-Inv : {m : Mapper} → Reach initial m → Inv m
Reach-Inv here = record { has_port = tt; rests = λ e. refl; unset = λ e. refl; calm = λ e. cc e }
Reach-Inv (next r st) = Step-Inv st (Reach-Inv r)

-- In every state that the worker and the node thread reach from the start, in any interleaving: if the
-- last call of QuiesceNatMapper returned true and no port has been configured since, then no port is
-- desired, and the worker is not between the test that precedes its calls of the route service and of
-- the routers and the end of its loop's body. This includes a worker that had already read an earlier
-- request when the call returned.
pub Reach-is_busy :
    (m : Mapper)
    → Reach initial m
    → m.quiet ≡ true
    → (u16 m.desired ≡ 0) × (is_busy m.place ≡ false)
Reach-is_busy m r quiet = (Reach-Inv r).calm quiet
