-- ===== src/Nat/Lease.antt =====
-- What GetNatEndpoint returns, over all interleavings of the worker and the node thread.
use sys_grid.Base.{
  ℕ, ◌+◌, ◌*◌, ◌<◌, ◌≤◌, ◌≡◌, ◌≢◌, ◌⊎◌, inl, inr, refl, arith, Bool, true, false, ◌&&◌, ◌||◌, List,
  [], ◌∷◌, subst, ap, Bool-cases, Option, none, some, ◌==◌, ◌!=◌, leb, u16, min,
}
use sys_grid.Config.{Text}
use sys_grid.Nat.{
  Endpoint, no_endpoint, Pmp, Upnp, map_pmp, map_upnp, map_round, read_pmp, type_public_address,
  type_udp_mapping, get_nat_endpoint,
}
use sys_grid.Nat.Worker.{
  Place, deciding, publishing, Grant, Mapper, routed, add_grant, Step, load, mark, turn_back, go_on,
  lose_route, find_route, skip_attempt, ask_router, allow_publish, publish_endpoint, fail, drop,
  finish, restart, configure, begin_quiesce, end_quiesce, time_out, Reach, here, next, initial,
}

-- A router has given the endpoint and the lease to a request.
abbrev pub WasGranted : List Grant → ℕ → Endpoint → ℕ → Type 0
WasGranted [] request e lease = ⊥
WasGranted (g ∷ gs) request e lease =
    ((g.request ≡ request) × (g.endpoint ≡ e) × (g.lease ≡ lease)) ⊎ WasGranted gs request e lease

-- The mapping that the worker holds, and is about to publish.
abbrev InHand : List Grant → ℕ → Place → Type 0
InHand gs active (deciding (some (e, lease))) = WasGranted gs active e lease × (lease ≤ 600)
InHand gs active (publishing e lease) = WasGranted gs active e lease × (lease ≤ 600)
InHand gs active other = Unit

-- What is published is nothing, or a mapping that was given to its generation, until its lease ends.
abbrev IsBacked : Mapper → Type 0
IsBacked m =
    (m.published.endpoint ≡ no_endpoint)
    ⊎ ((lease : ℕ) × WasGranted m.granted m.published.generation m.published.endpoint lease
        × (lease ≤ 600)
        × (m.published.expiry ≡ m.published_at + lease * 1000))

record Inv (m : Mapper) : Type 0 where
  in_hand : InHand m.granted m.active m.place
  backed : IsBacked m

WasGranted-weaken :
    (m : Mapper) (o : Option (Endpoint × ℕ)) (r : ℕ) (e : Endpoint) (lease : ℕ)
    → WasGranted m.granted r e lease
    → WasGranted (add_grant m o) r e lease
WasGranted-weaken m none r e lease h = h
WasGranted-weaken m (some (e', l)) r e lease h = inr h

IsBacked-ask :
    (m : Mapper) (place : Place) (o : Option (Endpoint × ℕ))
    → IsBacked m
    → IsBacked (record m { place = place; granted = add_grant m o })
IsBacked-ask m place o (inl h) = inl h
IsBacked-ask m place o (inr (lease, g, short, e)) =
    inr (lease, WasGranted-weaken m o m.published.generation m.published.endpoint lease g, short, e)

map_round-le :
    (p : Pmp) (u : Upnp) (d : Text) (c : Bool) (active : ℕ) (e : Endpoint) (lease : ℕ)
    → map_round p u d c active ≡ some (e, lease)
    → lease ≤ 600
unfolding map_round
map_round-le p u d c active e lease h = ground arith

InHand-ask :
    (m : Mapper) (o : Option (Endpoint × ℕ))
    → ((e : Endpoint) (lease : ℕ) → o ≡ some (e, lease) → lease ≤ 600)
    → InHand (add_grant m o) m.active (deciding o)
InHand-ask m none short = tt
InHand-ask m (some (e, lease)) short = (inl (refl, refl, refl), short e lease refl)

find_route-Inv : (m : Mapper) (ip gw now : ℕ) → Inv m → Inv (routed m ip gw now)
unfolding routed
find_route-Inv m ip gw now v =
    elim (Bool-cases
      (ip != m.previous_ip || gw != m.previous_gateway || m.active != m.previous_generation)) [
        | inl changed ↦ rw changed (record { in_hand = tt; backed = inl refl })
        | inr same ↦ rw same (record { in_hand = tt; backed = v.backed })
      ]

InHand-at :
    (gs : List Grant) (active : ℕ) {p : Place} (q : Place)
    → p ≡ q
    → InHand gs active p
    → InHand gs active q
InHand-at gs active q e h = subst (λ t. InHand gs active t) e h

Step-Inv : {m n : Mapper} → Step m n → Inv m → Inv n
Step-Inv (load m p q) v = record { in_hand = tt; backed = v.backed }
Step-Inv (mark m r now p) v = record { in_hand = tt; backed = v.backed }
Step-Inv (turn_back m p) v = record { in_hand = tt; backed = v.backed }
Step-Inv (go_on m p q) v = record { in_hand = tt; backed = v.backed }
Step-Inv (lose_route m now p) v = record { in_hand = tt; backed = inl refl }
Step-Inv (find_route m ip gw now p q r) v = find_route-Inv m ip gw now v
Step-Inv (skip_attempt m p) v = record { in_hand = tt; backed = v.backed }
Step-Inv (ask_router m p u d c now q r s) v =
    let o = map_round p u d c m.active in
    record {
      in_hand = InHand-ask m o (map_round-le p u d c m.active);
      backed = IsBacked-ask m (deciding o) o v.backed;
    }
Step-Inv (allow_publish m e lease p q) v = record {
  in_hand = InHand-at m.granted m.active (deciding (some (e, lease))) p v.in_hand;
  backed = v.backed;
}
Step-Inv (publish_endpoint m e lease now later p) v = record {
  in_hand = tt;
  backed =
      let (given, short) = InHand-at m.granted m.active (publishing e lease) p v.in_hand in
      inr (lease, given, short, refl);
}
Step-Inv (fail m now p q) v = record { in_hand = tt; backed = v.backed }
Step-Inv (drop m result now p) v = record { in_hand = tt; backed = v.backed }
Step-Inv (finish m p) v = record { in_hand = tt; backed = v.backed }
Step-Inv (restart m p) v = record { in_hand = tt; backed = v.backed }
Step-Inv (configure m port p q) v = record { in_hand = v.in_hand; backed = v.backed }
Step-Inv (begin_quiesce m p) v = record { in_hand = v.in_hand; backed = v.backed }
Step-Inv (end_quiesce m p q) v = record { in_hand = v.in_hand; backed = v.backed }
Step-Inv (time_out m p) v = record { in_hand = v.in_hand; backed = v.backed }

Reach-Inv : {m : Mapper} → Reach initial m → Inv m
Reach-Inv here = record { in_hand = tt; backed = inl refl }
Reach-Inv (next r st) = Step-Inv st (Reach-Inv r)

-- In every state that the worker and the node thread reach from the start, in any interleaving, and
-- at any time: if GetNatEndpoint returns an endpoint other than the empty one, then a router gave
-- exactly this endpoint to the worker for the request that is desired now, generation and port, with a
-- lease of 600 seconds at most, and the time is before the end of that lease, counted from the moment
-- it was published. An answer to an earlier request is never returned.
pub Reach-get_nat_endpoint :
    (m : Mapper) (now : ℕ)
    → Reach initial m
    → get_nat_endpoint m.published m.desired now ≢ no_endpoint
    → (lease : ℕ) × WasGranted m.granted m.desired
        (get_nat_endpoint m.published m.desired now)
        lease
      × (lease ≤ 600)
      × (now < m.published_at + lease * 1000)
unfolding get_nat_endpoint
Reach-get_nat_endpoint m now r given =
    elim (Bool-cases (m.published.generation != m.desired || leb m.published.expiry now)) [
      | inl stale ↦ absurd (rw stale at given refl)
      | inr fresh ↦ elim (Reach-Inv r).backed [
        | inl none_ ↦ absurd (rw fresh at given none_)
        | inr (lease, granted, short, until) ↦
            let same : m.published.generation ≡ m.desired = ground arith in
            rw fresh (
              lease,
              subst (λ (g : ℕ). WasGranted m.granted g m.published.endpoint lease) same granted,
              short,
              ground arith,
            )
      ]
    ]

-- The lease of a mapping by UPnP, after an attempt by NAT-PMP that failed on its second response: take
-- any request for which libnatpmp delivers both responses, with an address, but with a lifetime below
-- 30 seconds, and any router that gives a mapping by UPnP. The endpoint is published with the lifetime
-- of the rejected response in place of the 600 seconds that the mapping was asked for.
pub map_round-keeps_lease :
    (p : Pmp) (u : Upnp) (description : Text) (active : ℕ) (e : Endpoint)
    → (p.opens && p.asks_address && read_pmp p.address_polls type_public_address) ≡ true
    → (p.address != 0 && p.asks_mapping && read_pmp p.mapping_polls type_udp_mapping) ≡ true
    → p.lifetime < 30
    → (map_upnp u description (u16 active)).1 ≡ some e
    → map_round p u description false active ≡ some (e, p.lifetime)
unfolding map_round
map_round-keeps_lease p u description active e address mapping short given =
    let below : leb 30 p.lifetime ≡ false = ground arith in
    let rejected : (p.private_port == u16 active && p.public_port != 0 && leb 30 p.lifetime)
        ≡ false =
      ground (arith, below) in
    let kept : min p.lifetime 600 ≡ p.lifetime = omega arith in
    let by_pmp : map_pmp p (u16 active) 600 ≡ (none, p.lifetime) =
      unfold map_pmp in rw (address, mapping, rejected) refl in
    let remains : (map_pmp p (u16 active) 600).1 ≡ p.lifetime =
      ap (λ (t : Option Endpoint × ℕ). t.1) by_pmp in
    rw (by_pmp, given, remains, kept, map_round) refl
