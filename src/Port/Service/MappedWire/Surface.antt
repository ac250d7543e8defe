-- ===== src/Port/Service/MappedWire/Surface.antt =====
-- The mapped socket, the request to the mapper, and the address that the node announces agree.
use sys_grid.Base.{
  ℕ, ◌<◌, ◌≡◌, ◌≢◌, ◌⊎◌, inl, inr, refl, ap, ◌∙◌, arith, Bool, true, false, not, ◌&&◌, List, [],
  ◌∷◌, ◌++◌, ◌==◌, ◌!=◌, if◌then◌else◌, take, u16, Bool-cases,
}
use sys_grid.Net.{Bytes}
use sys_grid.Nat.{Endpoint, Published, get_nat_endpoint}
use sys_grid.Nat.Quiet.{configure_nat_mapper-port}
use sys_grid.Port.{wire_received}
use sys_grid.Port.Service.{
  Service, Mapped, Call, calling, clear_addresses, add_address, receive_packet,
}
use sys_grid.Port.Service.MappedWire.{
  close_nat_wire, mapped_port, open_mapped, tell_endpoint, receive_all, MappedPoll, silent, broken,
  packets, after_poll, maintain_nat_wire,
}

-- The addresses that the node holds behind a sequence of its calls.
abbrev pub announced : List (ℕ × ℕ) → List Call → List (ℕ × ℕ)
announced held [] = held
announced held (clear_addresses ∷ cs) = announced [] cs
announced held (add_address a p ∷ cs) = announced ((a, p) ∷ held) cs
announced held (c ∷ cs) = announced held cs

abbrev pub surface : Mapped → List (ℕ × ℕ)
surface m = if m.address != 0 && m.public_port != 0 then (m.address, m.public_port) ∷ [] else []

pub record IsConsistent (s : Service) : Type 0 where
  pub node_up : s.has_node ≡ true
  pub requested : u16 s.mapped.desired ≡ s.mapped.port
  pub port_range : s.mapped.port < 65536
  pub unmapped :
      s.mapped.has_fd ≡ false
      → (s.mapped.port ≡ 0) × (s.mapped.address ≡ 0) × (s.mapped.public_port ≡ 0)
  pub mapped : s.mapped.has_fd ≡ true → s.mapped.port ≢ 0
  pub told : announced [] s.calls ≡ surface s.mapped

announced-snoc :
    (held : List (ℕ × ℕ)) (cs : List Call) (c : Call)
    → announced held (cs ++ c ∷ []) ≡ announced (announced held cs) (c ∷ [])
announced-snoc held [] c = refl
announced-snoc held (clear_addresses ∷ cs) c = announced-snoc [] cs c
announced-snoc held (add_address a p ∷ cs) c = announced-snoc ((a, p) ∷ held) cs c
announced-snoc held (_ ∷ cs) c = announced-snoc held cs c

close_nat_wire-IsConsistent : (s : Service) → IsConsistent s → IsConsistent (close_nat_wire s)
unfolding close_nat_wire
close_nat_wire-IsConsistent s v = ground (
  arith,
  v.unmapped,
  v.mapped,
  v.told,
  configure_nat_mapper-port s.mapped.desired 0,
  announced-snoc [] s.calls clear_addresses,
)

open_mapped-IsConsistent :
    (s : Service) (now node_address : ℕ) (opens binds : Bool)
    → IsConsistent s
    → IsConsistent (open_mapped s now node_address opens binds)
unfolding open_mapped
open_mapped-IsConsistent s now node_address opens binds v =
    ground (arith, configure_nat_mapper-port s.mapped.desired (mapped_port node_address))

-- An endpoint is returned only while a port is requested.
abbrev pub IsServed : ℕ → Endpoint → Type 0
IsServed desired e = (e.address ≢ 0) ⊎ (e.port ≢ 0) → u16 desired ≢ 0

unserved :
    (e : Endpoint) (desired : ℕ)
    → IsServed desired e
    → u16 desired ≡ 0
    → (e.address ≡ 0) × (e.port ≡ 0)
unserved e desired served none_ = (
  elim (Bool-cases (e.address == 0)) [
    | inl z ↦ ground arith
    | inr given ↦ absurd (served (inl (ground arith)) none_)
  ],
  elim (Bool-cases (e.port == 0)) [
    | inl z ↦ ground arith
    | inr given ↦ absurd (served (inr (ground arith)) none_)
  ],
)

tell_endpoint-IsConsistent :
    (s : Service) (e : Endpoint)
    → IsServed s.mapped.desired e
    → IsConsistent s
    → IsConsistent (tell_endpoint s e)
unfolding tell_endpoint
tell_endpoint-IsConsistent s e served v =
    let cleared : announced [] (s.calls ++ clear_addresses ∷ []) ≡ [] =
      announced-snoc [] s.calls clear_addresses in
    let added : announced []
          ((s.calls ++ clear_addresses ∷ []) ++ add_address e.address e.port ∷ [])
        ≡ (e.address, e.port) ∷ [] =
      announced-snoc [] (s.calls ++ clear_addresses ∷ []) (add_address e.address e.port)
      ∙ ap (λ (t : List (ℕ × ℕ)). announced t (add_address e.address e.port ∷ [])) cleared in
    let empty : s.mapped.has_fd ≡ false → (e.address ≡ 0) × (e.port ≡ 0) =
      λ down. unserved e s.mapped.desired served (v.requested ∙ (v.unmapped down).0) in
    ground (arith, empty, cleared, added, v.unmapped, v.mapped, v.told)

receive_all-IsConsistent :
    (s : Service) (deadline : ℕ) (ps : List Bytes)
    → IsConsistent s
    → IsConsistent (receive_all s deadline ps)
unfolding receive_all
receive_all-IsConsistent s deadline [] v = v
receive_all-IsConsistent s deadline (p ∷ ps) v =
    receive_all-IsConsistent
      (calling (record s { wire = wire_received s.wire deadline })
        (receive_packet s.mapped.socket_id p))
      deadline ps
      (record {
        node_up = v.node_up;
        requested = v.requested;
        port_range = v.port_range;
        unmapped = v.unmapped;
        mapped = v.mapped;
        told = announced-snoc [] s.calls (receive_packet s.mapped.socket_id p) ∙ v.told;
      })

after_poll-IsConsistent :
    (s : Service) (deadline : ℕ) (poll : MappedPoll)
    → IsConsistent s
    → IsConsistent (after_poll s deadline poll)
after_poll-IsConsistent s deadline silent v = v
after_poll-IsConsistent s deadline broken v = close_nat_wire-IsConsistent s v
after_poll-IsConsistent s deadline (packets ps) v =
    receive_all-IsConsistent s deadline (take 16 ps) v

IsConsistent-if :
    (b : Bool) {s t : Service} → IsConsistent s → IsConsistent t → IsConsistent (if b then s else t)
IsConsistent-if true x y = x
IsConsistent-if false x y = y

-- Whatever the system calls return: a round of maintainNatWire keeps this. The request to the NAT
-- mapper is for the port of the mapped socket, and for port 0 when there is none, in which case no
-- endpoint is remembered; and the only address that the node announces is the remembered endpoint, if
-- it has an address and a port, and otherwise it announces none. The node exists, and what the mapper
-- returns is not empty only while a port is requested of it.
pub maintain_nat_wire-IsConsistent :
    (s : Service) (now node_address : ℕ) (opens binds : Bool) (published : Published)
    (mapper_now : ℕ) (poll : MappedPoll) (deadline : ℕ)
    → IsConsistent s
    → ((desired : ℕ) → IsServed desired (get_nat_endpoint published desired mapper_now))
    → IsConsistent
        (maintain_nat_wire s now node_address opens binds published mapper_now poll deadline)
unfolding maintain_nat_wire
maintain_nat_wire-IsConsistent s now node_address opens binds published mapper_now poll deadline v
      served =
    let opened = open_mapped s now node_address opens binds in
    let e = get_nat_endpoint published opened.mapped.desired mapper_now in
    let told = tell_endpoint opened e in
    let w = open_mapped-IsConsistent s now node_address opens binds v in
    let x = tell_endpoint-IsConsistent opened e (served opened.mapped.desired) w in
    IsConsistent-if (not s.mapped.enabled) v (
      IsConsistent-if (not s.wire.has_fd) (close_nat_wire-IsConsistent s v)
        (IsConsistent-if (not told.mapped.has_fd) x (after_poll-IsConsistent told deadline poll x)))
