-- ===== src/Nat/Safe.antt =====
-- The ports that MapUpnp asks a router for.
use sys_grid.Base.{
  ℕ, zero, suc, ◌<◌, ◌≤◌, ◌≡◌, ◌⊎◌, ◌≢◌, inl, inr, refl, arith, Bool, true, not, ◌&&◌, List, [],
  ◌∷◌, Option, none, some, All, Bool-cases, ◌==◌,
}
use sys_grid.Config.{Text}
use sys_grid.Config.Saved.{same_text}
use sys_grid.Nat.{
  Entry, absent, taken, refused, Router, decimal, candidate_port, may_write, try_ports, Upnp,
  at_port, map_upnp,
}

same_text→eq : (t u : Text) → same_text t u ≡ true → t ≡ u
unfolding same_text
same_text→eq [] [] h = refl
same_text→eq [] (d ∷ u) h = cc
same_text→eq (c ∷ t) [] h = cc
same_text→eq (c ∷ t) (d ∷ u) h = ground (arith, same_text→eq t u)

-- A port in the range of the mapper whose entry is absent or the worker's own.
abbrev pub IsSafe : Router → Text → Text → ℕ → ℕ → Type 0
IsSafe r local description port p =
    (20000 ≤ p)
    × (p < 60000)
    × ((r.entry p ≡ absent) ⊎ (r.entry p ≡ taken local (decimal port) description))

may_write→ :
    (e : Entry) (local internal description : Text)
    → may_write e local internal description ≡ true
    → (e ≡ absent) ⊎ (e ≡ taken local internal description)
unfolding may_write
may_write→ absent local internal description h = inl refl
may_write→ (taken c a d) local internal description h =
    inr (ground (arith, same_text→eq c local, same_text→eq a internal, same_text→eq d description))
may_write→ refused local internal description h = cc

candidate-IsSafe :
    (r : Router) (local description : Text) (port attempt : ℕ)
    → may_write (r.entry (candidate_port port attempt)) local (decimal port) description ≡ true
    → IsSafe r local description port (candidate_port port attempt)
candidate-IsSafe r local description port attempt h =
    (omega arith, omega arith, may_write→ _ local (decimal port) description h)

-- The accepted port, when there is one, is the last that was asked for.
abbrev pub IsLast : List ℕ → Option ℕ → Type 0
IsLast asked none = Unit
IsLast [] (some p) = ⊥
IsLast (q ∷ []) (some p) = q ≡ p
IsLast (q ∷ s ∷ asked) (some p) = IsLast (s ∷ asked) (some p)

IsLast-cons : (c : ℕ) (asked : List ℕ) (got : Option ℕ) → IsLast asked got → IsLast (c ∷ asked) got
IsLast-cons c asked none h = tt
IsLast-cons c [] (some p) h = absurd h
IsLast-cons c (q ∷ asked) (some p) h = h

module _ (r : Router) (local description : Text) (port : ℕ) (cancelled : ℕ → Bool) where
  try_ports-IsSafe :
      (left attempt : ℕ)
      → let (asked, got) = try_ports r local description port cancelled left attempt in
        All (IsSafe r local description port) asked × IsLast asked got
  unfolding try_ports
  try_ports-IsSafe zero attempt = (tt, tt)
  try_ports-IsSafe (suc left) attempt =
      let (safe, last) = try_ports-IsSafe left (suc attempt) in
      let candidate = candidate_port port attempt in
      elim (Bool-cases (cancelled attempt)) [
        | inl stop ↦ rw stop (tt, tt)
        | inr on ↦
            elim (Bool-cases (may_write (r.entry candidate) local (decimal port) description)) [
              | inr other ↦ rw (on, other) (safe, last)
              | inl own ↦
                  let here = candidate-IsSafe r local description port attempt own in
                  elim (Bool-cases (r.accepts candidate)) [
                    | inl yes_ ↦ rw (on, own, yes_) ((here, tt), refl)
                    | inr no_ ↦
                        rw (on, own, no_)
                          (
                            (here, safe),
                            IsLast-cons candidate
                                (try_ports r local description port cancelled left (suc attempt)).0
                                (try_ports r local description port cancelled left (suc attempt)).1
                                last,
                          )
                  ]
            ]
      ]

at_port-cases :
    (r : Router) (local description : Text) (port address : ℕ) (asked : List ℕ) (got : Option ℕ)
    → All (IsSafe r local description port) asked
    → IsLast asked got
    → (at_port address got ≡ none)
      ⊎ ((p : ℕ) × (at_port address got ≡ some (record { address = address; port = p }))
          × IsLast asked (some p))
at_port-cases r local description port address asked none safe last = inl refl
at_port-cases r local description port address [] (some p) safe last = absurd last
at_port-cases r local description port address (q ∷ []) (some p) safe last =
    inr (p, ground (arith, safe.0, last), last)
at_port-cases r local description port address (q ∷ s ∷ asked) (some p) safe last =
    at_port-cases r local description port address (s ∷ asked) (some p) safe.1 last

-- Whatever the router's table and its answers are, whenever the call is cancelled, and at any port and
-- local address of the console: MapUpnp asks for a mapping only at external ports from 20000 to 59999
-- whose entry the router reports as absent, or as the console's own: with its address as the client,
-- its port as the internal port and its description. So it never asks to replace an entry of anyone
-- else. It returns no endpoint, or the external address that was read, which is then not 0, with the
-- last port that was asked for.
pub map_upnp-IsSafe :
    (u : Upnp) (local description : Text) (port : ℕ)
    → u.local ≡ some local
    → let (asked, made) = map_upnp u description port in
      All (IsSafe u.router local description port) asked
      × ((made ≡ none)
          ⊎ ((p : ℕ) × (made ≡ some (record { address = u.external; port = p }))
              × IsLast asked (some p)
              × (u.external ≢ 0)))
unfolding map_upnp
map_upnp-IsSafe u local description port at =
    let (safe, last) = try_ports-IsSafe u.router local description port u.cancelled 4 0 in
    elim (Bool-cases u.devices) [
      | inr no_ ↦ rw (at, no_) (tt, inl refl)
      | inl found ↦ elim (Bool-cases (u.connected && not u.cancelled_before)) [
        | inr no_ ↦ rw (at, found, no_) (tt, inl refl)
        | inl on ↦ elim (Bool-cases (u.external == 0)) [
          | inl no_ ↦ rw (at, found, on, no_) (tt, inl refl)
          | inr given ↦
              rw (at, found, on, given)
                (
                  safe,
                  elim (at_port-cases u.router local description port u.external
                      (try_ports u.router local description port u.cancelled 4 0).0
                      (try_ports u.router local description port u.cancelled 4 0).1 safe last) [
                        | inl nothing ↦ inl nothing
                        | inr (p, made, ended) ↦ inr (p, made, ended, ground (arith, given))
                      ],
                )
        ]
      ]
    ]
