-- ===== src/Nat.antt =====
-- source/nat_mapper.cpp: the mappings of a UDP port on the physical router. libnatpmp, miniupnpc and the
-- router are outside: a call's answers are arguments. An answer of `ztnx_nat_cancelled` during the
-- calls is an argument as well. The children hold the worker's loop and the theorems.

pub mod Safe
pub mod Worker
pub mod Lease
pub mod Quiet
use sys_grid.Base.{
  ℕ, zero, suc, ◌+◌, ◌-◌, ◌*◌, ◌/◌, ◌%◌, ◌^◌, ◌<◌, Bool, true, false, not, ◌&&◌, ◌||◌, List, [],
  ◌∷◌, ◌++◌, Option, none, some, ◌==◌, ◌!=◌, ltb, leb, if◌then◌else◌, u16, u32, u64, min, ◌<<<◌,
  ◌>>>◌, bit_or,
}
use sys_grid.Config.{Text}
use sys_grid.Config.Saved.{same_text}

-- `NatEndpoint`; `NatEndpoint{}` is zero.
pub record Endpoint : Type 0 where
  pub address : ℕ
  pub port : ℕ

abbrev pub no_endpoint : Endpoint
no_endpoint = record { address = 0; port = 0 }

-- ---- NAT-PMP ----

-- A round of the loop of `ReadPmp`, of those that its condition admits.
pub data Poll : Type 0 where
  response : ℕ → Poll
  try_again failed : Poll

unfoldable pub read_pmp : List Poll → ℕ → Bool
read_pmp [] type = false
read_pmp (response t ∷ rest) type = t == type
read_pmp (try_again ∷ rest) type = read_pmp rest type
read_pmp (failed ∷ rest) type = false

abbrev pub type_public_address : ℕ
type_public_address = 0

abbrev pub type_udp_mapping : ℕ
type_udp_mapping = 1

-- What libnatpmp does in one call of `MapPmp`: whether it opens and sends, what its reads give, and the
-- fields of the two responses.
pub record Pmp : Type 0 where
  pub opens : Bool
  pub asks_address : Bool
  pub address_polls : List Poll
  pub address : ℕ
  pub asks_mapping : Bool
  pub mapping_polls : List Poll
  pub public_port : ℕ
  pub private_port : ℕ
  pub lifetime : ℕ

-- The endpoint if the call succeeds, and the lease in seconds, which the call leaves as it was unless
-- it has read the second response.
unfoldable pub map_pmp : Pmp → ℕ → ℕ → Option Endpoint × ℕ
map_pmp p port lease =
    if not (p.opens && p.asks_address && read_pmp p.address_polls type_public_address)
    then (none, lease)
    else if not (p.address != 0 && p.asks_mapping && read_pmp p.mapping_polls type_udp_mapping)
    then (none, lease)
    else if p.private_port == port && p.public_port != 0 && leb 30 p.lifetime
    then (some (record { address = p.address; port = p.public_port }), p.lifetime)
    else (none, p.lifetime)

-- ---- UPnP ----

-- The answer to a query for one external port: no such entry (714), an entry with its client, its
-- internal port and its description, or any other error.
pub data Entry : Type 0 where
  absent : Entry
  taken : Text → Text → Text → Entry
  refused : Entry

-- A router: its table of UDP mappings by external port, and the ports at which it accepts a mapping.
pub record Router : Type 0 where
  pub entry : ℕ → Entry
  pub accepts : ℕ → Bool

-- The decimal digits of a number, as `%u` prints it.
unfoldable pub digits : ℕ → ℕ → Text → Text
digits zero n t = t
digits (suc fuel) n t =
    let rest = digits fuel (n / 10) ((48 + n % 10) ∷ t) in if ltb n 10 then (48 + n) ∷ t else rest

abbrev pub decimal : ℕ → Text
decimal n = digits 10 n []

abbrev pub candidate_port : ℕ → ℕ → ℕ
candidate_port port attempt = 20000 + u32 (port + (2 ^ 32 - 20000) + attempt) % 40000

-- An entry that the worker may write: none, or its own.
unfoldable pub may_write : Entry → Text → Text → Text → Bool
may_write absent local internal description = true
may_write (taken client assigned desc) local internal description =
    same_text client local && same_text assigned internal && same_text desc description
may_write refused local internal description = false

-- The loop over `attempts` candidates: the ports at which a mapping was asked for, in order, and the one
-- at which it was accepted. `cancelled` holds the answers at the head of the loop.
unfoldable pub try_ports : Router → Text → Text → ℕ → (ℕ → Bool) → ℕ → ℕ → List ℕ × Option ℕ
try_ports r local description port cancelled zero attempt = ([], none)
try_ports r local description port cancelled (suc left) attempt =
    let (asked, got) = try_ports r local description port cancelled left (suc attempt) in
    let candidate = candidate_port port attempt in
    if cancelled attempt
    then ([], none)
    else if not (may_write (r.entry candidate) local (decimal port) description)
    then (asked, got)
    else if r.accepts candidate
    then (candidate ∷ [], some candidate)
    else (candidate ∷ asked, got)

-- What miniupnpc does in one call of `MapUpnp` before the loop: the local address as a text, whether it
-- finds devices and one connected gateway, and the external address it reads, 0 where it reads none.
pub record Upnp : Type 0 where
  pub local : Option Text
  pub devices : Bool
  pub connected : Bool
  pub external : ℕ
  pub router : Router
  pub cancelled_before : Bool
  pub cancelled : ℕ → Bool

abbrev pub at_port : ℕ → Option ℕ → Option Endpoint
at_port address none = none
at_port address (some p) = some (record { address = address; port = u16 p })

unfoldable pub map_upnp : Upnp → Text → ℕ → List ℕ × Option Endpoint
map_upnp u description port = elim u.local [
  | none ↦ ([], none)
  | some local ↦
      let (asked, got) = try_ports u.router local description port u.cancelled 4 0 in
      if not u.devices
      then ([], none)
      else if not (u.connected && not u.cancelled_before)
      then ([], none)
      else if u.external == 0
      then ([], none)
      else (asked, at_port u.external got)
]

-- The attempt of the worker's loop, for the request `active`: an endpoint and its lease. The answer of
-- `ztnx_nat_cancelled` between the two methods is an argument.
unfoldable pub map_round : Pmp → Upnp → Text → Bool → ℕ → Option (Endpoint × ℕ)
map_round p u description cancelled active =
    let (by_pmp, lease) = map_pmp p (u16 active) 600 in
    elim by_pmp [
      | some e ↦ some (e, min lease 600)
      | none ↦ if cancelled then none else elim (map_upnp u description (u16 active)).1 [
        | none ↦ none
        | some e ↦ some (e, min lease 600)
      ]
    ]

-- ---- what the node thread and the worker share ----

-- `desired`: a generation in the upper 48 bits, and a port.
unfoldable pub configure_nat_mapper : ℕ → ℕ → ℕ
configure_nat_mapper desired port =
    if u16 desired != port then bit_or (u64 ((desired >>> 16 + 1) <<< 16)) port else desired

-- What `Publish` writes under its lock.
pub record Published : Type 0 where
  pub endpoint : Endpoint
  pub generation : ℕ
  pub expiry : ℕ

unfoldable pub get_nat_endpoint : Published → ℕ → ℕ → Endpoint
get_nat_endpoint p desired now =
    if p.generation != desired || leb p.expiry now then no_endpoint else p.endpoint
