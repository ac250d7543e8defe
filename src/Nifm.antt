-- ===== src/Nifm.antt =====
-- source/mitm/nifm_shim.cpp: the requests of nifm:u, and the address that it reports. The console's own
-- service gives its answer as an argument, which is none when the call of it fails; the state of class
-- Port at the time of a call is a record.
pub mod Titles
pub mod Held
use sys_grid.Base.{
  ℕ, Bool, true, false, not, ◌&&◌, ◌||◌, Option, none, some, ◌==◌, if◌then◌else◌, List, [], ◌∷◌,
  leb, u8, ◌>>>◌,
}
use sys_grid.Net.{Bytes}
use sys_grid.Nifm.Titles.{is_lan_title, uses_ryujinx_nifm_request_model}

-- What a call sees of class Port: whether there is one, whether the virtual network has an address, and
-- whether the wire is reachable.
pub record Surroundings : Type 0 where
  pub has_port : Bool
  pub configured : Bool
  pub wire_reachable : Bool
  pub ip : ℕ
  pub netmask : ℕ

-- ---- the address ----

abbrev pub put_ip : ℕ → Bytes
put_ip ip = u8 (ip >>> 24) ∷ u8 (ip >>> 16) ∷ u8 (ip >>> 8) ∷ u8 ip ∷ []

pub record IpAddressSetting : Type 0 where
  pub automatic : ℕ
  pub current : Bytes
  pub mask : Bytes
  pub gateway : Bytes

unfoldable pub rewrite_ip_config : Surroundings → IpAddressSetting → IpAddressSetting
rewrite_ip_config e value =
    if e.has_port && e.configured
    then record {
      automatic = 1;
      current = put_ip e.ip;
      mask = put_ip e.netmask;
      gateway = put_ip 0;
    }
    else value

abbrev current_address : Surroundings → Bytes → Bytes
current_address e value = if e.has_port && e.configured then put_ip e.ip else value

unfoldable pub get_current_ip_address : Surroundings → Option Bytes → Option Bytes
get_current_ip_address e none = none
get_current_ip_address e (some value) = some (current_address e value)

unfoldable pub get_current_ip_config_info :
    Surroundings → Option IpAddressSetting → Option IpAddressSetting
get_current_ip_config_info e none = none
get_current_ip_config_info e (some value) = some (rewrite_ip_config e value)

-- ---- a request ----

pub record Request : Type 0 where
  pub program_id : ℕ
  pub readiness_barrier_complete : Bool
  pub connection_confirmation_option : ℕ
  pub shoal_wait_complete : Bool

-- A request as CreateRequest makes it.
abbrev pub new_request : ℕ → Request
new_request program_id = record {
  program_id = program_id;
  readiness_barrier_complete = false;
  connection_confirmation_option = 0;
  shoal_wait_complete = false;
}

abbrev pub lan_transport_ready : Surroundings → Bool
lan_transport_ready e = e.wire_reachable && e.configured

unfoldable pub ryujinx_internet_enabled : Surroundings → ℕ → Bool → Bool
ryujinx_internet_enabled e program_id lan_requested =
    uses_ryujinx_nifm_request_model program_id && lan_requested && e.has_port && e.configured

-- `WaitForLanTransportReady`, for a time limit above zero: after each sleep, what it sees and the
-- milliseconds that have passed.
unfoldable pub wait_rounds : List (Surroundings × ℕ) → ℕ → Bool
wait_rounds [] limit = false
wait_rounds ((e, passed) ∷ rest) limit =
    let later = wait_rounds rest limit in
    if lan_transport_ready e then true else if leb limit passed then false else later

abbrev available : ℕ
available = 3

abbrev failed : ℕ
failed = 1

-- The state that is reported, none when the call of the console's service fails, and whether the reply
-- was held back until the wire was ready or the time limit had passed.
abbrev pub Reported : Type 0
Reported = Option ℕ × Bool

abbrev pub synthetic_state : Request → Surroundings → Request × Reported
synthetic_state r e =
    let lan_requested = r.connection_confirmation_option == 1 in
    let enabled = ryujinx_internet_enabled e r.program_id lan_requested in
    let first = lan_requested && not r.shoal_wait_complete && e.has_port in
    (
      if first then record r { shoal_wait_complete = true } else r,
      (some (if enabled then available else failed), false),
    )

abbrev pub real_state : Request → Surroundings → Option ℕ → Request × Reported
real_state r e none = (r, (none, false))
real_state r e (some state) =
    let barrier =
      state == available
      && not r.readiness_barrier_complete
      && is_lan_title r.program_id
      && e.has_port in
    if barrier
    then (record r { readiness_barrier_complete = true }, (some state, not (lan_transport_ready e)))
    else (r, (some state, false))

unfoldable pub get_request_state : Request → Surroundings → Option ℕ → Request × Reported
get_request_state r e physical =
    if uses_ryujinx_nifm_request_model r.program_id
    then synthetic_state r e
    else real_state r e physical

-- Submit and Cancel, which both make a fresh request of it. The answer is `true` for success.
abbrev pub renewed : Request → Request
renewed r = record r { readiness_barrier_complete = false; shoal_wait_complete = false }

unfoldable pub submit : Request → Bool → Request × Bool
submit r physical =
    (renewed r, if uses_ryujinx_nifm_request_model r.program_id then true else physical)

unfoldable pub cancel : Request → Bool → Request × Bool
cancel r physical =
    (renewed r, if uses_ryujinx_nifm_request_model r.program_id then true else physical)

abbrev pub confirmed : Request → ℕ → Request
confirmed r option =
    let chosen = record r { connection_confirmation_option = option } in
    if option == 1 then record chosen { shoal_wait_complete = false } else chosen

unfoldable pub set_connection_confirmation_option : Request → ℕ → Bool → Request × Bool
set_connection_confirmation_option r option physical =
    if uses_ryujinx_nifm_request_model r.program_id
    then (confirmed r option, true)
    else (r, physical)

unfoldable pub get_result : Request → Bool → Bool
get_result r physical = if uses_ryujinx_nifm_request_model r.program_id then true else physical
