-- ===== src/Bsd/Service/Sending.antt =====
-- source/mitm/bsd_shim.cpp: MirrorMMsgBuffer and SendMMsg, a vector of messages in one call.
pub mod Destination
pub mod Vector
use sys_grid.Base.{
  ℕ, zero, suc, ◌+◌, Bool, true, false, not, ◌||◌, Option, none, some, ◌==◌, ltb, if◌then◌else◌,
  length, drop,
}
use sys_grid.Net.{Bytes}
use sys_grid.Vnet.{VNet, Index}
use sys_grid.Bsd.Lan.{Shim, Peer, mirror_lan_broadcast, mirror_lan_datagram}
use sys_grid.Bsd.Lan.Sending.{resolve_mmsg_destination}
use sys_grid.Bsd.Message.{MMsgView, parse_mmsg, assemble_payload}
use sys_grid.Bsd.Service.{Answer, Outcome, answer, forward}

-- A message that parses and has a destination on the virtual network.
abbrev pub Message : Type 0
Message = (Peer × Bool) × MMsgView

abbrev with_view : Option (Peer × Bool) → MMsgView → Bytes → Option (Message × Bytes)
with_view none view rest = none
with_view (some to) view rest = some ((to, view), rest)

abbrev pub resolve_parsed : Shim → ℕ → Index → Option (MMsgView × Bytes) → Option (Message × Bytes)
resolve_parsed s pid fd none = none
resolve_parsed s pid fd (some (view, rest)) =
    with_view (resolve_mmsg_destination s pid fd view) view rest

unfoldable pub next_message : Shim → ℕ → Index → Bytes → Option (Message × Bytes)
next_message s pid fd cursor = resolve_parsed s pid fd (parse_mmsg cursor)

-- The first loop: every message is validated before the first one is sent.
unfoldable pub check_messages : ℕ → Shim → ℕ → Index → Bytes → Bool
check_messages zero s pid fd cursor = true
check_messages (suc left) s pid fd cursor = elim (next_message s pid fd cursor) [
  | none ↦ false
  | some (message, rest) ↦ check_messages left s pid fd rest
]

abbrev pub send_payload : VNet → Message → Option Bytes → VNet × Bool
send_payload v message none = (v, false)
send_payload v ((peer, broadcast), view) (some payload) =
    if broadcast
    then mirror_lan_broadcast v peer.vfd peer.port payload
    else mirror_lan_datagram v peer.vfd peer.ip peer.port payload

abbrev pub send_message : VNet → Message → VNet × Bool
send_message v message = send_payload v message (assemble_payload message.1)

-- The second loop, which stops at a message that is not sent.
unfoldable pub send_messages : ℕ → Shim → ℕ → Index → Bytes → ℕ → Shim × ℕ
send_messages zero s pid fd cursor sent = (s, sent)
send_messages (suc left) s pid fd cursor sent = elim (next_message s pid fd cursor) [
  | none ↦ (s, sent)
  | some (message, rest) ↦
      let (net, ok) = send_message s.net message in
      let later = send_messages left (record s { net = net }) pid fd rest (sent + 1) in
      if ok then later else (record s { net = net }, sent)
]

-- The number of messages that were sent, none when the call is left to the console's service.
abbrev pub counted : Shim × ℕ → Shim × Option ℕ
counted (s, sent) = (s, if sent == 0 then none else some sent)

unfoldable pub mirror_mmsg_buffer : Shim → ℕ → Index → ℕ → Bytes → Shim × Option ℕ
mirror_mmsg_buffer s pid fd vlen buffer =
    let messages = drop 1 buffer in
    if not s.has_port || vlen == 0 || ltb 64 vlen || length buffer == 0
    then (s, none)
    else if check_messages vlen s pid fd messages
    then counted (send_messages vlen s pid fd messages 0)
    else (s, none)

abbrev mmsg_outcome : Shim × Option ℕ → Option Answer → Outcome
mmsg_outcome (s, none) physical = forward s physical
mmsg_outcome (s, some sent) physical = answer s (record { ret = some sent; err = 0 })

unfoldable pub send_mmsg : Shim → ℕ → Index → ℕ → Bytes → Option Answer → Outcome
send_mmsg s pid fd vlen buffer physical =
    mmsg_outcome (mirror_mmsg_buffer s pid fd vlen buffer) physical
