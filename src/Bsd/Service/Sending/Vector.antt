-- ===== src/Bsd/Service/Sending/Vector.antt =====
-- What MirrorMMsgBuffer does with a vector: all of its messages are read first, and then sent in order.
use sys_grid.Base.{
  ℕ, zero, suc, ◌+◌, ◌≡◌, ◌≢◌, ◌≤◌, refl, ◌∙◌, ap, sym, arith, true, false, not, Option, none, some,
  is_some, if◌then◌else◌, Bool-cases, inl, inr, List, [], ◌∷◌, length, Option-cases, ltb, ◌==◌,
  ◌||◌, drop,
}
use sys_grid.Net.{Bytes}
use sys_grid.Vnet.{VNet, Index}
use sys_grid.Bsd.Lan.{Shim}
use sys_grid.Bsd.Service.Sending.{
  Message, next_message, check_messages, send_message, send_messages, counted, mirror_mmsg_buffer,
}
use sys_grid.Bsd.Service.Sending.Destination.{
  SameAddress, with_interface, send_message-SameAddress, next_message-SameAddress,
}

-- The messages of a vector, in order: none when one of them does not parse, or has no destination on
-- the virtual network.
abbrev pub cons_message : Message → Option (List Message) → Option (List Message)
cons_message message none = none
cons_message message (some messages) = some (message ∷ messages)

abbrev pub decode : ℕ → Shim → ℕ → Index → Bytes → Option (List Message)
decode zero s pid fd cursor = some []
decode (suc left) s pid fd cursor = elim (next_message s pid fd cursor) [
  | none ↦ none
  | some (message, rest) ↦ cons_message message (decode left s pid fd rest)
]

-- Sending a list of messages in order, up to the first that is not sent.
abbrev pub send_list : VNet → List Message → ℕ → VNet × ℕ
send_list v [] sent = (v, sent)
send_list v (message ∷ messages) sent =
    let (net, ok) = send_message v message in
    let later = send_list net messages (sent + 1) in if ok then later else (net, sent)

decode-SameAddress :
    (left : ℕ) (s : Shim) (w : VNet) (pid : ℕ) (fd : Index) (cursor : Bytes)
    → SameAddress s.net w
    → decode left (with_interface s w) pid fd cursor ≡ decode left s pid fd cursor
decode-SameAddress zero s w pid fd cursor h = refl
decode-SameAddress (suc left) s w pid fd cursor h =
    let same = next_message-SameAddress s w pid fd cursor h in
    elim (Option-cases (next_message s pid fd cursor)) [
      | inl stop ↦ rw (same ∙ stop, stop, decode) refl
      | inr ((message, rest), go) ↦
          rw (same ∙ go, go, decode)
            (ap (cons_message message) (decode-SameAddress left s w pid fd rest h))
    ]

is_some-cons_message :
    (message : Message) (o : Option (List Message)) → is_some (cons_message message o) ≡ is_some o
is_some-cons_message message none = refl
is_some-cons_message message (some messages) = refl

check_messages-decode :
    (left : ℕ) (s : Shim) (pid : ℕ) (fd : Index) (cursor : Bytes)
    → check_messages left s pid fd cursor ≡ is_some (decode left s pid fd cursor)
unfolding check_messages
check_messages-decode zero s pid fd cursor = refl
check_messages-decode (suc left) s pid fd cursor =
    elim (Option-cases (next_message s pid fd cursor)) [
      | inl stop ↦ rw (stop, decode, check_messages) refl
      | inr ((message, rest), go) ↦
          rw (go, decode, check_messages)
            (check_messages-decode left s pid fd rest
              ∙ sym (is_some-cons_message message (decode left s pid fd rest)))
    ]

none-some : (messages : List Message) → Option.none ≡ some messages → ⊥
none-some messages e = ground arith

cons_message-some :
    (message : Message) (o : Option (List Message)) (messages : List Message)
    → cons_message message o ≡ some messages
    → (rest : List Message) × (o ≡ some rest) × (messages ≡ message ∷ rest)
cons_message-some message none messages e = absurd (ground arith)
cons_message-some message (some rest) messages e = (rest, refl, ground arith)

abbrev listed : Shim → VNet × ℕ → Shim × ℕ
listed s (net, sent) = (with_interface s net, sent)

with_message :
    (s : Shim) (message : Message) (later : List Message) (sent : ℕ) (rest : Shim × ℕ)
    → rest ≡ listed s (send_list (send_message s.net message).0 later (sent + 1))
    → (if (send_message s.net message).1
        then rest
        else (with_interface s (send_message s.net message).0, sent))
      ≡ listed s (send_list s.net (message ∷ later) sent)
with_message s message later sent rest e = elim (Bool-cases (send_message s.net message).1) [
  | inl ok ↦ rw ok e
  | inr refused ↦ rw refused refl
]

send_messages-send_list :
    (left : ℕ) (s : Shim) (pid : ℕ) (fd : Index) (cursor : Bytes) (sent : ℕ)
    (messages : List Message)
    → decode left s pid fd cursor ≡ some messages
    → send_messages left s pid fd cursor sent ≡ listed s (send_list s.net messages sent)
unfolding send_messages
send_messages-send_list zero s pid fd cursor sent messages h =
    let empty : messages ≡ [] = ground arith in rw empty refl
send_messages-send_list (suc left) s pid fd cursor sent messages h =
    elim (Option-cases (next_message s pid fd cursor)) [
      | inl stop ↦ absurd (none-some messages (rw (stop, decode) at h))
      | inr ((message, rest), go) ↦
          let (later, d, e) =
            cons_message-some message (decode left s pid fd rest) messages (rw (go, decode) at h) in
          rw (e, go, send_messages)
            (with_message s message later sent _ (
              send_messages-send_list left (with_interface s (send_message s.net message).0) pid fd
                rest (sent + 1) later
                (decode-SameAddress left s (send_message s.net message).0 pid fd rest
                    (send_message-SameAddress s.net message)
                  ∙ d)))
    ]

send_list-le :
    (v : VNet) (messages : List Message) (sent : ℕ)
    → (send_list v messages sent).1 ≤ sent + length messages
send_list-le v [] sent = omega arith
send_list-le v (message ∷ messages) sent =
    let later = send_list-le (send_message v message).0 messages (sent + 1) in
    elim (Bool-cases (send_message v message).1) [
      | inl ok ↦ rw ok (omega arith)
      | inr refused ↦ rw refused (omega arith)
    ]

decode-length :
    (left : ℕ) (s : Shim) (pid : ℕ) (fd : Index) (cursor : Bytes) (messages : List Message)
    → decode left s pid fd cursor ≡ some messages
    → length messages ≡ left
decode-length zero s pid fd cursor messages h =
    let empty : messages ≡ [] = ground arith in rw empty refl
decode-length (suc left) s pid fd cursor messages h =
    elim (Option-cases (next_message s pid fd cursor)) [
      | inl stop ↦ absurd (none-some messages (rw (stop, decode) at h))
      | inr ((message, rest), go) ↦
          let (later, d, e) =
            cons_message-some message (decode left s pid fd rest) messages (rw (go, decode) at h) in
          rw e (ap suc (decode-length left s pid fd rest later d))
    ]

abbrev pub send_decoded : Shim → Option (List Message) → Shim × Option ℕ
send_decoded s none = (s, none)
send_decoded s (some messages) =
    let (net, sent) = send_list s.net messages 0 in
    (record s { net = net }, if sent == 0 then none else some sent)

abbrev pub sent_of : Option ℕ → ℕ
sent_of none = 0
sent_of (some sent) = sent

send_decoded-le :
    (s : Shim) (vlen : ℕ) (o : Option (List Message))
    → ((messages : List Message) → o ≡ some messages → length messages ≡ vlen)
    → sent_of (send_decoded s o).1 ≤ vlen
send_decoded-le s vlen none h = omega arith
send_decoded-le s vlen (some messages) h =
    let bound = send_list-le s.net messages 0 in
    let size = h messages refl in
    elim (Bool-cases ((send_list s.net messages 0).1 == 0)) [
      | inl idle ↦ rw idle (omega arith)
      | inr busy ↦ rw busy (omega arith)
    ]

checked-send_decoded :
    (s : Shim) (pid : ℕ) (fd : Index) (vlen : ℕ) (cursor : Bytes) (o : Option (List Message))
    → decode vlen s pid fd cursor ≡ o
    → (if is_some o then counted (send_messages vlen s pid fd cursor 0) else (s, none))
      ≡ send_decoded s o
checked-send_decoded s pid fd vlen cursor none e = refl
checked-send_decoded s pid fd vlen cursor (some messages) e =
    rw (send_messages-send_list vlen s pid fd cursor 0 messages e) refl

-- A vector of 1 to 64 messages, when the virtual network is there. If one of the messages does not
-- parse or has no destination on the virtual network, nothing at all is sent. Otherwise the messages
-- are sent one after the other, up to the first that the virtual network does not take, and the number
-- of those that were sent, at most that of the vector, is returned; a vector of which none was sent is
-- left to the console's service.
pub mirror_mmsg_buffer-Vector :
    (s : Shim) (pid : ℕ) (fd : Index) (vlen : ℕ) (buffer : Bytes)
    → s.has_port ≡ true
    → vlen ≢ 0
    → vlen ≤ 64
    → length buffer ≢ 0
    → let o = mirror_mmsg_buffer s pid fd vlen buffer in
      (o ≡ send_decoded s (decode vlen s pid fd (drop 1 buffer))) × (sent_of o.1 ≤ vlen)
unfolding mirror_mmsg_buffer
mirror_mmsg_buffer-Vector s pid fd vlen buffer port many few given =
    let guard : (not s.has_port || vlen == 0 || ltb 64 vlen || length buffer == 0) ≡ false =
      ground arith in
    rw
      (
        guard,
        check_messages-decode vlen s pid fd (drop 1 buffer),
        checked-send_decoded s pid fd vlen (drop 1 buffer) _ refl,
      )
      (
        refl,
        send_decoded-le s vlen (decode vlen s pid fd (drop 1 buffer))
            (decode-length vlen s pid fd (drop 1 buffer)),
      )
