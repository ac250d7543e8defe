-- ===== src/Vnet/Resolution.antt =====
-- The exchange of an ARP request and its reply between two consoles.
use sys_grid.Base.{
  ℕ, ◌/◌, ◌%◌, ◌^◌, ◌<◌, ◌≡◌, ◌≢◌, refl, sym, ◌∙◌, ap, arith, true, false, ◌||◌, [], ◌∷◌, ◌++◌,
  replicate, length, ltb, ◌==◌, ◌!=◌, if◌then◌else◌,
}
use sys_grid.Net.{
  Bytes, rd16, rd32, mac_to_bytes, mac_from_bytes, mac_broadcast, ether_type_arp, op_request,
  op_reply,
}
use sys_grid.Net.Order.{rd16_lem, rd32_lem, wr16_lem, wr32_lem, mac_from_bytes_lem}
use sys_grid.Vnet.{VNet, Frame}
use sys_grid.Vnet.Stats.{count_rx_arp}
use sys_grid.Vnet.Address.{is_broadcast, learn_mac, lookup_mac}
use sys_grid.Vnet.Address.Cache.{lookup_mac-learn_mac}
use sys_grid.Vnet.Transmit.{arp_packet, send_arp_request}
use sys_grid.Vnet.Protocols.{on_arp, arp_body, arp_reply}

abbrev word32 : ℕ → Bytes
word32 v = v / 16777216 ∷ v / 65536 % 256 ∷ v / 256 % 256 ∷ v % 256 ∷ []

module _ (op sender_mac sender_ip target target_ip : ℕ) (op_range : op < 65536)
    (mac_range : sender_mac < 2 ^ 48) (sender_range : sender_ip < 4294967296)
    (target_range : target_ip < 4294967296) where
  abbrev packet : Bytes
  packet = arp_packet op sender_mac sender_ip (mac_to_bytes target) target_ip

  abbrev laid : Bytes
  laid =
      0 ∷ 1 ∷ 8 ∷ 0 ∷ 6 ∷ 4 ∷ op / 256 ∷ op % 256 ∷ mac_to_bytes sender_mac
      ++ (word32 sender_ip ++ (mac_to_bytes target ++ word32 target_ip))

  packet_lem : packet ≡ laid
  unfolding arp_packet mac_to_bytes
  packet_lem =
      rw
        (
          wr16_lem 1 (omega arith),
          wr16_lem 0x0800 (omega arith),
          wr16_lem op op_range,
          wr32_lem sender_ip sender_range,
          wr32_lem target_ip target_range,
        )
        refl

  laid_op : rd16 laid 6 ≡ op
  unfolding mac_to_bytes
  laid_op = omega (arith, rd16_lem laid 6 (omega (arith, op_range)) (omega arith))

  laid_mac : mac_from_bytes laid 8 ≡ sender_mac
  unfolding mac_to_bytes
  laid_mac = omega (
    arith,
    mac_range,
    mac_from_bytes_lem laid 8 (omega arith) (omega arith) (omega arith) (omega arith) (omega arith),
  )

  laid_sender : rd32 laid 14 ≡ sender_ip
  unfolding mac_to_bytes
  laid_sender = omega (
    arith,
    rd32_lem laid 14 (omega (arith, sender_range)) (omega arith) (omega arith) (omega arith),
  )

  laid_target : rd32 laid 24 ≡ target_ip
  unfolding mac_to_bytes
  laid_target = omega (
    arith,
    rd32_lem laid 24 (omega (arith, target_range)) (omega arith) (omega arith) (omega arith),
  )

  laid_kind : (rd16 laid 0 ≡ 1) × (rd16 laid 2 ≡ 0x0800)
  laid_kind = (
    omega (arith, rd16_lem laid 0 (omega arith) (omega arith)),
    omega (arith, rd16_lem laid 2 (omega arith) (omega arith)),
  )

  laid-length : length laid ≡ 28
  unfolding mac_to_bytes
  laid-length = refl

  -- What a console does with such a packet.
  pub on_arp-packet :
      (v : VNet) (src_mac : ℕ)
      → sender_mac ≢ 0
      → let learnt = learn_mac (count_rx_arp v) sender_ip sender_mac in
        on_arp v src_mac packet ≡ (
          if op != op_request || target_ip != learnt.ip
          then learnt
          else arp_reply learnt sender_mac sender_ip)
  unfolding on_arp arp_body
  on_arp-packet v src_mac given =
      let short : ltb (length laid) 28 ≡ false = ground (arith, laid-length) in
      let kind : (rd16 laid 0 != 1 || rd16 laid 2 != 0x0800) ≡ false = ground (arith, laid_kind) in
      let known : (sender_mac == 0) ≡ false = ground arith in
      rw (packet_lem, short, kind, laid_mac, laid_sender, laid_target, laid_op, known) refl

-- A console with an address that is not a broadcast address, and that can send.
pub record Speaks (v : VNet) : Type 0 where
  pub connected : v.has_emit ≡ true
  pub mac_given : v.mac ≢ 0
  pub mac_range : v.mac < 2 ^ 48
  pub unicast : v.mac ≢ mac_broadcast
  pub ip_given : v.ip ≢ 0
  pub ip_range : v.ip < 4294967296

abbrev pub request_of : VNet → ℕ → Bytes
request_of a ip = arp_packet op_request a.mac a.ip (replicate 6 0) ip

abbrev pub reply_of : VNet → VNet → Frame
reply_of b a = record {
  dst_mac = a.mac;
  ether_type = ether_type_arp;
  payload = arp_packet op_reply b.mac b.ip (mac_to_bytes a.mac) a.ip;
}

learn_mac-frame :
    (v : VNet) (ip mac : ℕ)
    → let w = learn_mac v ip mac in
      (w.emitted ≡ v.emitted) × (w.has_emit ≡ v.has_emit) × (w.ip ≡ v.ip) × (w.mac ≡ v.mac)
unfolding learn_mac
learn_mac-frame v ip mac = ground arith

send_arp_request-emits :
    (a : VNet) (ip : ℕ)
    → a.has_emit ≡ true
    → (send_arp_request a ip).emitted
      ≡ a.emitted
        ++ record {
          dst_mac = mac_broadcast;
          ether_type = ether_type_arp;
          payload = request_of a ip;
        }
          ∷ []
unfolding send_arp_request
send_arp_request-emits a ip h = rw h refl

arp_reply-emits :
    (w : VNet) (mac ip : ℕ)
    → w.has_emit ≡ true
    → (arp_reply w mac ip).emitted
      ≡ w.emitted
        ++ record {
          dst_mac = mac;
          ether_type = ether_type_arp;
          payload = arp_packet op_reply w.mac w.ip (mac_to_bytes mac) ip;
        }
          ∷ []
unfolding arp_reply
arp_reply-emits w mac ip h = rw h refl

request-answered :
    (a b : VNet)
    → Speaks a
    → Speaks b
    → (on_arp b a.mac (request_of a b.ip)).emitted ≡ b.emitted ++ reply_of b a ∷ []
request-answered a b p q =
    let learnt = learn_mac (count_rx_arp b) a.ip a.mac in
    let (sent, linked, same_ip, same_mac) = learn_mac-frame (count_rx_arp b) a.ip a.mac in
    let asked : (b.ip != learnt.ip) ≡ false = ground arith in
    let zeros : mac_to_bytes 0 ≡ replicate 6 0 = unfold mac_to_bytes in refl in
    ap (λ (t : Bytes). (on_arp b a.mac (arp_packet op_request a.mac a.ip t b.ip)).emitted)
      (sym zeros)
    ∙ ap (λ (w : VNet). w.emitted)
        (on_arp-packet op_request a.mac a.ip 0 b.ip (omega arith) p.mac_range p.ip_range q.ip_range
          b a.mac p.mac_given)
    ∙ rw (asked, arp_reply-emits learnt a.mac a.ip (linked ∙ q.connected), sent, same_mac, same_ip)
        refl

reply-learnt :
    (a b : VNet)
    → Speaks a
    → Speaks b
    → is_broadcast a b.ip ≡ false
    → lookup_mac (on_arp a b.mac (reply_of b a).payload) b.ip ≡ b.mac
reply-learnt a b p q directed =
    ap (λ (w : VNet). lookup_mac w b.ip)
      (on_arp-packet op_reply b.mac b.ip a.mac a.ip (omega arith) q.mac_range q.ip_range p.ip_range
        a b.mac q.mac_given)
    ∙ lookup_mac-learn_mac (count_rx_arp a) b.ip b.mac q.ip_given q.mac_given q.unicast
        (unfold is_broadcast in directed)

-- Take two consoles a and b, each connected, with a unicast hardware address
-- other than 0 and of 48 bits and with a 32-bit address other than 0, where the
-- address of b is not a broadcast address for a. The request a sends for the
-- address of b is one broadcast frame; b, when it handles the packet of that
-- frame, sends exactly one frame, its reply to a; and a, when it handles the
-- packet of that reply, finds the hardware address of b for the address of b.
pub send_arp_request-resolves :
    (a b : VNet)
    → Speaks a
    → Speaks b
    → is_broadcast a b.ip ≡ false
    → ((send_arp_request a b.ip).emitted
        ≡ a.emitted
          ++ record {
            dst_mac = mac_broadcast;
            ether_type = ether_type_arp;
            payload = request_of a b.ip;
          }
            ∷ [])
      × ((on_arp b a.mac (request_of a b.ip)).emitted ≡ b.emitted ++ reply_of b a ∷ [])
      × (lookup_mac (on_arp a b.mac (reply_of b a).payload) b.ip ≡ b.mac)
send_arp_request-resolves a b p q directed = (
  send_arp_request-emits a b.ip p.connected,
  request-answered a b p q,
  reply-learnt a b p q directed,
)
