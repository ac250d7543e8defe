-- ===== src/Vnet/Transmit/Header.antt =====
-- The packets that are sent are packets that are accepted: what a receiver reads in them.
use sys_grid.Base.{
  ℕ, ◌+◌, ◌-◌, ◌*◌, ◌/◌, ◌%◌, ◌<◌, ◌≤◌, ◌≡◌, refl, arith, Bool, true, false, [], ◌∷◌, ◌++◌, bit_and,
  bit_or-sum, bit_and_0f, bit_and_1fff, bit_and_2000, u16, length, take, take_all, drop,
  if◌then◌else◌, ◌!=◌,
}
use sys_grid.Net.{Bytes, byte_at, rd16, rd32, wr16, checksum16}
use sys_grid.Net.Order.{rd16_lem, rd32_lem, wr16_lem, wr32_lem}
use sys_grid.Net.Checksum.{IsBytes, checksum16_seals, checksum16-lt}
use sys_grid.Vnet.Receive.{Fragment, header_length, fragment_of, total_length}
use sys_grid.Vnet.Transmit.{ip_header, ip_packet, frag_flags}

-- The values that a header is built from are in range.
pub record IsHeader (src_ip dst_ip proto id blocks : ℕ) (payload : Bytes) : Type 0 where
  pub src_range : src_ip < 4294967296
  pub dst_range : dst_ip < 4294967296
  pub proto_range : proto < 256
  pub id_range : id < 65536
  pub blocks_range : blocks < 8192
  pub fits : 20 + length payload ≤ 1520
  pub bytes : IsBytes payload

frag_flags_lem :
    (more : Bool) (blocks : ℕ)
    → blocks < 8192
    → frag_flags more blocks ≡ (if more then 8192 else 0) + blocks
frag_flags_lem true blocks h = omega (arith, bit_or-sum 13 1 8192 blocks refl h)
frag_flags_lem false blocks h = omega (arith, bit_or-sum 13 0 0 blocks refl h)

-- The header up to its checksum, and behind it.
abbrev front : ℕ → ℕ → ℕ → ℕ → Bytes
front total id flags proto =
    0x45
    ∷ 0
    ∷ total / 256
    ∷ total % 256
    ∷ id / 256
    ∷ id % 256
    ∷ flags / 256
    ∷ flags % 256
    ∷ 64
    ∷ proto
    ∷ []

abbrev word32 : ℕ → Bytes
word32 v = v / 16777216 ∷ v / 65536 % 256 ∷ v / 256 % 256 ∷ v % 256 ∷ []

abbrev back : ℕ → ℕ → Bytes
back src_ip dst_ip = word32 src_ip ++ word32 dst_ip

module _ (src_ip dst_ip proto id blocks : ℕ) (more : Bool) (payload : Bytes)
    (h : IsHeader src_ip dst_ip proto id blocks payload) where
  abbrev total : ℕ
  total = 20 + length payload

  abbrev flags : ℕ
  flags = (if more then 8192 else 0) + blocks

  flags_range : flags < 65536
  flags_range = ground arith

  front-IsBytes : IsBytes (front total id flags proto)
  front-IsBytes = ground (arith, flags_range)

  back-IsBytes : IsBytes (back src_ip dst_ip)
  back-IsBytes = omega arith

  ip_header_lem :
      (c : ℕ)
      → c < 65536
      → ip_header total id flags proto src_ip dst_ip (wr16 c)
        ≡ front total id flags proto ++ c / 256 ∷ c % 256 ∷ back src_ip dst_ip
  unfolding ip_header
  ip_header_lem c k = rw (
    wr16_lem total (omega arith),
    wr16_lem id h.id_range,
    wr16_lem flags flags_range,
    wr16_lem c k,
    wr32_lem src_ip h.src_range,
    wr32_lem dst_ip h.dst_range,
  )

  abbrev csum : ℕ
  csum = checksum16 (front total id flags proto ++ 0 ∷ 0 ∷ back src_ip dst_ip) 0

  csum_range : csum < 65536
  csum_range = checksum16-lt _ 0

  -- The packet, byte by byte.
  pub ip_packet_lem :
      ip_packet src_ip dst_ip proto id blocks more payload
      ≡ (front total id flags proto ++ csum / 256 ∷ csum % 256 ∷ back src_ip dst_ip) ++ payload
  unfolding ip_packet
  ip_packet_lem =
      let size : u16 (20 + length payload) ≡ total = omega (arith, h.fits) in
      let flag = frag_flags_lem more blocks h.blocks_range in
      rw (size, flag, ip_header_lem 0 (omega arith)) (rw (ip_header_lem csum csum_range))

  -- What a receiver computes from these bytes.
  abbrev sent : Bytes
  sent = (front total id flags proto ++ csum / 256 ∷ csum % 256 ∷ back src_ip dst_ip) ++ payload

  sent-header_length : header_length sent ≡ 20
  sent-header_length = omega (arith, bit_and_0f 69)

  sent-total : rd16 sent 2 ≡ total
  sent-total = omega (arith, rd16_lem sent 2 (omega (arith, h.fits)) (omega arith), h.fits)

  sent-total_length : total_length sent ≡ total
  sent-total_length = ground (arith, sent-total)

  sent-id : rd16 sent 4 ≡ id
  sent-id = omega (arith, rd16_lem sent 4 (omega (arith, h.id_range)) (omega arith))

  sent-flags : rd16 sent 6 ≡ flags
  sent-flags = omega (arith, rd16_lem sent 6 (omega (arith, flags_range)) (omega arith))

  sent-src_ip : rd32 sent 12 ≡ src_ip
  sent-src_ip = omega (
    arith,
    rd32_lem sent 12 (omega (arith, h.src_range)) (omega arith) (omega arith) (omega arith),
  )

  sent-dst_ip : rd32 sent 16 ≡ dst_ip
  sent-dst_ip = omega (
    arith,
    rd32_lem sent 16 (omega (arith, h.dst_range)) (omega arith) (omega arith) (omega arith),
  )

  -- The offset is the low 13 bits.
  masked : (m : Bool) → u16 (bit_and ((if m then 8192 else 0) + blocks) 0x1fff * 8) ≡ blocks * 8
  masked true = omega (arith, bit_and_1fff (8192 + blocks), h.blocks_range)
  masked false = omega (arith, bit_and_1fff (0 + blocks), h.blocks_range)

  sent-offset : u16 (bit_and flags 0x1fff * 8) ≡ blocks * 8
  sent-offset = masked more

  -- The flag is bit 13, above the offset.
  flag_bit : (m : Bool) → (bit_and ((if m then 8192 else 0) + blocks) 0x2000 != 0) ≡ m
  flag_bit true = ground (arith, bit_and_2000 (8192 + blocks), h.blocks_range)
  flag_bit false = ground (arith, bit_and_2000 (0 + blocks), h.blocks_range)

  sent-more : (bit_and flags 0x2000 != 0) ≡ more
  sent-more = flag_bit more

  sent-payload : take (total - 20) (drop 20 sent) ≡ payload
  sent-payload = take_all (total - 20) payload (omega arith)

  sent-sealed : checksum16 (take 20 sent) 0 ≡ 0
  sent-sealed =
      checksum16_seals (front total id flags proto) (back src_ip dst_ip) 0 front-IsBytes
        back-IsBytes refl (omega arith)

  abbrev packet : Bytes
  packet = ip_packet src_ip dst_ip proto id blocks more payload

  abbrev content : Fragment
  content = record {
    src_ip = src_ip;
    dst_ip = dst_ip;
    proto = proto;
    id = id;
    offset = blocks * 8;
    more = more;
    payload = payload;
  }

  sent-fragment : fragment_of sent ≡ content
  sent-fragment =
      rw
        (
          sent-total_length, sent-header_length, sent-flags, sent-id, sent-src_ip, sent-dst_ip,
          sent-offset, sent-more, sent-payload,
        )
        refl

  -- A receiver reads the header that was meant: its length, a checksum that verifies, the total
  -- length, and the fragment with its addresses, protocol, place and payload.
  pub ip_packet_reads :
      (length packet ≡ total)
      × (header_length packet ≡ 20)
      × (byte_at packet 0 / 16 ≡ 4)
      × (checksum16 (take 20 packet) 0 ≡ 0)
      × (rd16 packet 2 ≡ total)
      × (fragment_of packet ≡ content)
  ip_packet_reads =
      rw ip_packet_lem
        (omega arith, sent-header_length, refl, sent-sealed, sent-total, sent-fragment)
