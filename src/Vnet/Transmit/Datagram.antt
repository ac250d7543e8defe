-- ===== src/Vnet/Transmit/Datagram.antt =====
-- The UDP datagrams that `udpSendTo` builds are datagrams that `onUdp` takes.
use sys_grid.Base.{
  ℕ, ◌+◌, ◌-◌, ◌/◌, ◌%◌, ◌<◌, ◌≤◌, ◌≡◌, refl, arith, true, [], ◌∷◌, ◌++◌, u16, bit_and_ffff, length,
  take, take_all, if◌then◌else◌, ◌==◌,
}
use sys_grid.Net.{Bytes, rd16, wr16, checksum16, fold_carries}
use sys_grid.Net.Order.{rd16_lem, wr16_lem}
use sys_grid.Net.Checksum.{
  IsBytes, word_sum, word_sum-le, IsBytes-append, checksum16_lem, checksum16-zero, checksum16-lt,
  fold_ends,
}
use sys_grid.Vnet.Protocols.{udp_length}
use sys_grid.Vnet.Receive.Demux.{udp_intact, udp_content}
use sys_grid.Vnet.Sockets.Push.{datagram}
use sys_grid.Vnet.Transmit.{udp_packet, pseudo_sum}

pub record IsDatagram (src_ip dst_ip src_port dst_port : ℕ) (content : Bytes) : Type 0 where
  pub src_range : src_ip < 4294967296
  pub dst_range : dst_ip < 4294967296
  pub src_port_range : src_port < 65536
  pub dst_port_range : dst_port < 65536
  pub fits : length content ≤ 2048
  pub bytes : IsBytes content

module _ (src_ip dst_ip src_port dst_port : ℕ) (content : Bytes)
    (h : IsDatagram src_ip dst_ip src_port dst_port content) where
  abbrev size : ℕ
  size = 8 + length content

  abbrev ports : Bytes
  ports =
      src_port / 256
      ∷ src_port % 256
      ∷ dst_port / 256
      ∷ dst_port % 256
      ∷ size / 256
      ∷ size % 256
      ∷ []

  abbrev initial : ℕ
  initial = pseudo_sum src_ip dst_ip size

  initial_range : (17 ≤ initial) × (initial ≤ 300000)
  initial_range =
      omega (arith, bit_and_ffff src_ip, bit_and_ffff dst_ip, h.src_range, h.dst_range, h.fits)

  abbrev with_csum : ℕ → Bytes
  with_csum c =
      src_port / 256
      ∷ src_port % 256
      ∷ dst_port / 256
      ∷ dst_port % 256
      ∷ size / 256
      ∷ size % 256
      ∷ c / 256
      ∷ c % 256
      ∷ content

  head_lem :
      (c : ℕ)
      → c < 65536
      → wr16 src_port ++ wr16 dst_port ++ wr16 (u16 size) ++ wr16 c ++ content ≡ with_csum c
  head_lem c k =
      let small : u16 size ≡ size = omega (arith, h.fits) in
      rw
        (
          small,
          wr16_lem src_port h.src_port_range,
          wr16_lem dst_port h.dst_port_range,
          wr16_lem size (omega (arith, h.fits)),
          wr16_lem c k,
        )
        refl

  with_csum-IsBytes : (c : ℕ) → c < 65536 → IsBytes (with_csum c)
  with_csum-IsBytes c k =
      let s = h.src_port_range in
      let d = h.dst_port_range in
      let n = h.fits in IsBytes-append (take 8 (with_csum c)) content (omega arith) h.bytes

  abbrev base : ℕ
  base = initial + word_sum (with_csum 0)

  abbrev raw : ℕ
  raw = checksum16 (with_csum 0) initial

  abbrev csum : ℕ
  csum = if raw == 0 then 0xffff else raw

  base_range : base < 4000000000
  base_range =
      omega (
        arith,
        initial_range,
        h.fits,
        word_sum-le (with_csum 0) (with_csum-IsBytes 0 (omega arith)),
      )

  csum_range : (0 < csum) × (csum < 65536)
  csum_range = ground (arith, checksum16-lt (with_csum 0) initial)

  sealed : checksum16 (with_csum csum) initial ≡ 0
  sealed =
      let value : raw ≡ 65535 - fold_carries 3 base =
        checksum16_lem (with_csum 0) initial (with_csum-IsBytes 0 (omega arith))
          (omega (arith, base_range)) in
      let low = (fold_ends base (omega (arith, base_range))).0 in
      checksum16-zero (with_csum csum) initial base csum (with_csum-IsBytes csum csum_range.1)
        (omega (arith, csum_range)) (omega (arith, base_range, csum_range))
        (ground (arith, value, low)) (λ z w. omega (arith, csum_range))

  abbrev packet : Bytes
  packet = udp_packet src_ip dst_ip src_port dst_port content

  udp_packet_lem : packet ≡ with_csum csum
  unfolding udp_packet
  udp_packet_lem = rw (head_lem 0 (omega arith)) (head_lem csum csum_range.1)

  sent-src_port : rd16 (with_csum csum) 0 ≡ src_port
  sent-src_port =
      omega (arith, rd16_lem (with_csum csum) 0 (omega (arith, h.src_port_range)) (omega arith))

  sent-dst_port : rd16 (with_csum csum) 2 ≡ dst_port
  sent-dst_port =
      omega (arith, rd16_lem (with_csum csum) 2 (omega (arith, h.dst_port_range)) (omega arith))

  sent-size : rd16 (with_csum csum) 4 ≡ size
  sent-size = omega (arith, rd16_lem (with_csum csum) 4 (omega (arith, h.fits)) (omega arith))

  sent-csum : rd16 (with_csum csum) 6 ≡ csum
  sent-csum = omega (arith, rd16_lem (with_csum csum) 6 (omega (arith, csum_range)) (omega arith))

  sent-length : udp_length (with_csum csum) ≡ size
  sent-length = ground (arith, sent-size)

  sent-whole : take size (with_csum csum) ≡ with_csum csum
  sent-whole = take_all size (with_csum csum) (omega arith)

  sent-intact : udp_intact src_ip dst_ip (with_csum csum) ≡ true
  sent-intact = rw (sent-length, sent-whole) (ground (arith, sealed))

  -- A receiver finds the datagram intact, whatever its content, and reads the ports and the content
  -- that were sent.
  pub udp_packet_reads :
      (udp_intact src_ip dst_ip packet ≡ true)
      × (rd16 packet 2 ≡ dst_port)
      × (udp_content packet src_ip ≡ datagram content src_ip src_port)
  udp_packet_reads =
      rw udp_packet_lem
        (sent-intact, sent-dst_port, rw (sent-length, sent-whole, sent-src_port) refl)

  pub udp_packet-IsBytes : IsBytes packet
  udp_packet-IsBytes = rw udp_packet_lem (with_csum-IsBytes csum csum_range.1)

  pub length-udp_packet : length packet ≡ size
  length-udp_packet = rw udp_packet_lem (omega arith)
