-- ===== src/Net.antt =====
-- source/net/net.hpp: byte order, the internet checksum, MAC addresses and the header layouts.
-- A `const u8 *` with its length is a list of bytes; a read past its end yields 0 here and is
-- excluded by the length tests of the callers.
pub mod Order
pub mod Checksum
use sys_grid.Base.{
  ℕ, zero, suc, ◌+◌, ◌*◌, ◌-◌, List, [], ◌∷◌, bit_and, bit_or, u8, u16, u32, not32, ◌<<<◌, ◌>>>◌,
  ◌==◌, true, false, get_or, update,
}

abbrev pub Bytes : Type 0
Bytes = List ℕ

abbrev pub byte_at : Bytes → ℕ → ℕ
byte_at p i = get_or p i 0

-- ---- byte order ----

unfoldable pub hton16 : ℕ → ℕ
hton16 v = u16 (bit_or (v <<< 8) (v >>> 8))

unfoldable pub ntoh16 : ℕ → ℕ
unfolding hton16
ntoh16 v = hton16 v

unfoldable pub hton32 : ℕ → ℕ
hton32 v =
    bit_or
      (bit_or (bit_or (u32 (bit_and v 0x000000ff <<< 24)) (u32 (bit_and v 0x0000ff00 <<< 8)))
        (bit_and v 0x00ff0000 >>> 8))
      (bit_and v 0xff000000 >>> 24)

unfoldable pub ntoh32 : ℕ → ℕ
unfolding hton32
ntoh32 v = hton32 v

-- `memcpy` between a word and its bytes, on the little-endian target.
abbrev pub load16 : Bytes → ℕ → ℕ
load16 p i = byte_at p i + byte_at p (i + 1) * 256

abbrev pub load32 : Bytes → ℕ → ℕ
load32 p i =
    byte_at p i + byte_at p (i + 1) * 256 + byte_at p (i + 2) * 65536 + byte_at p (i + 3) * 16777216

abbrev pub store16 : ℕ → Bytes
store16 n = u8 n ∷ u8 (n >>> 8) ∷ []

abbrev pub store32 : ℕ → Bytes
store32 n = u8 n ∷ u8 (n >>> 8) ∷ u8 (n >>> 16) ∷ u8 (n >>> 24) ∷ []

-- `rd16(p + i)` and so on.
unfoldable pub rd16 : Bytes → ℕ → ℕ
unfolding ntoh16
rd16 p i = ntoh16 (load16 p i)

unfoldable pub rd32 : Bytes → ℕ → ℕ
unfolding ntoh32
rd32 p i = ntoh32 (load32 p i)

-- The bytes that `wr16` and `wr32` write. The source writes the fields of a header in order, so a
-- header is the concatenation of them.
unfoldable pub wr16 : ℕ → Bytes
unfolding hton16
wr16 v = store16 (hton16 v)

unfoldable pub wr32 : ℕ → Bytes
unfolding hton32
wr32 v = store32 (hton32 v)

-- ---- checksum ----

-- `while (len > 1)`, and the odd byte after it.
unfoldable pub sum_words : ℕ → Bytes → ℕ
sum_words sum [] = sum
sum_words sum (b ∷ []) = u32 (sum + b <<< 8)
sum_words sum (b ∷ c ∷ rest) = sum_words (u32 (sum + bit_or (b <<< 8) c)) rest

-- `while (sum >> 16)`, on fuel: a sum of 32 bits needs three rounds at most.
unfoldable pub fold_carries : ℕ → ℕ → ℕ
fold_carries zero sum = sum
fold_carries (suc fuel) sum = elim (sum >>> 16 == 0) [
  | true ↦ sum
  | false ↦ fold_carries fuel (u32 (bit_and sum 0xffff + sum >>> 16))
]

unfoldable pub checksum16 : Bytes → ℕ → ℕ
unfolding sum_words fold_carries
checksum16 p initial = u16 (bit_and (not32 (fold_carries 3 (sum_words initial p))) 0xffff)

-- ---- ethernet ----

abbrev pub ether_type_ipv4 : ℕ
ether_type_ipv4 = 0x0800

abbrev pub ether_type_arp : ℕ
ether_type_arp = 0x0806

abbrev pub mac_broadcast : ℕ
mac_broadcast = 0xffffffffffff

-- `macToBytes`.
unfoldable pub mac_to_bytes : ℕ → Bytes
mac_to_bytes mac =
    u8 (mac >>> 40)
    ∷ u8 (mac >>> 32)
    ∷ u8 (mac >>> 24)
    ∷ u8 (mac >>> 16)
    ∷ u8 (mac >>> 8)
    ∷ u8 mac
    ∷ []

-- `macFromBytes(p + i)`.
unfoldable pub mac_from_bytes : Bytes → ℕ → ℕ
mac_from_bytes p i =
    bit_or
      (bit_or
        (bit_or
          (bit_or (bit_or (byte_at p i <<< 40) (byte_at p (i + 1) <<< 32))
            (byte_at p (i + 2) <<< 24))
          (byte_at p (i + 3) <<< 16))
        (byte_at p (i + 4) <<< 8))
      (byte_at p (i + 5))

-- ---- IPv4, UDP, ICMP and ARP ----

abbrev pub ip_proto_icmp : ℕ
ip_proto_icmp = 1

abbrev pub ip_proto_udp : ℕ
ip_proto_udp = 17

abbrev pub ip_broadcast : ℕ
ip_broadcast = 0xffffffff

abbrev pub ip4_min_header : ℕ
ip4_min_header = 20

abbrev pub flag_more_fragments : ℕ
flag_more_fragments = 0x2000

abbrev pub frag_offset_mask : ℕ
frag_offset_mask = 0x1fff

abbrev pub udp4_header : ℕ
udp4_header = 8

abbrev pub echo_request : ℕ
echo_request = 8

abbrev pub echo_reply : ℕ
echo_reply = 0

abbrev pub arp4_size : ℕ
arp4_size = 28

abbrev pub op_request : ℕ
op_request = 1

abbrev pub op_reply : ℕ
op_reply = 2
