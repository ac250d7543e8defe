-- ===== src/Net/Order.antt =====
-- Byte order: what `rd16`, `rd32` and the MAC conversions compute, and that writing a field and
-- reading it back gives the value.
use sys_grid.Base.{
  ℕ, ◌+◌, ◌*◌, ◌/◌, ◌%◌, ◌^◌, ◌<◌, ◌≡◌, ◌∷◌, arith, bit_and, bit_or, bit_or-sum, bit_and_ff,
  bit_and_ff00, bit_and_ff0000, bit_and_ff000000, [],
}
use sys_grid.Net.{
  Bytes, byte_at, hton16, hton32, rd16, rd32, wr16, wr32, mac_to_bytes, mac_from_bytes,
}

-- Four bytes joined by `|`.
pub join4 :
    (a b c d : ℕ)
    → b < 256
    → c < 256
    → d < 256
    → bit_or (bit_or (bit_or (a * 16777216) (b * 65536)) (c * 256)) d
      ≡ a * 16777216 + b * 65536 + c * 256 + d
join4 a b c d hb hc hd = rw (
  bit_or-sum 24 a (a * 16777216) (b * 65536) (omega arith) (omega arith),
  bit_or-sum 16 (a * 256 + b) (a * 16777216 + b * 65536) (c * 256) (omega arith) (omega arith),
  bit_or-sum 8 (a * 65536 + b * 256 + c) (a * 16777216 + b * 65536 + c * 256) d (omega arith)
      (omega arith),
)

hton16_lem : (v : ℕ) → v < 65536 → hton16 v ≡ v % 256 * 256 + v / 256
unfolding hton16
hton16_lem v h = omega (arith, bit_or-sum 8 v (v * 256) (v / 256) (omega arith) (omega arith))

hton32_lem :
    (v : ℕ)
    → v < 4294967296
    → hton32 v ≡ v % 256 * 16777216 + v / 256 % 256 * 65536 + v / 65536 % 256 * 256 + v / 16777216
unfolding hton32
hton32_lem v h =
    let a : bit_and v 0xff * 16777216 % 4294967296 ≡ v % 256 * 16777216 =
      omega (arith, bit_and_ff v) in
    let b : bit_and v 0xff00 * 256 % 4294967296 ≡ v / 256 % 256 * 65536 =
      omega (arith, bit_and_ff00 v) in
    let c : bit_and v 0xff0000 / 256 ≡ v / 65536 % 256 * 256 = omega (arith, bit_and_ff0000 v) in
    let d : bit_and v 0xff000000 / 16777216 ≡ v / 16777216 = omega (arith, bit_and_ff000000 v) in
    rw (a, b, c, d)
      (join4 (v % 256) (v / 256 % 256) (v / 65536 % 256) (v / 16777216) (omega arith) (omega arith)
        (omega arith))

-- Big-endian reads of two and four bytes.
pub rd16_lem :
    (p : Bytes) (i : ℕ)
    → byte_at p i < 256
    → byte_at p (i + 1) < 256
    → rd16 p i ≡ byte_at p i * 256 + byte_at p (i + 1)
unfolding rd16
rd16_lem p i h l = omega (arith, hton16_lem (byte_at p i + byte_at p (i + 1) * 256) (omega arith))

pub rd32_lem :
    (p : Bytes) (i : ℕ)
    → byte_at p i < 256
    → byte_at p (i + 1) < 256
    → byte_at p (i + 2) < 256
    → byte_at p (i + 3) < 256
    → rd32 p i
      ≡ byte_at p i * 16777216
        + byte_at p (i + 1) * 65536
        + byte_at p (i + 2) * 256
        + byte_at p (i + 3)
unfolding rd32
rd32_lem p i a b c d = omega (
  arith,
  hton32_lem
      (byte_at p i
        + byte_at p (i + 1) * 256
        + byte_at p (i + 2) * 65536
        + byte_at p (i + 3) * 16777216)
      (omega arith),
)

-- The bytes that a store leaves.
pub wr16_lem : (v : ℕ) → v < 65536 → wr16 v ≡ v / 256 ∷ v % 256 ∷ []
unfolding wr16
wr16_lem v h = ground (arith, hton16_lem v)

pub wr32_lem :
    (v : ℕ)
    → v < 4294967296
    → wr32 v ≡ v / 16777216 ∷ v / 65536 % 256 ∷ v / 256 % 256 ∷ v % 256 ∷ []
unfolding wr32
wr32_lem v h = ground (arith, hton32_lem v)

join6 :
    (a b c d e f : ℕ)
    → b < 256
    → c < 256
    → d < 256
    → e < 256
    → f < 256
    → bit_or
        (bit_or
          (bit_or (bit_or (bit_or (a * 1099511627776) (b * 4294967296)) (c * 16777216)) (d * 65536))
          (e * 256))
        f
      ≡ a * 1099511627776 + b * 4294967296 + c * 16777216 + d * 65536 + e * 256 + f
join6 a b c d e f hb hc hd he hf =
    let ab = a * 1099511627776 + b * 4294967296 in
    let abc = ab + c * 16777216 in
    let abcd = abc + d * 65536 in
    let abcde = abcd + e * 256 in
    rw (
      bit_or-sum 40 a (a * 1099511627776) (b * 4294967296) (omega arith) (omega arith),
      bit_or-sum 32 (a * 256 + b) ab (c * 16777216) (omega arith) (omega arith),
      bit_or-sum 24 (a * 65536 + b * 256 + c) abc (d * 65536) (omega arith) (omega arith),
      bit_or-sum 16 (a * 16777216 + b * 65536 + c * 256 + d) abcd (e * 256) (omega arith)
          (omega arith),
      bit_or-sum 8 (a * 4294967296 + b * 16777216 + c * 65536 + d * 256 + e) abcde f (omega arith)
          (omega arith),
    )

-- A big-endian read of six bytes.
pub mac_from_bytes_lem :
    (p : Bytes) (i : ℕ)
    → byte_at p (i + 1) < 256
    → byte_at p (i + 2) < 256
    → byte_at p (i + 3) < 256
    → byte_at p (i + 4) < 256
    → byte_at p (i + 5) < 256
    → mac_from_bytes p i
      ≡ byte_at p i * 1099511627776
        + byte_at p (i + 1) * 4294967296
        + byte_at p (i + 2) * 16777216
        + byte_at p (i + 3) * 65536
        + byte_at p (i + 4) * 256
        + byte_at p (i + 5)
unfolding mac_from_bytes
mac_from_bytes_lem p i b c d e f =
    join6 (byte_at p i) (byte_at p (i + 1)) (byte_at p (i + 2)) (byte_at p (i + 3))
      (byte_at p (i + 4)) (byte_at p (i + 5)) b c d e f

-- Reading the six bytes of a MAC address gives it back.
pub mac_from_bytes-mac_to_bytes :
    (mac : ℕ) → mac < 2 ^ 48 → mac_from_bytes (mac_to_bytes mac) 0 ≡ mac
unfolding mac_to_bytes
mac_from_bytes-mac_to_bytes mac h = omega (
  arith,
  mac_from_bytes_lem (mac_to_bytes mac) 0 (omega arith) (omega arith) (omega arith) (omega arith)
      (omega arith),
)
