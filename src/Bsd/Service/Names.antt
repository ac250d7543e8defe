-- ===== src/Bsd/Service/Names.antt =====
-- The bytes of a `sockaddr_in` that the shim reads and writes.
use sys_grid.Base.{ℕ, ◌+◌, ◌*◌, ◌<◌, ◌≡◌, refl, arith, ◌∷◌, u8, ◌>>>◌, bit_or-sum, replicate}
use sys_grid.Net.{Bytes, byte_at}
use sys_grid.Net.Order.{join4}
use sys_grid.Bsd.Lan.Sending.{name_port, name_ip}
use sys_grid.Bsd.Service.Connected.{name_of}

name_port_lem :
    (addr : Bytes)
    → ((k : ℕ) → byte_at addr k < 256)
    → name_port addr ≡ byte_at addr 2 * 256 + byte_at addr 3
name_port_lem addr h =
    bit_or-sum 8 (byte_at addr 2) (byte_at addr 2 * 256) (byte_at addr 3) refl (h 3)

name_ip_lem :
    (addr : Bytes)
    → ((k : ℕ) → byte_at addr k < 256)
    → name_ip addr
      ≡ byte_at addr 4 * 16777216 + byte_at addr 5 * 65536 + byte_at addr 6 * 256 + byte_at addr 7
name_ip_lem addr h =
    join4 (byte_at addr 4) (byte_at addr 5) (byte_at addr 6) (byte_at addr 7) (h 5) (h 6) (h 7)

port_bytes : (a b : ℕ) → a < 256 → b < 256 → (u8 ((a * 256 + b) >>> 8) ≡ a) × (u8 (a * 256 + b) ≡ b)
port_bytes a b ha hb = (omega arith, omega arith)

address_bytes :
    (a b c d : ℕ)
    → a < 256
    → b < 256
    → c < 256
    → d < 256
    → let n = a * 16777216 + b * 65536 + c * 256 + d in
      (u8 (n >>> 24) ≡ a) × (u8 (n >>> 16) ≡ b) × (u8 (n >>> 8) ≡ c) × (u8 n ≡ d)
address_bytes a b c d ha hb hc hd = (omega arith, omega arith, omega arith, omega arith)

-- The address that is written for a peer holds the port and the address that were read.
pub name_of-read :
    (addr : Bytes)
    → ((k : ℕ) → byte_at addr k < 256)
    → name_of (name_ip addr) (name_port addr)
      ≡ 16
        ∷ 2
        ∷ byte_at addr 2
        ∷ byte_at addr 3
        ∷ byte_at addr 4
        ∷ byte_at addr 5
        ∷ byte_at addr 6
        ∷ byte_at addr 7
        ∷ replicate 8 0
name_of-read addr h =
    let (p0, p1) = port_bytes (byte_at addr 2) (byte_at addr 3) (h 2) (h 3) in
    let (a0, a1, a2, a3) =
      address_bytes (byte_at addr 4) (byte_at addr 5) (byte_at addr 6) (byte_at addr 7) (h 4) (h 5)
        (h 6) (h 7) in
    rw (name_ip_lem addr h, name_port_lem addr h, p0, p1, a0, a1, a2, a3) refl
