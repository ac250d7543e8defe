-- ===== src/Port/Service/Subnet.antt =====
-- The subnet that an address of the controller stands for.
use sys_grid.Base.{
  ℕ, zero, suc, ◌+◌, ◌-◌, ◌*◌, ◌/◌, ◌^◌, ◌<◌, ◌≤◌, ◌≡◌, refl, sym, ap, ◌∙◌, arith, true, false,
  List, [], ◌∷◌, ◌++◌, ◌==◌, ◌!=◌, if◌then◌else◌, u16, u32, not32, bit_and, bit_or, pow-add,
  bit_or-low, bit_and-high, All, Bool-cases, inl, inr,
}
use native.Mathlib.Nat.{one-le-pow, suc-mul, eq_of_mul-eq-mul_right}
use sys_grid.Net.{Bytes}
use sys_grid.Vnet.{VNet, Index}
use sys_grid.Vnet.Transmit.{udp_send_to}
use sys_grid.Bsd.Lan.{mirror_lan_datagram, mirror_lan_broadcast}
use sys_grid.Vnet.Address.{configure, broadcast_ip}
use sys_grid.Port.Service.{Assigned, netmask_of, take_address, Service, cb_network_config, update}

split : (bits : ℕ) → bits ≤ 32 → 2 ^ bits * 2 ^ (32 - bits) ≡ 4294967296
split bits h =
    let all : bits + (32 - bits) ≡ 32 = omega arith in
    sym (pow-add bits (32 - bits)) ∙ ap (λ (t : ℕ). 2 ^ t) all

ones_times : (q p : ℕ) → 0 < q → (q - 1) * p + p ≡ q * p
ones_times zero p h = absurd (omega arith)
ones_times (suc q) p h =
    omega (arith, suc-mul q p, ap (λ (t : ℕ). t * p) (let e : suc q - 1 ≡ q = omega arith in e))

netmask_of_lem : (bits : ℕ) → bits ≤ 32 → netmask_of bits ≡ (2 ^ bits - 1) * 2 ^ (32 - bits)
netmask_of_lem zero h = refl
netmask_of_lem (suc b) h =
    let whole = split (suc b) h in
    let above = one-le-pow (suc b) 2 in
    let below = one-le-pow (32 - suc b) 2 in
    let front = ones_times (2 ^ suc b) (2 ^ (32 - suc b)) (omega arith) in
    let shifted : netmask_of (suc b) ≡ u32 (4294967295 * 2 ^ (32 - suc b)) = ground arith in
    omega arith

not32-netmask_of : (bits : ℕ) → bits ≤ 32 → not32 (netmask_of bits) ≡ 2 ^ (32 - bits) - 1
not32-netmask_of bits h =
    let whole = split bits h in
    let above = one-le-pow bits 2 in
    let below = one-le-pow (32 - bits) 2 in
    let front = ones_times (2 ^ bits) (2 ^ (32 - bits)) (omega arith) in
    omega (arith, netmask_of_lem bits h)

-- The first address of IPv4, behind others.
take_address-first :
    (v : VNet) (mac mtu : ℕ) (before : List Assigned) (a : Assigned) (rest : List Assigned)
    → All (λ b. b.ipv4 ≡ false) before
    → a.ipv4 ≡ true
    → take_address v mac mtu (before ++ a ∷ rest)
      ≡ configure v mac a.ip (netmask_of a.bits) (u16 mtu)
unfolding take_address
take_address-first v mac mtu [] a rest none_ given = ground arith
take_address-first v mac mtu (b ∷ before) a rest (no_, none_) given =
    rw no_ (take_address-first v mac mtu before a rest none_ given)

module _ (v : VNet) (bits ip mac mtu : ℕ) (bits_range : bits ≤ 32)
    (ip_range : ip < 4294967296) where
  abbrev host : ℕ
  host = 2 ^ (32 - bits)

  abbrev net : VNet
  net = configure v mac ip (netmask_of bits) mtu

  prefix : (x : ℕ) → x < 4294967296 → bit_and x (netmask_of bits) ≡ x / host * host
  prefix x h =
      let below : x < 2 ^ bits * host = omega (arith, split bits bits_range) in
      ap (λ (t : ℕ). bit_and x t) (netmask_of_lem bits bits_range)
      ∙ bit_and-high (32 - bits) x bits below

  same_subnet :
      (dst : ℕ)
      → dst < 4294967296
      → (bit_and dst (netmask_of bits) != bit_and ip (netmask_of bits)) ≡ (dst / host != ip / host)
  same_subnet dst h =
      let positive : 0 < host = omega (arith, one-le-pow (32 - bits) 2) in
      ground (
        arith,
        prefix dst h,
        prefix ip ip_range,
        ap (λ (t : ℕ). t * host),
        eq_of_mul-eq-mul_right host positive (dst / host) (ip / host),
      )

  broadcast_ip-last : broadcast_ip net ≡ ip / host * host + (host - 1)
  unfolding configure
  broadcast_ip-last =
      ap (λ (t : ℕ). bit_or ip t) (not32-netmask_of bits bits_range) ∙ bit_or-low (32 - bits) ip

  mirror_lan_datagram-subnet :
      (vfd : Index) (dst port : ℕ) (content : Bytes)
      → dst < 4294967296
      → mirror_lan_datagram net vfd dst port content
        ≡ (if dst / host == ip / host then udp_send_to net vfd dst port content else (net, false))
  unfolding mirror_lan_datagram configure
  mirror_lan_datagram-subnet vfd dst port content h = elim (Bool-cases (dst / host == ip / host)) [
    | inl inside ↦ rw (same_subnet dst h, inside) refl
    | inr outside ↦ rw (same_subnet dst h, outside) refl
  ]

  mirror_lan_broadcast-subnet :
      (vfd : Index) (port : ℕ) (content : Bytes)
      → mirror_lan_broadcast net vfd port content
        ≡ udp_send_to net vfd (ip / host * host + (host - 1)) port content
  unfolding mirror_lan_broadcast configure
  mirror_lan_broadcast-subnet vfd port content =
      ap (λ (t : ℕ). udp_send_to net vfd t port content) broadcast_ip-last

-- A configuration whose first IPv4 address is `a`, behind addresses of other families, with a prefix of
-- 32 bits at most. Behind the callback, a datagram that the shim mirrors to an address is sent exactly
-- when that address has the same prefix as the assigned one, and is dropped with no effect otherwise;
-- and one that it mirrors as a broadcast is sent to the last address of that subnet.
pub cb_network_config-subnet :
    (s : Service) (nwid status mac mtu : ℕ) (before : List Assigned) (a : Assigned)
    (rest : List Assigned) (vfd : Index) (dst port : ℕ) (content : Bytes)
    → All (λ b. b.ipv4 ≡ false) before
    → a.ipv4 ≡ true
    → a.bits ≤ 32
    → a.ip < 4294967296
    → dst < 4294967296
    → let v = (cb_network_config s nwid (update status mac mtu (before ++ a ∷ rest))).net in
      let host = 2 ^ (32 - a.bits) in
      (mirror_lan_datagram v vfd dst port content
        ≡ (if dst / host == a.ip / host then udp_send_to v vfd dst port content else (v, false)))
      × (mirror_lan_broadcast v vfd port content
          ≡ udp_send_to v vfd (a.ip / host * host + (host - 1)) port content)
unfolding cb_network_config
cb_network_config-subnet s nwid status mac mtu before a rest vfd dst port content none_ given
      bits_range ip_range dst_range =
    rw (take_address-first s.net mac mtu before a rest none_ given) (
      mirror_lan_datagram-subnet s.net a.bits a.ip mac (u16 mtu) bits_range ip_range vfd dst port
          content dst_range,
      mirror_lan_broadcast-subnet s.net a.bits a.ip mac (u16 mtu) bits_range ip_range vfd port
          content,
    )
