-- ===== src/Bsd/Proxy.antt =====
-- source/mitm/bsd_shim.cpp: the work area that real bsd is given in place of the game's.
use sys_grid.Base.{
  ℕ, ◌+◌, ◌-◌, ◌*◌, ◌/◌, ◌<◌, ◌≤◌, ◌≡◌, refl, arith, false, ◌||◌, Option, none, some, ◌==◌, ltb,
  if◌then◌else◌, Bool-cases, inl, inr, u64,
}
use native.Mathlib.Nat.{mul-le-mul_left, mul-le-mul_right, mul-div-le, le-div_iff_mul-le}

pub record BsdServiceConfig : Type 0 where
  pub version : ℕ
  pub tcp_tx_buf_size : ℕ
  pub tcp_rx_buf_size : ℕ
  pub tcp_tx_buf_max_size : ℕ
  pub tcp_rx_buf_max_size : ℕ
  pub udp_tx_buf_size : ℕ
  pub udp_rx_buf_size : ℕ
  pub sb_efficiency : ℕ

abbrev pub work_page : ℕ
work_page = 0x1000

abbrev pub proxy_tmem_size : ℕ
proxy_tmem_size = 0x94000

abbrev pub buffer_sum : BsdServiceConfig → ℕ
buffer_sum c = c.tcp_tx_buf_size + c.tcp_rx_buf_size + c.udp_tx_buf_size + c.udp_rx_buf_size

-- `(sum + (BsdWorkPage - 1)) & ~(BsdWorkPage - 1)`: the page size is a power of two.
abbrev pub aligned_sum : BsdServiceConfig → ℕ
aligned_sum c = u64 (buffer_sum c + (work_page - 1)) / work_page * work_page

-- The config and the work size for real bsd; the pointers are not null.
unfoldable pub build_splatoon2_proxy_config : BsdServiceConfig → Option (BsdServiceConfig × ℕ)
build_splatoon2_proxy_config requested =
    let proxy = record requested {
      tcp_tx_buf_max_size = requested.tcp_tx_buf_size;
      tcp_rx_buf_max_size = requested.tcp_rx_buf_size;
    } in
    let aligned = aligned_sum proxy in
    let maximum = proxy_tmem_size / aligned in
    let efficiency = if ltb maximum proxy.sb_efficiency then maximum else proxy.sb_efficiency in
    if requested.sb_efficiency == 0
    then none
    else if ltb aligned work_page || ltb proxy_tmem_size aligned
    then none
    else if efficiency == 0 || ltb proxy_tmem_size (aligned * efficiency)
    then none
    else some (record proxy { sb_efficiency = efficiency }, aligned * efficiency)

-- What a config that is accepted promises.
pub record IsProxy (requested proxy : BsdServiceConfig) (size : ℕ) : Type 0 where
  pub positive : 0 < proxy.sb_efficiency
  pub no_more : proxy.sb_efficiency ≤ requested.sb_efficiency
  pub exact : size ≡ aligned_sum requested * proxy.sb_efficiency
  pub enough : buffer_sum requested * proxy.sb_efficiency ≤ size
  pub fits : size ≤ proxy_tmem_size
  pub no_growth :
      (proxy.tcp_tx_buf_max_size ≡ requested.tcp_tx_buf_size)
      × (proxy.tcp_rx_buf_max_size ≡ requested.tcp_rx_buf_size)

abbrev pub Promises : BsdServiceConfig → Option (BsdServiceConfig × ℕ) → Type 0
Promises requested none = Unit
Promises requested (some (proxy, size)) = IsProxy requested proxy size

-- The tests of the code, and what it answers when they pass.
module _ (c : BsdServiceConfig) where
  abbrev pub aligned : ℕ
  aligned = aligned_sum c

  abbrev maximum : ℕ
  maximum = proxy_tmem_size / aligned

  abbrev pub efficiency : ℕ
  efficiency = if ltb maximum c.sb_efficiency then maximum else c.sb_efficiency

  abbrev pub accepted : BsdServiceConfig
  accepted = record c {
    tcp_tx_buf_max_size = c.tcp_tx_buf_size;
    tcp_rx_buf_max_size = c.tcp_rx_buf_size;
    sb_efficiency = efficiency;
  }

  pub record IsSized : Type 0 where
    pub tcp_tx : c.tcp_tx_buf_size < 4294967296
    pub tcp_rx : c.tcp_rx_buf_size < 4294967296
    pub udp_tx : c.udp_tx_buf_size < 4294967296
    pub udp_rx : c.udp_rx_buf_size < 4294967296

  covers : IsSized → buffer_sum c ≤ aligned
  covers h = omega (arith, h.tcp_tx, h.tcp_rx, h.udp_tx, h.udp_rx)

  -- What real bsd is given is within what the game asked for: the efficiency is positive and not
  -- above the requested one, there is no growth of the TCP buffers, and the work size is the four
  -- buffers, rounded up to pages, times the efficiency, and fits the transfer memory.
  pub build_splatoon2_proxy_config-Promises : IsSized → Promises c (build_splatoon2_proxy_config c)
  unfolding build_splatoon2_proxy_config
  build_splatoon2_proxy_config-Promises h = elim (Bool-cases (c.sb_efficiency == 0)) [
    | inl zero_asked ↦ rw zero_asked tt
    | inr asked ↦ elim (Bool-cases (ltb aligned work_page || ltb proxy_tmem_size aligned)) [
      | inl wrong ↦ rw (asked, wrong) tt
      | inr right ↦
          elim (Bool-cases (efficiency == 0 || ltb proxy_tmem_size (aligned * efficiency))) [
            | inl bad ↦ rw (asked, right, bad) tt
            | inr good ↦
                rw (asked, right, good)
                  (record {
                    positive = ground (arith, good);
                    no_more = ground arith;
                    exact = refl;
                    enough = mul-le-mul_right efficiency (covers h);
                    fits = ground (arith, good);
                    no_growth = (refl, refl);
                  })
          ]
    ]
  ]

  -- A request is accepted whenever it asks for some efficiency and the buffers are not empty and fit the
  -- transfer memory once.
  pub build_splatoon2_proxy_config-accepts :
      IsSized
      → 0 < c.sb_efficiency
      → 0 < buffer_sum c
      → buffer_sum c ≤ proxy_tmem_size
      → build_splatoon2_proxy_config c ≡ some (accepted, aligned * efficiency)
  unfolding build_splatoon2_proxy_config
  build_splatoon2_proxy_config-accepts h asked some_sum fits =
      let paged : (4096 ≤ aligned) × (aligned ≤ 0x94000) =
        omega (arith, h.tcp_tx, h.tcp_rx, h.udp_tx, h.udp_rx) in
      let positive : 1 ≤ maximum =
        (le-div_iff_mul-le {k = aligned} {x = 1} {y = proxy_tmem_size} (omega arith)).1
          (omega arith) in
      let within : aligned * maximum ≤ proxy_tmem_size = mul-div-le proxy_tmem_size aligned in
      let lesser : efficiency ≤ maximum = ground arith in
      let fit : aligned * efficiency ≤ proxy_tmem_size =
        omega (arith, within, mul-le-mul_left aligned lesser) in
      let wrong : (c.sb_efficiency == 0) ≡ false = ground arith in
      let right : (ltb aligned work_page || ltb proxy_tmem_size aligned) ≡ false =
        ground (arith, paged) in
      let given : 0 < efficiency = ground arith in
      let good : (efficiency == 0 || ltb proxy_tmem_size (aligned * efficiency)) ≡ false =
        ground (arith, given, fit) in
      rw (wrong, right, good) refl
