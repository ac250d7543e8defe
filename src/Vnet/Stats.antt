-- ===== src/Vnet/Stats.antt =====
-- `++` on a counter of `Stats`, and the calls of the emit callback.
use sys_grid.Base.{ℕ, ◌+◌, u32, [], ◌∷◌, ◌++◌}
use sys_grid.Vnet.{VNet, Counters, Frame}

abbrev pub bump : ℕ → ℕ
bump n = u32 (n + 1)

abbrev pub count_with : (Counters → Counters) → VNet → VNet
count_with f v = record v { stats = f v.stats }

abbrev pub count_rx_frames : VNet → VNet
count_rx_frames = count_with (λ s. record s { rx_frames = bump s.rx_frames })

abbrev pub count_rx_ip : VNet → VNet
count_rx_ip = count_with (λ s. record s { rx_ip = bump s.rx_ip })

abbrev pub count_rx_udp : VNet → VNet
count_rx_udp = count_with (λ s. record s { rx_udp = bump s.rx_udp })

abbrev pub count_rx_arp : VNet → VNet
count_rx_arp = count_with (λ s. record s { rx_arp = bump s.rx_arp })

abbrev pub count_rx_icmp : VNet → VNet
count_rx_icmp = count_with (λ s. record s { rx_icmp = bump s.rx_icmp })

abbrev pub count_tx_frames : VNet → VNet
count_tx_frames = count_with (λ s. record s { tx_frames = bump s.tx_frames })

abbrev pub count_tx_udp : VNet → VNet
count_tx_udp = count_with (λ s. record s { tx_udp = bump s.tx_udp })

abbrev pub count_tx_arp : VNet → VNet
count_tx_arp = count_with (λ s. record s { tx_arp = bump s.tx_arp })

abbrev pub count_tx_icmp : VNet → VNet
count_tx_icmp = count_with (λ s. record s { tx_icmp = bump s.tx_icmp })

abbrev pub drop_not_for_us : VNet → VNet
drop_not_for_us = count_with (λ s. record s { drop_not_for_us = bump s.drop_not_for_us })

abbrev pub drop_bad_checksum : VNet → VNet
drop_bad_checksum = count_with (λ s. record s { drop_bad_checksum = bump s.drop_bad_checksum })

abbrev pub drop_no_buffer : VNet → VNet
drop_no_buffer = count_with (λ s. record s { drop_no_buffer = bump s.drop_no_buffer })

abbrev pub drop_too_big : VNet → VNet
drop_too_big = count_with (λ s. record s { drop_too_big = bump s.drop_too_big })

abbrev pub drop_malformed : VNet → VNet
drop_malformed = count_with (λ s. record s { drop_malformed = bump s.drop_malformed })

abbrev pub drop_reasm : VNet → VNet
drop_reasm = count_with (λ s. record s { drop_reasm = bump s.drop_reasm })

-- `m_emit(m_emitCtx, …)`.
abbrev pub emit : Frame → VNet → VNet
emit f v = record v { emitted = v.emitted ++ f ∷ [] }
