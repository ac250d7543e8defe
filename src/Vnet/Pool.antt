-- ===== src/Vnet/Pool.antt =====
-- The packet pool: a free list threaded through `m_pool`.
pub mod Chain
use sys_grid.Base.{ℕ, Bool, true, false, Option, none, some, ltb, if◌then◌else◌, update, not}
use sys_grid.Vnet.{VNet, Pkt, Index, pool_packets}

abbrev pub with_next : (ℕ → Pkt) → ℕ → Index → ℕ → Pkt
with_next pool idx next = let pk = pool idx in update pool idx (record pk { next = next })

unfoldable pub alloc_pkt : VNet → VNet × Index
alloc_pkt v = elim v.free_list [
  | none ↦ (v, none)
  | some idx ↦
      (record v { free_list = (v.pool idx).next; pool = with_next v.pool idx none }, some idx)
]

unfoldable pub free_pkt : VNet → ℕ → VNet
free_pkt v idx =
    if not (ltb idx pool_packets)
    then v
    else record v { pool = with_next v.pool idx v.free_list; free_list = some idx }
