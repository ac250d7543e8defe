-- ===== src/Lifetime.antt =====
-- source/net/lifetime.hpp: when a process list proves that a process has exited.
use sys_grid.Base.{
  ℕ, zero, suc, ◌+◌, ◌≤◌, ◌<◌, ◌≡◌, ◌≢◌, ◌↔◌, Bool, true, false, not, ◌||◌, arith, leb, ◌==◌,
  if◌then◌else◌, Option, none, some, refl,
}

-- The loop from `i`, with `left` rounds to go.
any_live : ℕ → (ℕ → ℕ) → ℕ → ℕ → Bool
any_live pid live zero i = false
any_live pid live (suc left) i = live i == pid || any_live pid live left (suc i)

-- `count` is an int: `none` stands for a negative one. `live` is the array that the kernel filled.
unfoldable pub process_list_confirms_exit : ℕ → (ℕ → ℕ) → Option ℕ → ℕ → Bool → Bool
unfolding any_live
process_list_confirms_exit pid live none capacity success = false
process_list_confirms_exit pid live (some count) capacity success =
    if pid == 0 || not success || leb capacity count then false else not (any_live pid live count 0)

any_live_lem :
    (pid : ℕ) (live : ℕ → ℕ) (left i j : ℕ)
    → any_live pid live left i ≡ false
    → i ≤ j
    → j < i + left
    → live j ≢ pid
unfolding any_live
any_live_lem pid live zero i j e low high = absurd (omega arith)
any_live_lem pid live (suc left) i j e low high =
    ground (arith, any_live_lem pid live left (suc i) j)

any_live_from :
    (pid : ℕ) (live : ℕ → ℕ) (left i : ℕ)
    → ((j : ℕ) → i ≤ j → j < i + left → live j ≢ pid)
    → any_live pid live left i ≡ false
unfolding any_live
any_live_from pid live zero i h = refl
any_live_from pid live (suc left) i h = ground (
  arith,
  h i,
  any_live_from pid live left (suc i) (λ j low high. h j (omega arith) (omega arith)),
)

-- Exit is confirmed exactly when the pid is not 0, the query succeeded, the list is complete (it
-- does not fill its buffer) and the pid is nowhere in it.
pub process_list_confirms_exit_iff :
    (pid : ℕ) (live : ℕ → ℕ) (count capacity : ℕ) (success : Bool)
    → (process_list_confirms_exit pid live (some count) capacity success ≡ true)
      ↔ ((pid ≢ 0) × (success ≡ true) × (count < capacity) × ((j : ℕ) → j < count → live j ≢ pid))
unfolding process_list_confirms_exit
process_list_confirms_exit_iff pid live count capacity success = (
  λ e. (
    ground arith,
    ground arith,
    ground arith,
    λ j h. any_live_lem pid live count 0 j (ground arith) (omega arith) (omega arith),
  ),
  λ h. ground (arith, any_live_from pid live count 0 (λ j low high. h.3 j (omega arith))),
)
