-- ===== src/Bsd/Message.antt =====
-- source/mitm/bsd_shim.cpp: Nintendo's serialised message vectors. A cursor is the list of the bytes
-- from `at` to `end`; false is none.
pub mod Layout
use sys_grid.Base.{
  ℕ, zero, suc, ◌+◌, ◌-◌, ◌*◌, Bool, true, false, ◌||◌, List, [], ◌∷◌, ◌++◌, Option, none, some,
  ◌==◌, ltb, leb, if◌then◌else◌, length, take, drop, u8, ◌>>>◌, u32, bit_or, ◌<<<◌, ◌*◌, ◌%◌, ◌^◌,
}
use Prim.Native.Nat.{bit_xor}
use sys_grid.Net.{Bytes, byte_at, load32}

abbrev pub payload_max : ℕ
payload_max = 2048

abbrev pub and_then {ℓ κ} : {A : Type ℓ} {B : Type κ} → Option A → (A → Option B) → Option B
and_then none f = none
and_then (some a) f = f a

unfoldable pub mmsg_take : Bytes → ℕ → Option (Bytes × Bytes)
mmsg_take cursor size =
    if ltb (length cursor) size then none else some (take size cursor, drop size cursor)

unfoldable pub mmsg_read_u32 : Bytes → Option (ℕ × Bytes)
mmsg_read_u32 cursor = and_then (mmsg_take cursor 4) (λ (p, rest). some (load32 p 0, rest))

abbrev pub load64 : Bytes → ℕ → ℕ
load64 p i = load32 p i + load32 p (i + 4) * 2 ^ 32

unfoldable pub mmsg_read_u64 : Bytes → Option (ℕ × Bytes)
mmsg_read_u64 cursor = and_then (mmsg_take cursor 8) (λ (p, rest). some (load64 p 0, rest))

-- `MMsgView`: `iov` is the bytes from `iov` to `iovEnd`.
pub record MMsgView : Type 0 where
  pub name : Bytes
  pub iov : Bytes
  pub iov_count : ℕ
  pub payload_len : ℕ

-- The loop over the parts, with `left` to go: the length of the payload and the cursor behind it.
unfoldable pub scan_parts : ℕ → ℕ → Bytes → Option (ℕ × Bytes)
scan_parts zero payload_len cursor = some (payload_len, cursor)
scan_parts (suc left) payload_len cursor = and_then (mmsg_read_u64 cursor) (λ (len, c).
    if ltb payload_max len || ltb (payload_max - len) payload_len
    then none
    else and_then (mmsg_take c len) (λ (part, rest). scan_parts left (payload_len + len) rest))

-- The control data, `msg_flags` and `msg_len` are skipped.
unfoldable pub skip_tail : Bytes → Option Bytes
skip_tail cursor = and_then (mmsg_read_u32 cursor) (λ (control_len, c).
    and_then (mmsg_take c control_len) (λ (control, c').
      and_then (mmsg_take c' 4)
        (λ (flags, c''). and_then (mmsg_take c'' 4) (λ (len, rest). some rest))))

unfoldable pub parse_mmsg : Bytes → Option (MMsgView × Bytes)
parse_mmsg cursor = and_then (mmsg_read_u32 cursor) (λ (name_len, c).
    and_then (mmsg_take c name_len) (λ (name, c'). and_then (mmsg_read_u32 c') (λ (iov_count, iov).
      if ltb 64 iov_count
      then none
      else and_then (scan_parts iov_count 0 iov) (λ (payload_len, end).
        and_then (skip_tail end) (λ rest. some (
          record {
            name = name;
            iov = take (length iov - length end) iov;
            iov_count = iov_count;
            payload_len = payload_len;
          },
          rest,
        ))))))

-- The parts of a message.
unfoldable pub read_parts : ℕ → Bytes → Option (List Bytes)
read_parts zero cursor = some []
read_parts (suc left) cursor = and_then (mmsg_read_u64 cursor) (λ (len, c).
    and_then (mmsg_take c len)
      (λ (part, rest). and_then (read_parts left rest) (λ parts. some (part ∷ parts))))

abbrev pub concat : List Bytes → Bytes
concat [] = []
concat (p ∷ ps) = p ++ concat ps

-- A single part is handed out as it is; several are copied one behind the other.
abbrev pub joined : List Bytes → Bytes
joined [] = []
joined (p ∷ []) = p
joined (p ∷ q ∷ ps) = p ++ concat (q ∷ ps)

unfoldable pub assemble_payload : MMsgView → Option Bytes
assemble_payload view = and_then (read_parts view.iov_count view.iov) (λ parts. some (joined parts))
