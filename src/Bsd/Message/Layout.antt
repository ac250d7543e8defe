-- ===== src/Bsd/Message/Layout.antt =====
-- The layout of a message vector, written out, and that the parser takes it apart.
use sys_grid.Base.{
  ℕ, suc, ◌+◌, ◌-◌, ◌/◌, ◌%◌, ◌^◌, ◌<◌, ◌≤◌, ◌≡◌, refl, sym, ◌∙◌, ap, arith, false, ◌||◌, List, [],
  ◌∷◌, ◌++◌, some, ltb, length, take, drop, length-append, append-nil, append_assoc,
}
use sys_grid.Net.{Bytes, load32, store32}
use sys_grid.Bsd.Message.{
  payload_max, and_then, mmsg_take, mmsg_read_u32, mmsg_read_u64, MMsgView, scan_parts, skip_tail,
  parse_mmsg, read_parts, concat, joined, assemble_payload,
}

take_front : (p r : Bytes) → take (length p) (p ++ r) ≡ p
take_front [] r = refl
take_front (b ∷ p) r = ap (◌∷◌ b) (take_front p r)

drop_front : (p r : Bytes) → drop (length p) (p ++ r) ≡ r
drop_front [] r = refl
drop_front (b ∷ p) r = drop_front p r

mmsg_take_front : (p r : Bytes) → mmsg_take (p ++ r) (length p) ≡ some (p, r)
unfolding mmsg_take
mmsg_take_front p r =
    let enough : ltb (length (p ++ r)) (length p) ≡ false = ground (arith, length-append p r) in
    rw (enough, take_front p r, drop_front p r) refl

abbrev pub store64 : ℕ → Bytes
store64 n = store32 (n % 2 ^ 32) ++ store32 (n / 2 ^ 32)

mmsg_read_u32-store32 :
    (n : ℕ) (r : Bytes) → n < 2 ^ 32 → mmsg_read_u32 (store32 n ++ r) ≡ some (n, r)
unfolding mmsg_read_u32
mmsg_read_u32-store32 n r h =
    let value : load32 (store32 n) 0 ≡ n = omega arith in
    rw (mmsg_take_front (store32 n) r) (ap (λ (v : ℕ). some (v, r)) value)

mmsg_read_u64-store64 :
    (n : ℕ) (r : Bytes) → n < 2 ^ 64 → mmsg_read_u64 (store64 n ++ r) ≡ some (n, r)
unfolding mmsg_read_u64
mmsg_read_u64-store64 n r h =
    rw (mmsg_take_front (store64 n) r) (ap (λ (v : ℕ). some (v, r)) (omega arith))

abbrev pub encode_parts : List Bytes → Bytes
encode_parts [] = []
encode_parts (p ∷ ps) = store64 (length p) ++ p ++ encode_parts ps

-- A message in front of `rest`: its destination, its parts, its control data, and the two words
-- behind it.
abbrev pub tail_of : Bytes → ℕ → ℕ → Bytes → Bytes
tail_of control flags len rest =
    store32 (length control) ++ (control ++ (store32 flags ++ (store32 len ++ rest)))

abbrev pub encode : Bytes → List Bytes → Bytes → ℕ → ℕ → Bytes → Bytes
encode name parts control flags len rest =
    store32 (length name)
    ++ (name ++ (store32 (length parts) ++ (encode_parts parts ++ tail_of control flags len rest)))

scan_parts_step :
    (left sum : ℕ) (p r : Bytes)
    → sum + length p ≤ payload_max
    → scan_parts (suc left) sum (store64 (length p) ++ (p ++ r))
      ≡ scan_parts left (sum + length p) r
unfolding scan_parts
scan_parts_step left sum p r h =
    let fits : (ltb payload_max (length p) || ltb (payload_max - length p) sum) ≡ false =
      ground arith in
    rw (mmsg_read_u64-store64 (length p) (p ++ r) (omega arith), fits, mmsg_take_front p r) refl

read_parts_step :
    (left : ℕ) (p r : Bytes)
    → length p < 2 ^ 64
    → read_parts (suc left) (store64 (length p) ++ (p ++ r))
      ≡ and_then (read_parts left r) (λ ps. some (p ∷ ps))
unfolding read_parts
read_parts_step left p r h =
    rw (mmsg_read_u64-store64 (length p) (p ++ r) h, mmsg_take_front p r) refl

scan_parts-encode_parts :
    (ps : List Bytes) (sum : ℕ) (r : Bytes)
    → sum + length (concat ps) ≤ payload_max
    → scan_parts (length ps) sum (encode_parts ps ++ r) ≡ some (sum + length (concat ps), r)
unfolding scan_parts
scan_parts-encode_parts [] sum r h = ap (λ (v : ℕ). some (v, r)) (omega arith)
scan_parts-encode_parts (p ∷ ps) sum r h =
    let size = length-append p (concat ps) in
    ap (λ (c : Bytes). scan_parts (suc (length ps)) sum (store64 (length p) ++ c))
      (append_assoc p (encode_parts ps) r)
    ∙ scan_parts_step (length ps) sum p (encode_parts ps ++ r) (omega arith)
    ∙ scan_parts-encode_parts ps (sum + length p) r (omega arith)
    ∙ ap (λ (v : ℕ). some (v, r)) (omega arith)

read_parts-encode_parts :
    (ps : List Bytes)
    → length (concat ps) ≤ payload_max
    → read_parts (length ps) (encode_parts ps) ≡ some ps
unfolding read_parts
read_parts-encode_parts [] h = refl
read_parts-encode_parts (p ∷ ps) h =
    let size = length-append p (concat ps) in
    read_parts_step (length ps) p (encode_parts ps) (omega arith)
    ∙ ap (λ o. and_then o (λ qs. some (p ∷ qs))) (read_parts-encode_parts ps (omega arith))

joined-concat : (ps : List Bytes) → joined ps ≡ concat ps
joined-concat [] = refl
joined-concat (p ∷ []) = sym (append-nil p)
joined-concat (p ∷ q ∷ ps) = refl

skip_tail-tail_of :
    (control : Bytes) (flags len : ℕ) (rest : Bytes)
    → length control < 2 ^ 32
    → skip_tail (tail_of control flags len rest) ≡ some rest
unfolding skip_tail
skip_tail-tail_of control flags len rest h =
    rw
      (
        mmsg_read_u32-store32 (length control) (control ++ (store32 flags ++ (store32 len ++ rest)))
            h,
        mmsg_take_front control (store32 flags ++ (store32 len ++ rest)),
        mmsg_take_front (store32 flags) (store32 len ++ rest),
        mmsg_take_front (store32 len) rest,
      )
      refl

-- The sizes that the parser accepts.
pub record Sized (name : Bytes) (parts : List Bytes) (control : Bytes) : Type 0 where
  pub name_size : length name < 2 ^ 32
  pub few : length parts ≤ 64
  pub payload_size : length (concat parts) ≤ payload_max
  pub control_size : length control < 2 ^ 32

abbrev pub view_of : Bytes → List Bytes → MMsgView
view_of name parts = record {
  name = name;
  iov = encode_parts parts;
  iov_count = length parts;
  payload_len = length (concat parts);
}

-- A message that is laid out like this is parsed into its destination and its parts, the cursor
-- stops behind it, and the payload that is assembled is its parts, one behind the other.
pub parse_mmsg-encode :
    (name : Bytes) (parts : List Bytes) (control : Bytes) (flags len : ℕ) (rest : Bytes)
    → Sized name parts control
    → (parse_mmsg (encode name parts control flags len rest) ≡ some (view_of name parts, rest))
      × (assemble_payload (view_of name parts) ≡ some (concat parts))
unfolding parse_mmsg assemble_payload
parse_mmsg-encode name parts control flags len rest h =
    let T = tail_of control flags len rest in
    let few : ltb 64 (length parts) ≡ false = ground (arith, h.few) in
    let scanned : scan_parts (length parts) 0 (encode_parts parts ++ T)
        ≡ some (length (concat parts), T) =
      scan_parts-encode_parts parts 0 T (omega (arith, h.payload_size))
      ∙ ap (λ (v : ℕ). some (v, T)) (omega arith) in
    let between : take (length (encode_parts parts ++ T) - length T) (encode_parts parts ++ T)
        ≡ encode_parts parts =
      ap (λ (n : ℕ). take n (encode_parts parts ++ T))
        (omega (arith, length-append (encode_parts parts) T))
      ∙ take_front (encode_parts parts) T in
    (
      rw
          (
            mmsg_read_u32-store32 (length name)
                (name ++ (store32 (length parts) ++ (encode_parts parts ++ T))) h.name_size,
            mmsg_take_front name (store32 (length parts) ++ (encode_parts parts ++ T)),
            mmsg_read_u32-store32 (length parts) (encode_parts parts ++ T) (omega (arith, h.few)),
            few,
            scanned,
            skip_tail-tail_of control flags len rest h.control_size,
            between,
          )
          refl,
      rw (read_parts-encode_parts parts h.payload_size)
          (ap (λ (p : Bytes). some p) (joined-concat parts)),
    )
