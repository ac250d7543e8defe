-- ===== src/Vnet/Transmit/Split.antt =====
-- What the fragmentation of a payload puts on the network.
use sys_grid.Base.{
  ℕ, zero, suc, ◌+◌, ◌/◌, ◌<◌, ◌≤◌, ◌≡◌, ◌≢◌, ◌*◌, ◌-◌, refl, ap, ap₂, sym, ◌∙◌, Bool, true, false,
  not, List, ◌++◌, map, append_assoc, append-nil, take_all, length-append, leb, take-append-drop,
  length-take, arith, Bool-cases, inl, inr, [], ◌∷◌, u16, ltb, ◌==◌, if◌then◌else◌, length, take,
  drop, length-drop, subst,
}
use sys_grid.Net.{Bytes}
use sys_grid.Vnet.{VNet, Frame, max_frame}
use sys_grid.Vnet.Address.{lookup_mac}
use sys_grid.Net.{ether_type_ipv4}
use sys_grid.Vnet.Transmit.{emit_ip_fragment, send_fragments, ip_packet, send_ipv4}

-- A round of the loop.
round :
    (fuel : ℕ) (v : VNet) (dst_mac dst_ip proto id chunk off : ℕ) (payload : Bytes)
    → let left = length payload in
      let step = if ltb chunk left then chunk else left in
      send_fragments (suc fuel) v dst_mac dst_ip proto id chunk off payload ≡ (
        if left == 0
        then v
        else send_fragments fuel
            (emit_ip_fragment v dst_mac dst_ip proto id
              (u16 (off / 8))
              (ltb step left)
              (take step payload))
            dst_mac
            dst_ip
            proto
            id
            chunk
            (off + step)
            (drop step payload))
unfolding send_fragments
round fuel v dst_mac dst_ip proto id chunk off payload = refl

going_round :
    (fuel : ℕ) (v : VNet) (dst_mac dst_ip proto id chunk off step : ℕ) (more : Bool)
    (payload : Bytes)
    → (length payload == 0) ≡ false
    → (if ltb chunk (length payload) then chunk else length payload) ≡ step
    → ltb step (length payload) ≡ more
    → send_fragments (suc fuel) v dst_mac dst_ip proto id chunk off payload
      ≡ send_fragments fuel
          (emit_ip_fragment v dst_mac dst_ip proto id (u16 (off / 8)) more (take step payload))
          dst_mac
          dst_ip
          proto
          id
          chunk
          (off + step)
          (drop step payload)
going_round fuel v dst_mac dst_ip proto id chunk off step more payload given size flag =
    round fuel v dst_mac dst_ip proto id chunk off payload ∙ rw (given, size, flag) refl

nothing_left :
    (fuel : ℕ) (v : VNet) (dst_mac dst_ip proto id chunk off : ℕ)
    → send_fragments fuel v dst_mac dst_ip proto id chunk off [] ≡ v
nothing_left zero v dst_mac dst_ip proto id chunk off = unfold send_fragments in refl
nothing_left (suc fuel) v dst_mac dst_ip proto id chunk off =
    rw (round fuel v dst_mac dst_ip proto id chunk off []) refl

-- A fragment: its offset in units of 8 bytes, the flag for more fragments, and what it carries.
pub record Piece : Type 0 where
  pub blocks : ℕ
  pub more : Bool
  pub content : Bytes

abbrev pub is_last : List Piece → Bool
is_last [] = true
is_last (p ∷ ps) = false

-- Pieces that are a payload, from an offset on: each has its offset, carries between one byte and
-- `chunk` bytes, those that follow in the payload, and says whether another piece comes behind it.
abbrev pub Covers : ℕ → ℕ → Bytes → List Piece → Type 0
Covers chunk off payload [] = payload ≡ []
Covers chunk off payload (p ∷ ps) =
    (p.blocks * 8 ≡ off)
    × (p.more ≡ not (is_last ps))
    × (0 < length p.content)
    × (length p.content ≤ chunk)
    × ((rest : Bytes) × (payload ≡ p.content ++ rest)
        × Covers chunk (off + length p.content) rest ps)

abbrev pub frame_of : ℕ → ℕ → ℕ → ℕ → ℕ → Piece → Frame
frame_of src_ip dst_mac dst_ip proto id p = record {
  dst_mac = dst_mac;
  ether_type = ether_type_ipv4;
  payload = ip_packet src_ip dst_ip proto id p.blocks p.more p.content;
}

emit_ip_fragment-emits :
    (v : VNet) (dst_mac dst_ip proto id : ℕ) (p : Piece)
    → v.has_emit ≡ true
    → 20 + length p.content ≤ max_frame
    → let w = emit_ip_fragment v dst_mac dst_ip proto id p.blocks p.more p.content in
      (w.emitted ≡ v.emitted ++ frame_of v.ip dst_mac dst_ip proto id p ∷ [])
      × (w.ip ≡ v.ip)
      × (w.has_emit ≡ true)
unfolding emit_ip_fragment
emit_ip_fragment-emits v dst_mac dst_ip proto id p up h =
    let small : ltb max_frame (20 + length p.content) ≡ false = ground arith in
    rw (up, small) (refl, refl, refl)

-- Whether another piece follows, from what is left.
Covers-is_last :
    (chunk off : ℕ) (payload : Bytes) (ps : List Piece)
    → Covers chunk off payload ps
    → is_last ps ≡ (length payload == 0)
Covers-is_last chunk off payload [] h = rw h refl
Covers-is_last chunk off payload (p ∷ ps) (at, flag, some_bytes, fits, (rest, e, later)) =
    let long = length-append p.content rest in
    let given : (length payload == 0) ≡ false = ground (arith, ap (length {A = ℕ}) e) in
    rw given refl

drop-length : (xs : Bytes) → drop (length xs) xs ≡ []
drop-length [] = refl
drop-length (x ∷ xs) = drop-length xs

send_fragments-Covers :
    (fuel units k : ℕ) (v : VNet) (dst_mac dst_ip proto id chunk off : ℕ) (payload : Bytes)
    → chunk ≡ units * 8
    → 0 < chunk
    → 20 + chunk ≤ max_frame
    → off ≡ k * 8
    → off + length payload < 524288
    → length payload ≤ fuel
    → v.has_emit ≡ true
    → (ps : List Piece) × ((send_fragments fuel v dst_mac dst_ip proto id chunk off payload).emitted
        ≡ v.emitted ++ map (frame_of v.ip dst_mac dst_ip proto id) ps)
      × Covers chunk off payload ps
send_fragments-Covers fuel units k v dst_mac dst_ip proto id chunk off [] cu pos fits at range
      enough up =
    (
      [],
      ap (λ (w : VNet). w.emitted) (nothing_left fuel v dst_mac dst_ip proto id chunk off)
          ∙ sym (append-nil v.emitted),
      refl,
    )
send_fragments-Covers zero units k v dst_mac dst_ip proto id chunk off (c ∷ cs) cu pos fits at range
      enough up =
    absurd (omega arith)
send_fragments-Covers (suc fuel) units k v dst_mac dst_ip proto id chunk off (c ∷ cs) cu pos fits at
      range enough up =
    elim (Bool-cases (ltb chunk (length (c ∷ cs)))) [
      | inl big ↦
          let payload = c ∷ cs in
          let more : chunk < length payload = ground arith in
          let p : Piece = record {
            blocks = u16 (off / 8);
            more = true;
            content = take chunk payload;
          } in
          let size : length (take chunk payload) ≡ chunk =
            omega (arith, length-take chunk payload, more) in
          let (e, ip, up') =
            emit_ip_fragment-emits v dst_mac dst_ip proto id p up (omega (arith, size)) in
          let w = emit_ip_fragment v dst_mac dst_ip proto id p.blocks true p.content in
          let left = length-drop chunk payload in
          let (ps, f, covers) =
            send_fragments-Covers fuel units (k + units) w dst_mac dst_ip proto id chunk
              (off + chunk) (drop chunk payload) cu pos fits (omega arith) (omega arith)
              (omega arith) up' in
          let behind = Covers-is_last chunk (off + chunk) (drop chunk payload) ps covers in
          let going : (length (drop chunk payload) == 0) ≡ false = ground arith in
          let step : send_fragments (suc fuel) v dst_mac dst_ip proto id chunk off payload
              ≡ send_fragments fuel w dst_mac dst_ip proto id chunk (off + chunk)
                  (drop chunk payload) =
            going_round fuel v dst_mac dst_ip proto id chunk off chunk true payload (ground arith)
              (rw big refl) big in
          (
            p ∷ ps,
            ap (λ (u : VNet). u.emitted) step
                ∙ f
                ∙ ap₂
                    (λ (es : List Frame) (i : ℕ). es ++ map (frame_of i dst_mac dst_ip proto id) ps)
                    e ip
                ∙ (append_assoc v.emitted (frame_of v.ip dst_mac dst_ip proto id p ∷ [])
                    (map (frame_of v.ip dst_mac dst_ip proto id) ps)),
            (
              omega arith,
              rw (behind, going) refl,
              omega (arith, size),
              omega (arith, size),
              (
                drop chunk payload,
                sym (take-append-drop chunk payload),
                subst (λ n. Covers chunk (off + n) (drop chunk payload) ps) (sym size) covers,
              ),
            ),
          )
      | inr small ↦
          let payload = c ∷ cs in
          let p : Piece = record {
            blocks = u16 (off / 8);
            more = false;
            content = take (length payload) payload;
          } in
          let size : length (take (length payload) payload) ≡ length payload =
            omega (arith, length-take (length payload) payload) in
          let few : length payload ≤ chunk = ground arith in
          let (e, ip, up') =
            emit_ip_fragment-emits v dst_mac dst_ip proto id p up (omega (arith, size)) in
          let w = emit_ip_fragment v dst_mac dst_ip proto id p.blocks false p.content in
          let same : ltb (length payload) (length payload) ≡ false = ground arith in
          let rest : drop (length payload) payload ≡ [] = drop-length payload in
          let step : send_fragments (suc fuel) v dst_mac dst_ip proto id chunk off payload ≡ w =
            going_round fuel v dst_mac dst_ip proto id chunk off (length payload) false payload
              (ground arith) (rw small refl) same
            ∙ rw rest (nothing_left fuel w dst_mac dst_ip proto id chunk (off + length payload)) in
          (
            p ∷ [],
            ap (λ (u : VNet). u.emitted) step ∙ e,
            (
              omega arith,
              refl,
              omega (arith, size),
              omega (arith, size, few),
              (
                [],
                sym (
                    append-nil (take (length payload) payload)
                    ∙ take_all (length payload) payload (omega arith)),
                refl,
              ),
            ),
          )
    ]

-- A payload that is too long for one packet of the configured size, and a destination whose MAC address
-- is known. What goes out is a list of fragments with one identification, addressed to it, which
-- together are the payload: each has its offset in it, holds at least one byte and no more than fit a
-- packet, and all but the last are marked as followed by more.
pub send_ipv4-Covers :
    (v : VNet) (dst_ip proto : ℕ) (payload : Bytes)
    → v.has_emit ≡ true
    → lookup_mac v dst_ip ≢ 0
    → 28 ≤ v.mtu
    → v.mtu ≤ max_frame
    → v.mtu < 20 + length payload
    → length payload < 65536
    → (ps : List Piece) × ((send_ipv4 v dst_ip proto payload).emitted
        ≡ v.emitted ++ map (frame_of v.ip (lookup_mac v dst_ip) dst_ip proto v.ip_id) ps)
      × Covers ((v.mtu - 20) / 8 * 8) 0 payload ps
unfolding send_ipv4
send_ipv4-Covers v dst_ip proto payload up known low high long short =
    let unknown : (lookup_mac v dst_ip == 0) ≡ false = ground arith in
    let whole : leb (length payload) (v.mtu - 20) ≡ false = ground arith in
    rw (unknown, whole)
      (send_fragments-Covers (length payload) ((v.mtu - 20) / 8) 0
        (record v { ip_id = u16 (v.ip_id + 1) }) (lookup_mac v dst_ip) dst_ip proto v.ip_id
        ((v.mtu - 20) / 8 * 8) 0 payload refl (omega arith) (omega arith) refl (omega arith)
        (omega arith) up)
