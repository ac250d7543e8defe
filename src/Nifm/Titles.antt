-- ===== src/Nifm/Titles.antt =====
-- source/mitm/lan_titles.hpp: the games with a LAN mode that the shims sit in front of. The names, which
-- are only logged, are left out.
use sys_grid.Base.{ℕ, Bool, false, ◌||◌, ◌==◌, List, [], ◌∷◌}

abbrev pub splatoon3_program_id : ℕ
splatoon3_program_id = 0x0100c2500fc20000

abbrev pub lan_titles : List ℕ
lan_titles =
    0x01009b500007c000 ∷ 0x01007960049a0000 ∷ 0x010044500c182000 ∷ 0x01007ef00cb88000
    ∷ 0x010002c00c270000 ∷ 0x010003000e146000 ∷ 0x010086000e148000 ∷ 0x010012700f232000
    ∷ 0x0100152000022000 ∷ 0x0100bde00862a000 ∷ 0x0100d2f00d5c0000 ∷ 0x0100b3f000be2000
    ∷ 0x0100abf008968000 ∷ 0x01008db008c2c000 ∷ 0x0100de600beee000 ∷ 0x01008d100d43e000
    ∷ 0x01003c700009c000 ∷ 0x01003bc0000a0000 ∷ 0x0100f8f0000a2000 ∷ splatoon3_program_id
    ∷ 0x0100605008268000 ∷ []

abbrev has_id : List ℕ → ℕ → Bool
has_id [] id = false
has_id (title ∷ titles) id = title == id || has_id titles id

-- `FindLanTitle(id) != nullptr`.
unfoldable pub is_lan_title : ℕ → Bool
is_lan_title id = has_id lan_titles id

unfoldable pub is_splatoon2_program_id : ℕ → Bool
is_splatoon2_program_id id =
    id == 0x01003c700009c000 || id == 0x01003bc0000a0000 || id == 0x0100f8f0000a2000

unfoldable pub uses_ryujinx_nifm_request_model : ℕ → Bool
uses_ryujinx_nifm_request_model id = id == splatoon3_program_id
