-- ===== src/Tests/Bodies.antt =====
-- Examples for Packet/Bodies.
use net_lib_wrapper.Prelude.{
  ℕ, ◌+◌, ◌≡◌, refl, true, false, Returns, List, [], ◌∷◌, ◌++◌, length, arith,
}
use net_lib_wrapper.Wire.RoundTrip.{Holds}
use net_lib_wrapper.Wire.Containers.{u32_bytes, string_bytes}
use net_lib_wrapper.Wire.Endian.{ms_endian32, host_bytes}
use net_lib_wrapper.Packet.Bodies.Text.{c_str}
use net_lib_wrapper.Packet.Bodies.Settings.{GroupCfgChgReqBody, parse_group_cfg_chg_req}
use net_lib_wrapper.Packet.Bodies.Cruises.{
  CmdCruise, GetCruiseInfoRespBody, pack_get_cruise_info_resp,
}
use net_lib_wrapper.Packet.Bodies.Swaps.{pack_get_cruise_info_resp-fails}
use net_lib_wrapper.Packet.Bodies.Listed.{SetEPicReqBody, parse_set_e_pic_req, pic_name_len}
use net_lib_wrapper.Packet.Bodies.Names.{parse_set_e_pic_req-length}
use net_lib_wrapper.Frame.Parse.{zeros}
use net_lib_wrapper.Packet.Bodies.Received.{
  HasTexts, IsGroupCfgChg, group_cfg_chg_bytes, parse_group_cfg_chg_req-c_str,
}

-- The members "A" and a zero byte, and the alias "B", a zero byte and "C".
abbrev change : GroupCfgChgReqBody
change = record { ui_id = 7; ui_num = 1; s_members = 65 ∷ 0 ∷ []; s_alias = 66 ∷ 0 ∷ 67 ∷ [] }

abbrev cut_change : GroupCfgChgReqBody
cut_change = record { ui_id = 7; ui_num = 1; s_members = 65 ∷ []; s_alias = 66 ∷ [] }

abbrev blank : GroupCfgChgReqBody
blank = record { ui_id = 0; ui_num = 0; s_members = []; s_alias = [] }

-- The body behind a byte, and a byte behind it.
abbrev change_packet : List ℕ
change_packet = 9 ∷ (group_cfg_chg_bytes change ++ (8 ∷ []))

change-Holds : Holds change_packet 22 1 (group_cfg_chg_bytes change)
unfolding u32_bytes string_bytes ms_endian32 host_bytes
change-Holds = record { rest = 8 ∷ []; there = refl; fits = omega arith }

change-IsGroupCfgChg : IsGroupCfgChg change
change-IsGroupCfgChg = record {
  ui_id = omega arith;
  ui_num = omega arith;
  s_members = omega arith;
  s_alias = omega arith;
}

parse_group_cfg_chg_req-c_str_example :
    (parse_group_cfg_chg_req change_packet 22 1 blank ≡ record {
      ok = true;
      i_offset = 1 + length (group_cfg_chg_bytes change);
      value = cut_change;
    })
    × HasTexts (parse_group_cfg_chg_req change_packet 22 1 blank).value
unfolding c_str
parse_group_cfg_chg_req-c_str_example =
    parse_group_cfg_chg_req-c_str change blank change_packet 22 1 change-IsGroupCfgChg change-Holds

-- A cruise without presets, and one with a preset.
abbrev no_presets : CmdCruise
no_presets = record { if_cur = 0; no = 1; alias_len = 0; alias = []; num = 0; presets = [] }

abbrev one_preset : CmdCruise
one_preset = record {
  if_cur = 1;
  no = 2;
  alias_len = 0;
  alias = [];
  num = 1;
  presets = record { slide = 3; ptz = 4; second = 5 } ∷ [];
}

abbrev two_cruises : GetCruiseInfoRespBody
two_cruises = record { ui_num = 2; cruises = no_presets ∷ one_preset ∷ [] }

pack_get_cruise_info_resp-fails_example :
    Returns (λ r. r.0 ≡ false) (pack_get_cruise_info_resp two_cruises [])
pack_get_cruise_info_resp-fails_example =
    pack_get_cruise_info_resp-fails two_cruises one_preset (no_presets ∷ []) [] [] refl
      (omega arith) (refl, tt) refl (omega arith) (omega arith)

-- A request with the length 2 ^ 32 - 1.
abbrev wrapped : List ℕ
wrapped = 0 ∷ 0 ∷ 0 ∷ 7 ∷ 255 ∷ 255 ∷ 255 ∷ 255 ∷ 65 ∷ []

abbrev no_pic : SetEPicReqBody
no_pic = record {
  ui_pic_id = 0;
  ui_pic_cname_len = 0;
  ac_pic_cname = zeros pic_name_len;
  s_pic_data = [];
}

parse_set_e_pic_req-length_example :
    length (parse_set_e_pic_req wrapped 9 0 no_pic).value.ac_pic_cname ≡ pic_name_len
parse_set_e_pic_req-length_example =
    parse_set_e_pic_req-length wrapped 9 0 no_pic (omega arith) refl
