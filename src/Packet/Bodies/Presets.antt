-- ===== src/Packet/Bodies/Presets.antt =====
-- The bodies of packets about presets, cruises and accounts. A text that a
-- request carries ends at its first zero byte once the request is read.
use net_lib_wrapper.Prelude.{ℕ, List}
use net_lib_wrapper.Wire.Reader.{Reader, ◌then◌, parse_u16, parse_u32, parse_string, member}
use net_lib_wrapper.Wire.Writer.{Writer, ◌also◌, pack_u16, pack_u32}
use net_lib_wrapper.Packet.Bodies.Text.{c_str, settle}

-- `MSPlatFormToPresetReqBody_S`
pub record PlatFormToPresetReqBody : Type 0 where
  pub ui_group_no : ℕ
  pub us_slide_no : ℕ
  pub us_preset_no : ℕ

unfoldable pub parse_plat_form_to_preset_req : List ℕ → ℕ → Reader PlatFormToPresetReqBody
parse_plat_form_to_preset_req pc_buffer i_size =
    member (λ b. b.ui_group_no) (λ v b. record b { ui_group_no = v }) (parse_u32 pc_buffer i_size)
    then member (λ b. b.us_slide_no) (λ v b. record b { us_slide_no = v })
        (parse_u16 pc_buffer i_size)
    then member (λ b. b.us_preset_no) (λ v b. record b { us_preset_no = v })
        (parse_u16 pc_buffer i_size)

-- `MSDelPresetReqBody_S`
pub record DelPresetReqBody : Type 0 where
  pub ui_group_no : ℕ
  pub us_slide_no : ℕ
  pub us_preset_no : ℕ

unfoldable pub parse_del_preset_req : List ℕ → ℕ → Reader DelPresetReqBody
parse_del_preset_req pc_buffer i_size =
    member (λ b. b.ui_group_no) (λ v b. record b { ui_group_no = v }) (parse_u32 pc_buffer i_size)
    then member (λ b. b.us_slide_no) (λ v b. record b { us_slide_no = v })
        (parse_u16 pc_buffer i_size)
    then member (λ b. b.us_preset_no) (λ v b. record b { us_preset_no = v })
        (parse_u16 pc_buffer i_size)

-- `MSGetPresetInfoReqBody_S`
pub record GetPresetInfoReqBody : Type 0 where
  pub ui_group : ℕ

unfoldable pub parse_get_preset_info_req : List ℕ → ℕ → Reader GetPresetInfoReqBody
parse_get_preset_info_req pc_buffer i_size =
    member (λ b. b.ui_group) (λ v b. record b { ui_group = v }) (parse_u32 pc_buffer i_size)

-- `MSBSetCruiseRespBody_S`
pub record BSetCruiseRespBody : Type 0 where
  pub ui_no : ℕ

unfoldable pub pack_b_set_cruise_resp : BSetCruiseRespBody → Writer
pack_b_set_cruise_resp st_packet = pack_u32 st_packet.ui_no

-- `MSDelCruiseReqBody_S`
pub record DelCruiseReqBody : Type 0 where
  pub ui_group : ℕ
  pub ui_no : ℕ

unfoldable pub parse_del_cruise_req : List ℕ → ℕ → Reader DelCruiseReqBody
parse_del_cruise_req pc_buffer i_size =
    member (λ b. b.ui_group) (λ v b. record b { ui_group = v }) (parse_u32 pc_buffer i_size)
    then member (λ b. b.ui_no) (λ v b. record b { ui_no = v }) (parse_u32 pc_buffer i_size)

-- `MSDelPicReqBody_S`
pub record DelPicReqBody : Type 0 where
  pub ui_group : ℕ

unfoldable pub parse_del_pic_req : List ℕ → ℕ → Reader DelPicReqBody
parse_del_pic_req pc_buffer i_size =
    member (λ b. b.ui_group) (λ v b. record b { ui_group = v }) (parse_u32 pc_buffer i_size)

-- `MSStopCruiseReqBody_S`
pub record StopCruiseReqBody : Type 0 where
  pub ui_group : ℕ
  pub ui_no : ℕ

unfoldable pub parse_stop_cruise_req : List ℕ → ℕ → Reader StopCruiseReqBody
parse_stop_cruise_req pc_buffer i_size =
    member (λ b. b.ui_group) (λ v b. record b { ui_group = v }) (parse_u32 pc_buffer i_size)
    then member (λ b. b.ui_no) (λ v b. record b { ui_no = v }) (parse_u32 pc_buffer i_size)

-- `MSPresetRespBody_S`
pub record PresetRespBody : Type 0 where
  pub us_slide_no : ℕ
  pub us_ptz_no : ℕ

unfoldable pub pack_preset_resp : PresetRespBody → Writer
pack_preset_resp st_packet = pack_u16 st_packet.us_slide_no also pack_u16 st_packet.us_ptz_no

-- `MSPresetAnaAddReqBody_S`
pub record PresetAnaAddReqBody : Type 0 where
  pub ui_group_no : ℕ
  pub ui_slide_no : ℕ
  pub ui_ptz_no : ℕ
  pub str_ana_cname : List ℕ
  pub str_ana : List ℕ

unfoldable pub parse_preset_ana_add_req : List ℕ → ℕ → Reader PresetAnaAddReqBody
parse_preset_ana_add_req pc_buffer i_size =
    settle (λ b. record b { str_ana_cname = c_str b.str_ana_cname; str_ana = c_str b.str_ana })
      (member (λ b. b.ui_group_no) (λ v b. record b { ui_group_no = v })
          (parse_u32 pc_buffer i_size)
        then member (λ b. b.ui_slide_no) (λ v b. record b { ui_slide_no = v })
            (parse_u16 pc_buffer i_size)
        then member (λ b. b.ui_ptz_no) (λ v b. record b { ui_ptz_no = v })
            (parse_u16 pc_buffer i_size)
        then member (λ b. b.str_ana_cname) (λ v b. record b { str_ana_cname = v })
            (parse_string pc_buffer i_size)
        then member (λ b. b.str_ana) (λ v b. record b { str_ana = v })
            (parse_string pc_buffer i_size))

-- `MSPresetAnaAddRespBody_S`
pub record PresetAnaAddRespBody : Type 0 where
  pub ui_no : ℕ

unfoldable pub pack_preset_ana_add_resp : PresetAnaAddRespBody → Writer
pack_preset_ana_add_resp st_packet = pack_u32 st_packet.ui_no

-- `MSPresetAnaChgReqBody_S`
pub record PresetAnaChgReqBody : Type 0 where
  pub ui_group_no : ℕ
  pub ui_slide_no : ℕ
  pub ui_ptz_no : ℕ
  pub ui_preset_ana_no : ℕ
  pub str_ana_cname : List ℕ
  pub str_ana : List ℕ

unfoldable pub parse_preset_ana_chg_req : List ℕ → ℕ → Reader PresetAnaChgReqBody
parse_preset_ana_chg_req pc_buffer i_size =
    settle (λ b. record b { str_ana_cname = c_str b.str_ana_cname; str_ana = c_str b.str_ana })
      (member (λ b. b.ui_group_no) (λ v b. record b { ui_group_no = v })
          (parse_u32 pc_buffer i_size)
        then member (λ b. b.ui_slide_no) (λ v b. record b { ui_slide_no = v })
            (parse_u16 pc_buffer i_size)
        then member (λ b. b.ui_ptz_no) (λ v b. record b { ui_ptz_no = v })
            (parse_u16 pc_buffer i_size)
        then member (λ b. b.ui_preset_ana_no) (λ v b. record b { ui_preset_ana_no = v })
            (parse_u32 pc_buffer i_size)
        then member (λ b. b.str_ana_cname) (λ v b. record b { str_ana_cname = v })
            (parse_string pc_buffer i_size)
        then member (λ b. b.str_ana) (λ v b. record b { str_ana = v })
            (parse_string pc_buffer i_size))

-- `MSPresetAnaDelReqBody_S`
pub record PresetAnaDelReqBody : Type 0 where
  pub ui_group_no : ℕ
  pub ui_slide_no : ℕ
  pub ui_ptz_no : ℕ
  pub ui_preset_ana_no : ℕ

unfoldable pub parse_preset_ana_del_req : List ℕ → ℕ → Reader PresetAnaDelReqBody
parse_preset_ana_del_req pc_buffer i_size =
    member (λ b. b.ui_group_no) (λ v b. record b { ui_group_no = v }) (parse_u32 pc_buffer i_size)
    then member (λ b. b.ui_slide_no) (λ v b. record b { ui_slide_no = v })
        (parse_u16 pc_buffer i_size)
    then member (λ b. b.ui_ptz_no) (λ v b. record b { ui_ptz_no = v }) (parse_u16 pc_buffer i_size)
    then member (λ b. b.ui_preset_ana_no) (λ v b. record b { ui_preset_ana_no = v })
        (parse_u32 pc_buffer i_size)

-- `MSModPresetReqBody_S`
pub record ModPresetReqBody : Type 0 where
  pub ui_group : ℕ
  pub ui_slide : ℕ
  pub ui_ptz : ℕ

unfoldable pub parse_mod_preset_req : List ℕ → ℕ → Reader ModPresetReqBody
parse_mod_preset_req pc_buffer i_size =
    member (λ b. b.ui_group) (λ v b. record b { ui_group = v }) (parse_u32 pc_buffer i_size)
    then member (λ b. b.ui_slide) (λ v b. record b { ui_slide = v }) (parse_u16 pc_buffer i_size)
    then member (λ b. b.ui_ptz) (λ v b. record b { ui_ptz = v }) (parse_u16 pc_buffer i_size)

-- `MSQueryAccountPremissionReqBody_S`
pub record QueryAccountPremissionReqBody : Type 0 where
  pub str_user_name : List ℕ
  pub ui_get_other_flag : ℕ

unfoldable pub parse_query_account_premission_req :
    List ℕ → ℕ → Reader QueryAccountPremissionReqBody
parse_query_account_premission_req pc_buffer i_size =
    settle (λ b. record b { str_user_name = c_str b.str_user_name })
      (member (λ b. b.str_user_name) (λ v b. record b { str_user_name = v })
          (parse_string pc_buffer i_size)
        then member (λ b. b.ui_get_other_flag) (λ v b. record b { ui_get_other_flag = v })
            (parse_u32 pc_buffer i_size))
