-- ===== src/Packet/Bodies/Rails.antt =====
-- The bodies of packets about focus, rails and alarms. A text that a
-- request carries ends at its first zero byte once the request is read.
use net_lib_wrapper.Prelude.{ℕ, List}
use net_lib_wrapper.Wire.Reader.{Reader, ◌then◌, parse_u16, parse_u32, parse_string, member}
use net_lib_wrapper.Wire.Writer.{Writer, ◌also◌, pack_u32}
use net_lib_wrapper.Packet.Bodies.Text.{c_str, settle}

-- `MSFocusChkReqBody_S`
pub record FocusChkReqBody : Type 0 where
  pub ui_client_id : ℕ
  pub s_sn : List ℕ

unfoldable pub parse_focus_chk_req : List ℕ → ℕ → Reader FocusChkReqBody
parse_focus_chk_req pc_buffer i_size =
    settle (λ b. record b { s_sn = c_str b.s_sn })
      (member (λ b. b.ui_client_id) (λ v b. record b { ui_client_id = v })
          (parse_u32 pc_buffer i_size)
        then member (λ b. b.s_sn) (λ v b. record b { s_sn = v }) (parse_string pc_buffer i_size))

-- `MSRailDirectReqBody_S`
pub record RailDirectReqBody : Type 0 where
  pub s_rail_sn : List ℕ

unfoldable pub parse_rail_direct_req : List ℕ → ℕ → Reader RailDirectReqBody
parse_rail_direct_req pc_buffer i_size =
    settle (λ b. record b { s_rail_sn = c_str b.s_rail_sn })
      (member (λ b. b.s_rail_sn) (λ v b. record b { s_rail_sn = v })
        (parse_string pc_buffer i_size))

-- `MSSetRailSpeedReqBody_S`
pub record SetRailSpeedReqBody : Type 0 where
  pub s_rail_sn : List ℕ
  pub ui_speed : ℕ

unfoldable pub parse_set_rail_speed_req : List ℕ → ℕ → Reader SetRailSpeedReqBody
parse_set_rail_speed_req pc_buffer i_size =
    settle (λ b. record b { s_rail_sn = c_str b.s_rail_sn })
      (member (λ b. b.s_rail_sn) (λ v b. record b { s_rail_sn = v }) (parse_string pc_buffer i_size)
        then member (λ b. b.ui_speed) (λ v b. record b { ui_speed = v })
            (parse_u32 pc_buffer i_size))

-- `MSRailChkReqBody_S`
pub record RailChkReqBody : Type 0 where
  pub s_rail_sn : List ℕ

unfoldable pub parse_rail_chk_req : List ℕ → ℕ → Reader RailChkReqBody
parse_rail_chk_req pc_buffer i_size =
    settle (λ b. record b { s_rail_sn = c_str b.s_rail_sn })
      (member (λ b. b.s_rail_sn) (λ v b. record b { s_rail_sn = v })
        (parse_string pc_buffer i_size))

-- `MSRailChkRespBody_S`
pub record RailChkRespBody : Type 0 where
  pub ui_len : ℕ

unfoldable pub pack_rail_chk_resp : RailChkRespBody → Writer
pack_rail_chk_resp st_packet = pack_u32 st_packet.ui_len

-- `MSRailPosReqBody_S`
pub record RailPosReqBody : Type 0 where
  pub s_rail_sn : List ℕ

unfoldable pub parse_rail_pos_req : List ℕ → ℕ → Reader RailPosReqBody
parse_rail_pos_req pc_buffer i_size =
    settle (λ b. record b { s_rail_sn = c_str b.s_rail_sn })
      (member (λ b. b.s_rail_sn) (λ v b. record b { s_rail_sn = v })
        (parse_string pc_buffer i_size))

-- `MSRailPosRespBody_S`
pub record RailPosRespBody : Type 0 where
  pub ui_cur_pos : ℕ
  pub ui_cur_speed : ℕ
  pub ui_total_len : ℕ

unfoldable pub pack_rail_pos_resp : RailPosRespBody → Writer
pack_rail_pos_resp st_packet =
    pack_u32 st_packet.ui_cur_pos
    also pack_u32 st_packet.ui_cur_speed
    also pack_u32 st_packet.ui_total_len

-- `MSSetAlarmConditionReqBody_S`
pub record SetAlarmConditionReqBody : Type 0 where
  pub ui_group : ℕ
  pub us_slide : ℕ
  pub us_ptz : ℕ
  pub ui_alarm_no : ℕ
  pub str_cname : List ℕ
  pub str_alarm_condition : List ℕ

unfoldable pub parse_set_alarm_condition_req : List ℕ → ℕ → Reader SetAlarmConditionReqBody
parse_set_alarm_condition_req pc_buffer i_size =
    settle
      (λ b. record b {
        str_cname = c_str b.str_cname;
        str_alarm_condition = c_str b.str_alarm_condition;
      })
      (member (λ b. b.ui_group) (λ v b. record b { ui_group = v }) (parse_u32 pc_buffer i_size)
        then member (λ b. b.us_slide) (λ v b. record b { us_slide = v })
            (parse_u16 pc_buffer i_size)
        then member (λ b. b.us_ptz) (λ v b. record b { us_ptz = v }) (parse_u16 pc_buffer i_size)
        then member (λ b. b.ui_alarm_no) (λ v b. record b { ui_alarm_no = v })
            (parse_u32 pc_buffer i_size)
        then member (λ b. b.str_cname) (λ v b. record b { str_cname = v })
            (parse_string pc_buffer i_size)
        then member (λ b. b.str_alarm_condition) (λ v b. record b { str_alarm_condition = v })
            (parse_string pc_buffer i_size))

-- `MSSetAlarmConditionRespBody_S`
pub record SetAlarmConditionRespBody : Type 0 where
  pub ui_alarm_no : ℕ

unfoldable pub pack_set_alarm_condition_resp : SetAlarmConditionRespBody → Writer
pack_set_alarm_condition_resp st_packet = pack_u32 st_packet.ui_alarm_no

-- `MSGetAlarmConditionReqBody_S`
pub record GetAlarmConditionReqBody : Type 0 where
  pub ui_group : ℕ
  pub us_slide : ℕ
  pub us_ptz : ℕ
  pub ui_alarm_no : ℕ

unfoldable pub parse_get_alarm_condition_req : List ℕ → ℕ → Reader GetAlarmConditionReqBody
parse_get_alarm_condition_req pc_buffer i_size =
    member (λ b. b.ui_group) (λ v b. record b { ui_group = v }) (parse_u32 pc_buffer i_size)
    then member (λ b. b.us_slide) (λ v b. record b { us_slide = v }) (parse_u16 pc_buffer i_size)
    then member (λ b. b.us_ptz) (λ v b. record b { us_ptz = v }) (parse_u16 pc_buffer i_size)
    then member (λ b. b.ui_alarm_no) (λ v b. record b { ui_alarm_no = v })
        (parse_u32 pc_buffer i_size)
