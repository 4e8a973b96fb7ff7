-- ===== src/Packet/Bodies/Pictures.antt =====
-- The bodies of packets about pictures, records and alarms.
use net_lib_wrapper.Prelude.{ℕ, List}
use net_lib_wrapper.Wire.Reader.{Reader, ◌then◌, parse_u16, parse_u32, parse_string, member}
use net_lib_wrapper.Wire.Writer.{Writer, ◌also◌, pack_u16, pack_u32, pack_string}

-- `MSAlarmPicGetReqBody_S`
pub record AlarmPicGetReqBody : Type 0 where
  pub ui_group : ℕ
  pub us_slide : ℕ
  pub us_ptz : ℕ
  pub ui_alarm_no : ℕ
  pub ui_utc_sec : ℕ
  pub ui_utc_millsec : ℕ

unfoldable pub parse_alarm_pic_get_req : List ℕ → ℕ → Reader AlarmPicGetReqBody
parse_alarm_pic_get_req pc_buffer i_size =
    member (λ b. b.ui_group) (λ v b. record b { ui_group = v }) (parse_u32 pc_buffer i_size)
    then member (λ b. b.us_slide) (λ v b. record b { us_slide = v }) (parse_u16 pc_buffer i_size)
    then member (λ b. b.us_ptz) (λ v b. record b { us_ptz = v }) (parse_u16 pc_buffer i_size)
    then member (λ b. b.ui_alarm_no) (λ v b. record b { ui_alarm_no = v })
        (parse_u32 pc_buffer i_size)
    then member (λ b. b.ui_utc_sec) (λ v b. record b { ui_utc_sec = v })
        (parse_u32 pc_buffer i_size)
    then member (λ b. b.ui_utc_millsec) (λ v b. record b { ui_utc_millsec = v })
        (parse_u32 pc_buffer i_size)

-- `MSGetRecordConditionReqBody_S`
pub record GetRecordConditionReqBody : Type 0 where
  pub ui_group : ℕ
  pub us_slide : ℕ
  pub us_ptz : ℕ

unfoldable pub parse_get_record_condition_req : List ℕ → ℕ → Reader GetRecordConditionReqBody
parse_get_record_condition_req pc_buffer i_size =
    member (λ b. b.ui_group) (λ v b. record b { ui_group = v }) (parse_u32 pc_buffer i_size)
    then member (λ b. b.us_slide) (λ v b. record b { us_slide = v }) (parse_u16 pc_buffer i_size)
    then member (λ b. b.us_ptz) (λ v b. record b { us_ptz = v }) (parse_u16 pc_buffer i_size)

-- `MSDelAlarmConditionReqBody_S`
pub record DelAlarmConditionReqBody : Type 0 where
  pub ui_group : ℕ
  pub us_slide : ℕ
  pub us_ptz : ℕ
  pub ui_alarm_no : ℕ

unfoldable pub parse_del_alarm_condition_req : List ℕ → ℕ → Reader DelAlarmConditionReqBody
parse_del_alarm_condition_req pc_buffer i_size =
    member (λ b. b.ui_group) (λ v b. record b { ui_group = v }) (parse_u32 pc_buffer i_size)
    then member (λ b. b.us_slide) (λ v b. record b { us_slide = v }) (parse_u16 pc_buffer i_size)
    then member (λ b. b.us_ptz) (λ v b. record b { us_ptz = v }) (parse_u16 pc_buffer i_size)
    then member (λ b. b.ui_alarm_no) (λ v b. record b { ui_alarm_no = v })
        (parse_u32 pc_buffer i_size)

-- `MSTimerPicGetReqBody_S`
pub record TimerPicGetReqBody : Type 0 where
  pub ui_group : ℕ
  pub ui_utc_sec : ℕ
  pub ui_utc_millsec : ℕ

unfoldable pub parse_timer_pic_get_req : List ℕ → ℕ → Reader TimerPicGetReqBody
parse_timer_pic_get_req pc_buffer i_size =
    member (λ b. b.ui_group) (λ v b. record b { ui_group = v }) (parse_u32 pc_buffer i_size)
    then member (λ b. b.ui_utc_sec) (λ v b. record b { ui_utc_sec = v })
        (parse_u32 pc_buffer i_size)
    then member (λ b. b.ui_utc_millsec) (λ v b. record b { ui_utc_millsec = v })
        (parse_u32 pc_buffer i_size)

-- `MSGetCurCruiseInfoReqBody_S`
pub record GetCurCruiseInfoReqBody : Type 0 where
  pub ui_group : ℕ

unfoldable pub parse_get_cur_cruise_info_req : List ℕ → ℕ → Reader GetCurCruiseInfoReqBody
parse_get_cur_cruise_info_req pc_buffer i_size =
    member (λ b. b.ui_group) (λ v b. record b { ui_group = v }) (parse_u32 pc_buffer i_size)

-- `MSGetCurCruiseInfoRespBody_S`
pub record GetCurCruiseInfoRespBody : Type 0 where
  pub ui_cruise_no : ℕ
  pub us_slide : ℕ
  pub us_ptz : ℕ
  pub ui_time : ℕ

unfoldable pub pack_get_cur_cruise_info_resp : GetCurCruiseInfoRespBody → Writer
pack_get_cur_cruise_info_resp st_packet =
    pack_u32 st_packet.ui_cruise_no
    also pack_u16 st_packet.us_slide
    also pack_u16 st_packet.us_ptz
    also pack_u32 st_packet.ui_time

-- `MSSetPicInfoReqBody_S`
pub record SetPicInfoReqBody : Type 0 where
  pub ui_group : ℕ
  pub s_pic_info : List ℕ

unfoldable pub parse_set_pic_info_req : List ℕ → ℕ → Reader SetPicInfoReqBody
parse_set_pic_info_req pc_buffer i_size =
    member (λ b. b.ui_group) (λ v b. record b { ui_group = v }) (parse_u32 pc_buffer i_size)
    then member (λ b. b.s_pic_info) (λ v b. record b { s_pic_info = v })
        (parse_string pc_buffer i_size)

-- `MSSetEPicRespBody_S`
pub record SetEPicRespBody : Type 0 where
  pub ui_pic_id : ℕ

unfoldable pub pack_set_e_pic_resp : SetEPicRespBody → Writer
pack_set_e_pic_resp st_packet = pack_u32 st_packet.ui_pic_id

-- `MSSetEPicInfoReqBody_S`
pub record SetEPicInfoReqBody : Type 0 where
  pub ui_pic_id : ℕ
  pub s_pic_info : List ℕ

unfoldable pub parse_set_e_pic_info_req : List ℕ → ℕ → Reader SetEPicInfoReqBody
parse_set_e_pic_info_req pc_buffer i_size =
    member (λ b. b.ui_pic_id) (λ v b. record b { ui_pic_id = v }) (parse_u32 pc_buffer i_size)
    then member (λ b. b.s_pic_info) (λ v b. record b { s_pic_info = v })
        (parse_string pc_buffer i_size)

-- `MSGetEPicInfoReqBody_S`
pub record GetEPicInfoReqBody : Type 0 where
  pub ui_e_pic_id : ℕ

unfoldable pub parse_get_e_pic_info_req : List ℕ → ℕ → Reader GetEPicInfoReqBody
parse_get_e_pic_info_req pc_buffer i_size =
    member (λ b. b.ui_e_pic_id) (λ v b. record b { ui_e_pic_id = v }) (parse_u32 pc_buffer i_size)

-- `MSGetEPicInfoRespBody_S`
pub record GetEPicInfoRespBody : Type 0 where
  pub s_pic_data : List ℕ
  pub s_pic_info : List ℕ

unfoldable pub pack_get_e_pic_info_resp : GetEPicInfoRespBody → Writer
pack_get_e_pic_info_resp st_packet =
    pack_string st_packet.s_pic_data also pack_string st_packet.s_pic_info

-- `MSDelEPicReqBody_S`
pub record DelEPicReqBody : Type 0 where
  pub ui_e_pic_id : ℕ

unfoldable pub parse_del_e_pic_req : List ℕ → ℕ → Reader DelEPicReqBody
parse_del_e_pic_req pc_buffer i_size =
    member (λ b. b.ui_e_pic_id) (λ v b. record b { ui_e_pic_id = v }) (parse_u32 pc_buffer i_size)

-- `MSLiveGetClrIdxRespBody_S`
pub record LiveGetClrIdxRespBody : Type 0 where
  pub i_color_idx : ℕ

unfoldable pub pack_live_get_clr_idx_resp : LiveGetClrIdxRespBody → Writer
pack_live_get_clr_idx_resp st_packet = pack_u32 st_packet.i_color_idx
