-- ===== src/Packet/Bodies/Frames.antt =====
-- The bodies of packets about cruises at fixed points, frames and devices.
use net_lib_wrapper.Prelude.{ℕ, List}
use net_lib_wrapper.Wire.Reader.{Reader, ◌then◌, parse_u16, parse_u32, parse_string, member}
use net_lib_wrapper.Wire.Writer.{Writer, ◌also◌, pack_u32}

-- `MSStartFixedPointCruiseReqBody_S`
pub record StartFixedPointCruiseReqBody : Type 0 where
  pub ui_group : ℕ

unfoldable pub parse_start_fixed_point_cruise_req : List ℕ → ℕ → Reader StartFixedPointCruiseReqBody
parse_start_fixed_point_cruise_req pc_buffer i_size =
    member (λ b. b.ui_group) (λ v b. record b { ui_group = v }) (parse_u32 pc_buffer i_size)

-- `MSStopFixedPointCruiseReqBody_S`
pub record StopFixedPointCruiseReqBody : Type 0 where
  pub ui_group : ℕ

unfoldable pub parse_stop_fixed_point_cruise_req : List ℕ → ℕ → Reader StopFixedPointCruiseReqBody
parse_stop_fixed_point_cruise_req pc_buffer i_size =
    member (λ b. b.ui_group) (λ v b. record b { ui_group = v }) (parse_u32 pc_buffer i_size)

-- `MSGetFixedPointCruiseStateReqBody_S`
pub record GetFixedPointCruiseStateReqBody : Type 0 where
  pub ui_group : ℕ

unfoldable pub parse_get_fixed_point_cruise_state_req :
    List ℕ → ℕ → Reader GetFixedPointCruiseStateReqBody
parse_get_fixed_point_cruise_state_req pc_buffer i_size =
    member (λ b. b.ui_group) (λ v b. record b { ui_group = v }) (parse_u32 pc_buffer i_size)

-- `MSGetFixedPointCruiseStateRespBody_S`
pub record GetFixedPointCruiseStateRespBody : Type 0 where
  pub ui_state : ℕ
  pub ui_time : ℕ

unfoldable pub pack_get_fixed_point_cruise_state_resp : GetFixedPointCruiseStateRespBody → Writer
pack_get_fixed_point_cruise_state_resp st_packet =
    pack_u32 st_packet.ui_state also pack_u32 st_packet.ui_time

-- `MSPicGetRadiationReqBody_S`
pub record PicGetRadiationReqBody : Type 0 where
  pub ui_group : ℕ

unfoldable pub parse_pic_get_radiation_req : List ℕ → ℕ → Reader PicGetRadiationReqBody
parse_pic_get_radiation_req pc_buffer i_size =
    member (λ b. b.ui_group) (λ v b. record b { ui_group = v }) (parse_u32 pc_buffer i_size)

-- `MSGetAllAnaReqBody_S`
pub record GetAllAnaReqBody : Type 0 where
  pub ui_group : ℕ
  pub ui_slide : ℕ
  pub ui_ptz : ℕ
  pub ui_start_time : ℕ
  pub ui_end_time : ℕ

unfoldable pub parse_get_all_ana_req : List ℕ → ℕ → Reader GetAllAnaReqBody
parse_get_all_ana_req pc_buffer i_size =
    member (λ b. b.ui_group) (λ v b. record b { ui_group = v }) (parse_u32 pc_buffer i_size)
    then member (λ b. b.ui_slide) (λ v b. record b { ui_slide = v }) (parse_u16 pc_buffer i_size)
    then member (λ b. b.ui_ptz) (λ v b. record b { ui_ptz = v }) (parse_u16 pc_buffer i_size)
    then member (λ b. b.ui_start_time) (λ v b. record b { ui_start_time = v })
        (parse_u32 pc_buffer i_size)
    then member (λ b. b.ui_end_time) (λ v b. record b { ui_end_time = v })
        (parse_u32 pc_buffer i_size)

-- `MSCurveUpFrameReqBody_S`
pub record CurveUpFrameReqBody : Type 0 where
  pub ui_group : ℕ
  pub ui_slide : ℕ
  pub ui_ptz : ℕ
  pub ui_cur_frame_utcs : ℕ
  pub ui_cur_frame_utcms : ℕ

unfoldable pub parse_curve_up_frame_req : List ℕ → ℕ → Reader CurveUpFrameReqBody
parse_curve_up_frame_req pc_buffer i_size =
    member (λ b. b.ui_group) (λ v b. record b { ui_group = v }) (parse_u32 pc_buffer i_size)
    then member (λ b. b.ui_slide) (λ v b. record b { ui_slide = v }) (parse_u16 pc_buffer i_size)
    then member (λ b. b.ui_ptz) (λ v b. record b { ui_ptz = v }) (parse_u16 pc_buffer i_size)
    then member (λ b. b.ui_cur_frame_utcs) (λ v b. record b { ui_cur_frame_utcs = v })
        (parse_u32 pc_buffer i_size)
    then member (λ b. b.ui_cur_frame_utcms) (λ v b. record b { ui_cur_frame_utcms = v })
        (parse_u32 pc_buffer i_size)

-- `MSCurveDownFrameReqBody_S`
pub record CurveDownFrameReqBody : Type 0 where
  pub ui_group : ℕ
  pub ui_slide : ℕ
  pub ui_ptz : ℕ
  pub ui_cur_frame_utcs : ℕ
  pub ui_cur_frame_utcms : ℕ

unfoldable pub parse_curve_down_frame_req : List ℕ → ℕ → Reader CurveDownFrameReqBody
parse_curve_down_frame_req pc_buffer i_size =
    member (λ b. b.ui_group) (λ v b. record b { ui_group = v }) (parse_u32 pc_buffer i_size)
    then member (λ b. b.ui_slide) (λ v b. record b { ui_slide = v }) (parse_u16 pc_buffer i_size)
    then member (λ b. b.ui_ptz) (λ v b. record b { ui_ptz = v }) (parse_u16 pc_buffer i_size)
    then member (λ b. b.ui_cur_frame_utcs) (λ v b. record b { ui_cur_frame_utcs = v })
        (parse_u32 pc_buffer i_size)
    then member (λ b. b.ui_cur_frame_utcms) (λ v b. record b { ui_cur_frame_utcms = v })
        (parse_u32 pc_buffer i_size)

-- `MSGetServerTimeRespBody_S`
pub record GetServerTimeRespBody : Type 0 where
  pub ui_cur_time_utcs : ℕ
  pub ui_cur_time_utcms : ℕ

unfoldable pub pack_get_server_time_resp : GetServerTimeRespBody → Writer
pack_get_server_time_resp st_packet =
    pack_u32 st_packet.ui_cur_time_utcs also pack_u32 st_packet.ui_cur_time_utcms

-- `MSDevBootReqBody_S`
pub record DevBootReqBody : Type 0 where
  pub str_sn : List ℕ

unfoldable pub parse_dev_boot_req : List ℕ → ℕ → Reader DevBootReqBody
parse_dev_boot_req pc_buffer i_size =
    member (λ b. b.str_sn) (λ v b. record b { str_sn = v }) (parse_string pc_buffer i_size)

-- `MSSendFrameReqBody_S`
pub record SendFrameReqBody : Type 0 where
  pub str_sn : List ℕ
  pub str_ip_address : List ℕ
  pub ui_port : ℕ
  pub i_vid_type : ℕ

unfoldable pub parse_send_frame_req : List ℕ → ℕ → Reader SendFrameReqBody
parse_send_frame_req pc_buffer i_size =
    member (λ b. b.str_sn) (λ v b. record b { str_sn = v }) (parse_string pc_buffer i_size)
    then member (λ b. b.str_ip_address) (λ v b. record b { str_ip_address = v })
        (parse_string pc_buffer i_size)
    then member (λ b. b.ui_port) (λ v b. record b { ui_port = v }) (parse_u32 pc_buffer i_size)
    then member (λ b. b.i_vid_type) (λ v b. record b { i_vid_type = v })
        (parse_u32 pc_buffer i_size)

-- `MSStopFrameReqBody_S`
pub record StopFrameReqBody : Type 0 where
  pub str_sn : List ℕ
  pub str_ip_address : List ℕ
  pub ui_port : ℕ

unfoldable pub parse_stop_frame_req : List ℕ → ℕ → Reader StopFrameReqBody
parse_stop_frame_req pc_buffer i_size =
    member (λ b. b.str_sn) (λ v b. record b { str_sn = v }) (parse_string pc_buffer i_size)
    then member (λ b. b.str_ip_address) (λ v b. record b { str_ip_address = v })
        (parse_string pc_buffer i_size)
    then member (λ b. b.ui_port) (λ v b. record b { ui_port = v }) (parse_u32 pc_buffer i_size)
