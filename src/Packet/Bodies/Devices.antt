-- ===== src/Packet/Bodies/Devices.antt =====
-- The bodies of packets with lists of devices and analyses, and with the frames of curves.
use net_lib_wrapper.Prelude.{ℕ, ◌^◌, ◌%◌, List, [], ◌∷◌, leb, length, if◌then◌else◌}
use net_lib_wrapper.Wire.Reader.{Reader, ◌then◌, member, parse_u16, parse_u32, parse_string}
use net_lib_wrapper.Wire.Writer.{Writer, ◌also◌, pack_u32, pack_string, pack_bytes, pack_field}
use net_lib_wrapper.Wire.Lists.{parse_list, pack_array, pack_list}
use net_lib_wrapper.Packet.Bodies.Text.{c_str, settle}
use net_lib_wrapper.Packet.Bodies.Alarms.{AlarmPic, pack_alarm_pic, device_count, require}
use net_lib_wrapper.Packet.Bodies.Play.{strlen}

-- `MSXMLRespBody_S`
pub record XmlRespBody : Type 0 where
  pub s_xml : List ℕ

unfoldable pub pack_xml_resp : XmlRespBody → Writer
pack_xml_resp st_packet = pack_field st_packet.s_xml (length st_packet.s_xml % 2 ^ 32)

-- `MSPlayRespBody_S`
pub record PlayRespBody : Type 0 where
  pub ac_url_buf : List ℕ

unfoldable pub pack_play_resp : PlayRespBody → Writer
pack_play_resp st_packet = pack_bytes st_packet.ac_url_buf (strlen st_packet.ac_url_buf)

-- `MSTimerPicGetRespBody_S`
pub record TimerPicGetRespBody : Type 0 where
  pub ui_num : ℕ
  pub ast_alarm_pic : List AlarmPic

unfoldable pub pack_timer_pic_get_resp : TimerPicGetRespBody → Writer
unfolding require
pack_timer_pic_get_resp st_packet =
    pack_u32 st_packet.ui_num
    also require (leb st_packet.ui_num device_count)
    also pack_array pack_alarm_pic st_packet.ast_alarm_pic st_packet.ui_num

-- `SingleAnaInfo_S`
pub record SingleAnaInfo : Type 0 where
  pub s_ana_cname : List ℕ
  pub s_ana : List ℕ

unfoldable pub parse_single_ana_info : List ℕ → ℕ → Reader SingleAnaInfo
parse_single_ana_info pc_buffer i_size =
    member (λ b. b.s_ana_cname) (λ v b. record b { s_ana_cname = v })
      (parse_string pc_buffer i_size)
    then member (λ b. b.s_ana) (λ v b. record b { s_ana = v }) (parse_string pc_buffer i_size)

unfoldable pub parse_single_ana_infos : List ℕ → ℕ → Reader (List SingleAnaInfo)
parse_single_ana_infos = parse_list parse_single_ana_info (record { s_ana_cname = []; s_ana = [] })

unfoldable pub c_str_infos : List SingleAnaInfo → List SingleAnaInfo
c_str_infos [] = []
c_str_infos (t ∷ ts) =
    record { s_ana_cname = c_str t.s_ana_cname; s_ana = c_str t.s_ana } ∷ c_str_infos ts

-- `MSPresetReqBody_S`
pub record PresetReqBody : Type 0 where
  pub ui_group_no : ℕ
  pub us_slide_no : ℕ
  pub us_ptz_no : ℕ
  pub s_cname : List ℕ
  pub ana_list : List SingleAnaInfo

unfoldable pub parse_preset_req : List ℕ → ℕ → Reader PresetReqBody
parse_preset_req pc_buffer i_size =
    settle (λ b. record b { s_cname = c_str b.s_cname; ana_list = c_str_infos b.ana_list })
      (member (λ b. b.ui_group_no) (λ v b. record b { ui_group_no = v })
          (parse_u32 pc_buffer i_size)
        then member (λ b. b.us_slide_no) (λ v b. record b { us_slide_no = v })
            (parse_u16 pc_buffer i_size)
        then member (λ b. b.us_ptz_no) (λ v b. record b { us_ptz_no = v })
            (parse_u16 pc_buffer i_size)
        then member (λ b. b.s_cname) (λ v b. record b { s_cname = v })
            (parse_string pc_buffer i_size)
        then member (λ b. b.ana_list) (λ v b. record b { ana_list = v })
            (parse_single_ana_infos pc_buffer i_size))

-- `CurveUp_S`, and `CurveDown_S`, which has the same members and the same pack_resp.
pub record CurveFrame : Type 0 where
  pub ui_frame_type : ℕ
  pub str_frame : List ℕ

unfoldable pub pack_curve_frame : CurveFrame → Writer
pack_curve_frame st_packet = pack_u32 st_packet.ui_frame_type also pack_string st_packet.str_frame

abbrev pub frame_count : ℕ
frame_count = 2

-- `MSCurveUpFrameRespBody_S`, and `MSCurveDownFrameRespBody_S`, likewise.
pub record CurveFrameRespBody : Type 0 where
  pub ui_frame_utcs : ℕ
  pub ui_frame_utcms : ℕ
  pub ui_frame_num : ℕ
  pub st_frame_info : List CurveFrame

unfoldable pub pack_curve_frame_resp : CurveFrameRespBody → Writer
unfolding require
pack_curve_frame_resp st_packet =
    pack_u32 st_packet.ui_frame_utcs
    also pack_u32 st_packet.ui_frame_utcms
    also pack_u32 st_packet.ui_frame_num
    also require (leb st_packet.ui_frame_num frame_count)
    also pack_array pack_curve_frame st_packet.st_frame_info st_packet.ui_frame_num

unfoldable pub parse_texts : List ℕ → ℕ → Reader (List (List ℕ))
parse_texts = parse_list parse_string []

unfoldable pub c_str_texts : List (List ℕ) → List (List ℕ)
c_str_texts [] = []
c_str_texts (s ∷ ss) = c_str s ∷ c_str_texts ss

-- `MSGetDevCurisePicReqBody_S`
pub record GetDevCurisePicReqBody : Type 0 where
  pub dev_sn_list : List (List ℕ)

unfoldable pub parse_get_dev_curise_pic_req : List ℕ → ℕ → Reader GetDevCurisePicReqBody
parse_get_dev_curise_pic_req pc_buffer i_size =
    settle (λ b. record b { dev_sn_list = c_str_texts b.dev_sn_list })
      (member (λ b. b.dev_sn_list) (λ v b. record b { dev_sn_list = v })
        (parse_texts pc_buffer i_size))

-- `DevCurPicData_S`
pub record DevCurPicData : Type 0 where
  pub s_sn : List ℕ
  pub s_pic_data : List ℕ

unfoldable pub pack_dev_cur_pic_data : DevCurPicData → Writer
pack_dev_cur_pic_data st_packet = pack_string st_packet.s_sn also pack_string st_packet.s_pic_data

unfoldable pub pack_dev_cur_pic_datas : List DevCurPicData → Writer
pack_dev_cur_pic_datas = pack_list pack_dev_cur_pic_data

-- `MSGetDevCurisePicRespBody_S`
pub record GetDevCurisePicRespBody : Type 0 where
  pub pic_data_list : List DevCurPicData

unfoldable pub pack_get_dev_curise_pic_resp : GetDevCurisePicRespBody → Writer
pack_get_dev_curise_pic_resp st_packet = pack_dev_cur_pic_datas st_packet.pic_data_list
