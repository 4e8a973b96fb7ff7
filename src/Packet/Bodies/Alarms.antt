-- ===== src/Packet/Bodies/Alarms.antt =====
-- The bodies of packets about alarm conditions and the pictures of alarms.
use net_lib_wrapper.Prelude.{ℕ, zero, ◌^◌, ◌%◌, Bool, true, ◌&&◌, List, [], ◌∷◌, ◌++◌, leb, length}
use net_lib_wrapper.Wire.Reader.{Reader, ◌then◌, member, parse_bytes, parse_u16, parse_u32}
use net_lib_wrapper.Wire.Writer.{Writer, ◌also◌, pack_u32, pack_string}
use net_lib_wrapper.Wire.Lists.{UintSet, parse_set, pack_set, pack_array}

-- `push_back( '\0' )`
unfoldable pub zero_ended : List ℕ → List ℕ
zero_ended s = s ++ (zero ∷ [])

-- `&& c` between two calls that write.
unfoldable pub require : Bool → Writer
require c buffer = (c, buffer)

-- `AlarmConditionInfo_S`
pub record AlarmConditionInfo : Type 0 where
  pub ui_alarm_no : ℕ
  pub str_alias : List ℕ
  pub str_alarm_condition : List ℕ

unfoldable pub pack_alarm_condition_info : AlarmConditionInfo → Writer
unfolding zero_ended
pack_alarm_condition_info st_packet =
    pack_u32 st_packet.ui_alarm_no
    also pack_string (zero_ended st_packet.str_alias)
    also pack_string (zero_ended st_packet.str_alarm_condition)

-- The loop over the values of a map, in the order of their keys, which are not written: `b_ret &=`
-- makes every call.
unfoldable pub pack_values : {K V : Type 0} → (V → Writer) → List (K × V) → Writer
pack_values pack [] buffer = (true, buffer)
pack_values pack ((k, v) ∷ m) buffer =
    let a = pack v buffer in let rest = pack_values pack m a.1 in (a.0 && rest.0, rest.1)

unfoldable pub pack_alarm_conditions : List (ℕ × AlarmConditionInfo) → Writer
unfolding pack_values
pack_alarm_conditions map_packet buffer =
    let c = pack_u32 (length map_packet % 2 ^ 32) buffer in
    let rest = pack_values pack_alarm_condition_info map_packet c.1 in (c.0 && rest.0, rest.1)

-- `MSGetAlarmConditionRespBody_S`
pub record GetAlarmConditionRespBody : Type 0 where
  pub alarm_condition_map : List (ℕ × AlarmConditionInfo)

unfoldable pub pack_get_alarm_condition_resp : GetAlarmConditionRespBody → Writer
pack_get_alarm_condition_resp st_packet = pack_alarm_conditions st_packet.alarm_condition_map

abbrev pub time_len : ℕ
time_len = 14

-- `MSAlarmPicListReqBody_S`
pub record AlarmPicListReqBody : Type 0 where
  pub ui_group : ℕ
  pub us_slide : ℕ
  pub us_ptz : ℕ
  pub ac_begin : List ℕ
  pub ac_end : List ℕ
  pub ui_alarm_no_list : UintSet

unfoldable pub parse_alarm_pic_list_req : List ℕ → ℕ → Reader AlarmPicListReqBody
parse_alarm_pic_list_req pc_buffer i_size =
    member (λ b. b.ui_group) (λ v b. record b { ui_group = v }) (parse_u32 pc_buffer i_size)
    then member (λ b. b.us_slide) (λ v b. record b { us_slide = v }) (parse_u16 pc_buffer i_size)
    then member (λ b. b.us_ptz) (λ v b. record b { us_ptz = v }) (parse_u16 pc_buffer i_size)
    then member (λ b. b.ac_begin) (λ v b. record b { ac_begin = v })
        (parse_bytes pc_buffer i_size time_len)
    then member (λ b. b.ac_end) (λ v b. record b { ac_end = v })
        (parse_bytes pc_buffer i_size time_len)
    then member (λ b. b.ui_alarm_no_list) (λ v b. record b { ui_alarm_no_list = v })
        (parse_set pc_buffer i_size)

-- `AlarmReasonKey_S`
pub record AlarmReasonKey : Type 0 where
  pub ui_sec : ℕ
  pub ui_msec : ℕ

unfoldable pub pack_alarm_reason_key : AlarmReasonKey → Writer
pack_alarm_reason_key st_packet = pack_u32 st_packet.ui_sec also pack_u32 st_packet.ui_msec

-- The loop over the reasons of alarms, in the order of AlarmReasonCmp_S.
unfoldable pub pack_alarm_reasons : List (AlarmReasonKey × UintSet) → Writer
pack_alarm_reasons [] buffer = (true, buffer)
pack_alarm_reasons ((k, s) ∷ m) buffer =
    let a = pack_alarm_reason_key k buffer in
    let b = pack_set s a.1 in let rest = pack_alarm_reasons m b.1 in (a.0 && b.0 && rest.0, rest.1)

-- `MSAlarmPicListRespBody_S`
pub record AlarmPicListRespBody : Type 0 where
  pub alarm_reason : List (AlarmReasonKey × UintSet)

unfoldable pub pack_alarm_pic_list_resp : AlarmPicListRespBody → Writer
unfolding pack_alarm_reasons
pack_alarm_pic_list_resp st_packet buffer =
    let c = pack_u32 (length st_packet.alarm_reason % 2 ^ 32) buffer in
    let rest = pack_alarm_reasons st_packet.alarm_reason c.1 in (c.0 && rest.0, rest.1)

-- `MSAlarmPic_S`
pub record AlarmPic : Type 0 where
  pub ui_pic_class : ℕ
  pub pic_data : List ℕ

unfoldable pub pack_alarm_pic : AlarmPic → Writer
pack_alarm_pic st_packet = pack_u32 st_packet.ui_pic_class also pack_string st_packet.pic_data

-- One infrared device and one for visible light.
abbrev pub device_count : ℕ
device_count = 2

-- `MSAlarmPicGetRespBody_S`
pub record AlarmPicGetRespBody : Type 0 where
  pub ui_num : ℕ
  pub ast_alarm_pic : List AlarmPic

unfoldable pub pack_alarm_pic_get_resp : AlarmPicGetRespBody → Writer
unfolding require
pack_alarm_pic_get_resp st_packet =
    pack_u32 st_packet.ui_num
    also require (leb st_packet.ui_num device_count)
    also pack_array pack_alarm_pic st_packet.ast_alarm_pic st_packet.ui_num
