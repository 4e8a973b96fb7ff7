-- ===== src/Packet/Bodies/Temperatures.antt =====
-- The bodies of packets with members of type float, which stand here as words of 32 bits.
use net_lib_wrapper.Prelude.{ℕ, List}
use net_lib_wrapper.Wire.Reader.{Reader, ◌then◌, parse_u16, parse_u32, parse_f32, member}
use net_lib_wrapper.Wire.Writer.{Writer, ◌also◌, pack_u16, pack_u32, pack_f32}

-- `MSSetRecordConditionReqBody_S`
pub record SetRecordConditionReqBody : Type 0 where
  pub ui_group : ℕ
  pub us_slide : ℕ
  pub us_ptz : ℕ
  pub ui_record_time_interval : ℕ
  pub ft_max_temp_interval : ℕ
  pub ft_max_temp : ℕ

unfoldable pub parse_set_record_condition_req : List ℕ → ℕ → Reader SetRecordConditionReqBody
parse_set_record_condition_req pc_buffer i_size =
    member (λ b. b.ui_group) (λ v b. record b { ui_group = v }) (parse_u32 pc_buffer i_size)
    then member (λ b. b.us_slide) (λ v b. record b { us_slide = v }) (parse_u16 pc_buffer i_size)
    then member (λ b. b.us_ptz) (λ v b. record b { us_ptz = v }) (parse_u16 pc_buffer i_size)
    then member (λ b. b.ui_record_time_interval) (λ v b. record b { ui_record_time_interval = v })
        (parse_u32 pc_buffer i_size)
    then member (λ b. b.ft_max_temp_interval) (λ v b. record b { ft_max_temp_interval = v })
        (parse_f32 pc_buffer i_size)
    then member (λ b. b.ft_max_temp) (λ v b. record b { ft_max_temp = v })
        (parse_f32 pc_buffer i_size)

-- `MSGetRecordConditionRespBody_S`
pub record GetRecordConditionRespBody : Type 0 where
  pub ui_group : ℕ
  pub us_slide : ℕ
  pub us_ptz : ℕ
  pub ui_record_time_interval : ℕ
  pub ft_max_temp_interval : ℕ
  pub ft_max_temp : ℕ

unfoldable pub pack_get_record_condition_resp : GetRecordConditionRespBody → Writer
pack_get_record_condition_resp st_packet =
    pack_u32 st_packet.ui_group
    also pack_u16 st_packet.us_slide
    also pack_u16 st_packet.us_ptz
    also pack_u32 st_packet.ui_record_time_interval
    also pack_f32 st_packet.ft_max_temp_interval
    also pack_f32 st_packet.ft_max_temp

-- `MSPicSetRadiationReqBody_S`
pub record PicSetRadiationReqBody : Type 0 where
  pub ui_group : ℕ
  pub f_radiation : ℕ

unfoldable pub parse_pic_set_radiation_req : List ℕ → ℕ → Reader PicSetRadiationReqBody
parse_pic_set_radiation_req pc_buffer i_size =
    member (λ b. b.ui_group) (λ v b. record b { ui_group = v }) (parse_u32 pc_buffer i_size)
    then member (λ b. b.f_radiation) (λ v b. record b { f_radiation = v })
        (parse_f32 pc_buffer i_size)

-- `MSPicSetDistanceReqBody_S`
pub record PicSetDistanceReqBody : Type 0 where
  pub ui_group : ℕ
  pub f_distance : ℕ

unfoldable pub parse_pic_set_distance_req : List ℕ → ℕ → Reader PicSetDistanceReqBody
parse_pic_set_distance_req pc_buffer i_size =
    member (λ b. b.ui_group) (λ v b. record b { ui_group = v }) (parse_u32 pc_buffer i_size)
    then member (λ b. b.f_distance) (λ v b. record b { f_distance = v })
        (parse_f32 pc_buffer i_size)

-- `MSPicSetEnvTempReqBody_S`
pub record PicSetEnvTempReqBody : Type 0 where
  pub ui_group : ℕ
  pub f_envtemp : ℕ

unfoldable pub parse_pic_set_env_temp_req : List ℕ → ℕ → Reader PicSetEnvTempReqBody
parse_pic_set_env_temp_req pc_buffer i_size =
    member (λ b. b.ui_group) (λ v b. record b { ui_group = v }) (parse_u32 pc_buffer i_size)
    then member (λ b. b.f_envtemp) (λ v b. record b { f_envtemp = v }) (parse_f32 pc_buffer i_size)

-- `MSPicSetOppohiteHumidityReqBody_S`
pub record PicSetOppohiteHumidityReqBody : Type 0 where
  pub ui_group : ℕ
  pub f_humidity : ℕ

unfoldable pub parse_pic_set_oppohite_humidity_req :
    List ℕ → ℕ → Reader PicSetOppohiteHumidityReqBody
parse_pic_set_oppohite_humidity_req pc_buffer i_size =
    member (λ b. b.ui_group) (λ v b. record b { ui_group = v }) (parse_u32 pc_buffer i_size)
    then member (λ b. b.f_humidity) (λ v b. record b { f_humidity = v })
        (parse_f32 pc_buffer i_size)

-- `MSPicGetRadiationRespBody_S`
pub record PicGetRadiationRespBody : Type 0 where
  pub f_radiation : ℕ

unfoldable pub pack_pic_get_radiation_resp : PicGetRadiationRespBody → Writer
pack_pic_get_radiation_resp st_packet = pack_f32 st_packet.f_radiation

-- `MSPicGetDistanceRespBody_S`
pub record PicGetDistanceRespBody : Type 0 where
  pub f_distance : ℕ

unfoldable pub pack_pic_get_distance_resp : PicGetDistanceRespBody → Writer
pack_pic_get_distance_resp st_packet = pack_f32 st_packet.f_distance

-- `MSPicGetEnvTempRespBody_S`
pub record PicGetEnvTempRespBody : Type 0 where
  pub f_envtemp : ℕ

unfoldable pub pack_pic_get_env_temp_resp : PicGetEnvTempRespBody → Writer
pack_pic_get_env_temp_resp st_packet = pack_f32 st_packet.f_envtemp

-- `MSPicGetOppohiteHumidityRespBody_S`
pub record PicGetOppohiteHumidityRespBody : Type 0 where
  pub f_humidity : ℕ

unfoldable pub pack_pic_get_oppohite_humidity_resp : PicGetOppohiteHumidityRespBody → Writer
pack_pic_get_oppohite_humidity_resp st_packet = pack_f32 st_packet.f_humidity
