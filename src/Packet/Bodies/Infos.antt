-- ===== src/Packet/Bodies/Infos.antt =====
-- The answer with the devices and what is known about each.
use net_lib_wrapper.Prelude.{ℕ, List}
use net_lib_wrapper.Wire.Writer.{Writer, ◌also◌, pack_u32, pack_f32, pack_string}
use net_lib_wrapper.Wire.Lists.{pack_list}

-- `DevDataInfo_S`, without the owner, which is not written.
pub record DevDataInfo : Type 0 where
  pub str_dev_name : List ℕ
  pub ui_dev_type : ℕ
  pub str_dev_manufacturers : List ℕ
  pub str_dev_model : List ℕ
  pub str_dev_administrative_area : List ℕ
  pub str_precinct : List ℕ
  pub str_dev_install_address : List ℕ
  pub ui_sub_dev : ℕ
  pub ui_singal_safe_mode : ℕ
  pub ui_registry_mode : ℕ
  pub str_certificate_serial_num : List ℕ
  pub ui_certificate_valid : ℕ
  pub ui_invalid_reason_code : ℕ
  pub str_certificate_termination_valid : List ℕ
  pub ui_confidentiality_properties : ℕ
  pub str_ip_address : List ℕ
  pub ui_port : ℕ
  pub str_dev_pwd : List ℕ
  pub ui_dev_stat : ℕ
  pub f_longitude : ℕ
  pub f_latitude : ℕ
  pub str_dev_firmware_version : List ℕ
  pub ui_vid_input_num : ℕ

unfoldable pub pack_dev_data_info : DevDataInfo → Writer
pack_dev_data_info st_packet =
    pack_string st_packet.str_dev_name
    also pack_u32 st_packet.ui_dev_type
    also pack_string st_packet.str_dev_manufacturers
    also pack_string st_packet.str_dev_model
    also pack_string st_packet.str_dev_administrative_area
    also pack_string st_packet.str_precinct
    also pack_string st_packet.str_dev_install_address
    also pack_u32 st_packet.ui_sub_dev
    also pack_u32 st_packet.ui_singal_safe_mode
    also pack_u32 st_packet.ui_registry_mode
    also pack_string st_packet.str_certificate_serial_num
    also pack_u32 st_packet.ui_certificate_valid
    also pack_u32 st_packet.ui_invalid_reason_code
    also pack_string st_packet.str_certificate_termination_valid
    also pack_u32 st_packet.ui_confidentiality_properties
    also pack_string st_packet.str_ip_address
    also pack_u32 st_packet.ui_port
    also pack_string st_packet.str_dev_pwd
    also pack_u32 st_packet.ui_dev_stat
    also pack_f32 st_packet.f_longitude
    also pack_f32 st_packet.f_latitude
    also pack_string st_packet.str_dev_firmware_version
    also pack_u32 st_packet.ui_vid_input_num

unfoldable pub pack_dev_data_infos : List DevDataInfo → Writer
pack_dev_data_infos = pack_list pack_dev_data_info

-- `MSQueryDevInfoRespBody_S`
pub record QueryDevInfoRespBody : Type 0 where
  pub dev_data_list : List DevDataInfo

unfoldable pub pack_query_dev_info_resp : QueryDevInfoRespBody → Writer
pack_query_dev_info_resp st_packet = pack_dev_data_infos st_packet.dev_data_list
