-- ===== src/Packet/Bodies/Listed.antt =====
-- The bodies of packets that carry lists of structures.
use net_lib_wrapper.Prelude.{ℕ, ◌+◌, ◌^◌, ◌%◌, List, leb, if◌then◌else◌}
use net_lib_wrapper.Wire.Reader.{Reader, ◌then◌, member, parse_u32, parse_string}
use net_lib_wrapper.Wire.Writer.{Writer, ◌also◌, pack_u16, pack_u32, pack_string, pack_bytes}
use net_lib_wrapper.Wire.Lists.{pack_list}
use net_lib_wrapper.Packet.Bodies.Accounts.{check, parse_front}
use net_lib_wrapper.Packet.Bodies.Alarms.{zero_ended, require}

-- `EPicInfo_S`
pub record EPicInfo : Type 0 where
  pub ui_pic_id : ℕ
  pub s_pic_cname : List ℕ

unfoldable pub pack_e_pic_info : EPicInfo → Writer
pack_e_pic_info st_packet = pack_u32 st_packet.ui_pic_id also pack_string st_packet.s_pic_cname

unfoldable pub pack_e_pic_infos : List EPicInfo → Writer
pack_e_pic_infos = pack_list pack_e_pic_info

-- `MSGetEPicListRespBody_S`
pub record GetEPicListRespBody : Type 0 where
  pub e_pic_info_list : List EPicInfo

unfoldable pub pack_get_e_pic_list_resp : GetEPicListRespBody → Writer
pack_get_e_pic_list_resp st_packet = pack_e_pic_infos st_packet.e_pic_info_list

-- `EPicData_S`, whose bytes are not written.
pub record EPicData : Type 0 where
  pub ui_data_len : ℕ

unfoldable pub pack_e_pic_data : EPicData → Writer
pack_e_pic_data st_packet = pack_u32 st_packet.ui_data_len

abbrev pub pic_name_len : ℕ
pic_name_len = 128

-- `MSSetEPicReqBody_S`
pub record SetEPicReqBody : Type 0 where
  pub ui_pic_id : ℕ
  pub ui_pic_cname_len : ℕ
  pub ac_pic_cname : List ℕ
  pub s_pic_data : List ℕ

-- The sum of the test on the length is a UINT32.
unfoldable pub parse_set_e_pic_req : List ℕ → ℕ → Reader SetEPicReqBody
parse_set_e_pic_req pc_buffer i_size =
    member (λ b. b.ui_pic_id) (λ v b. record b { ui_pic_id = v }) (parse_u32 pc_buffer i_size)
    then member (λ b. b.ui_pic_cname_len) (λ v b. record b { ui_pic_cname_len = v })
        (parse_u32 pc_buffer i_size)
    then check (λ b. leb ((b.ui_pic_cname_len + 1) % 2 ^ 32) pic_name_len)
    then (λ i b.
        member (λ b. b.ac_pic_cname) (λ v b. record b { ac_pic_cname = v })
          (parse_front pc_buffer i_size b.ui_pic_cname_len) i b)
    then member (λ b. b.s_pic_data) (λ v b. record b { s_pic_data = v })
        (parse_string pc_buffer i_size)

-- `RecordAnalyseInfo`
pub record RecordAnalyseInfo : Type 0 where
  pub ui_ana_no : ℕ
  pub ananame : List ℕ
  pub analyse : List ℕ

unfoldable pub pack_record_analyse_info : RecordAnalyseInfo → Writer
unfolding zero_ended
pack_record_analyse_info st_packet =
    pack_u32 st_packet.ui_ana_no
    also pack_string (zero_ended st_packet.ananame)
    also pack_string (zero_ended st_packet.analyse)

unfoldable pub pack_record_analyse_infos : List RecordAnalyseInfo → Writer
pack_record_analyse_infos = pack_list pack_record_analyse_info

-- `RecordPresetInfo`, without the members that are not written.
pub record RecordPresetInfo : Type 0 where
  pub alias : List ℕ
  pub slide : ℕ
  pub ptz : ℕ
  pub analyseinfo_list : List RecordAnalyseInfo

unfoldable pub pack_record_preset_info : RecordPresetInfo → Writer
unfolding zero_ended
pack_record_preset_info st_packet =
    pack_u16 st_packet.slide
    also pack_u16 st_packet.ptz
    also pack_string (zero_ended st_packet.alias)
    also pack_record_analyse_infos st_packet.analyseinfo_list

unfoldable pub pack_record_preset_infos : List RecordPresetInfo → Writer
pack_record_preset_infos = pack_list pack_record_preset_info

-- `MSGetPresetInfoRespBody_S`
pub record GetPresetInfoRespBody : Type 0 where
  pub preset_list : List RecordPresetInfo

unfoldable pub pack_get_preset_info_resp : GetPresetInfoRespBody → Writer
pack_get_preset_info_resp st_packet = pack_record_preset_infos st_packet.preset_list

-- `GroupCruisePreset`, whose members are INT32, here as words of 32 bits.
pub record GroupCruisePreset : Type 0 where
  pub slide_preset : ℕ
  pub ptz_preset : ℕ
  pub x_coordinate : ℕ
  pub y_coordinate : ℕ

unfoldable pub pack_group_cruise_preset : GroupCruisePreset → Writer
pack_group_cruise_preset st_packet =
    pack_u16 (st_packet.slide_preset % 2 ^ 16)
    also pack_u16 (st_packet.ptz_preset % 2 ^ 16)
    also pack_u16 (st_packet.x_coordinate % 2 ^ 16)
    also pack_u16 (st_packet.y_coordinate % 2 ^ 16)

unfoldable pub pack_group_cruise_presets : List GroupCruisePreset → Writer
pack_group_cruise_presets = pack_list pack_group_cruise_preset

abbrev pub max_pic_len : ℕ
max_pic_len = 10485760

-- `MSGetPicRespBody_S`
pub record GetPicRespBody : Type 0 where
  pub preset : List GroupCruisePreset
  pub pic_len : ℕ
  pub pic : List ℕ

unfoldable pub pack_get_pic_resp : GetPicRespBody → Writer
pack_get_pic_resp st_packet =
    pack_group_cruise_presets st_packet.preset
    also require (leb st_packet.pic_len max_pic_len)
    also pack_bytes st_packet.pic st_packet.pic_len

-- `PresetAnaFileInfo_S`, without the members that are not written.
pub record PresetAnaFileInfo : Type 0 where
  pub ui_start_time_res : ℕ
  pub str_file_data_res : List ℕ

unfoldable pub pack_preset_ana_file_info : PresetAnaFileInfo → Writer
pack_preset_ana_file_info st_packet =
    pack_u32 st_packet.ui_start_time_res also pack_string st_packet.str_file_data_res

unfoldable pub pack_preset_ana_file_infos : List PresetAnaFileInfo → Writer
pack_preset_ana_file_infos = pack_list pack_preset_ana_file_info

-- `MSGetAllAnaRespBody_S`
pub record GetAllAnaRespBody : Type 0 where
  pub preset_ana_file_list : List PresetAnaFileInfo

unfoldable pub pack_get_all_ana_resp : GetAllAnaRespBody → Writer
pack_get_all_ana_resp st_packet = pack_preset_ana_file_infos st_packet.preset_ana_file_list
