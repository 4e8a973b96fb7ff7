-- ===== src/Packet/Bodies/Settings.antt =====
-- The bodies of packets that set groups, replay and cruises, and the heartbeat. A text that a
-- request carries ends at its first zero byte once the request is read.
use net_lib_wrapper.Prelude.{ℕ, List}
use net_lib_wrapper.Wire.Reader.{Reader, ◌then◌, parse_u32, parse_string, member}
use net_lib_wrapper.Wire.Writer.{Writer, ◌also◌, pack_u32}
use net_lib_wrapper.Packet.Bodies.Text.{c_str, settle}

-- `MSHeartReqBody_S`
pub record HeartReqBody : Type 0 where
  pub ui_client_id : ℕ

unfoldable pub parse_heart_req : List ℕ → ℕ → Reader HeartReqBody
parse_heart_req pc_buffer i_size =
    member (λ b. b.ui_client_id) (λ v b. record b { ui_client_id = v }) (parse_u32 pc_buffer i_size)

-- `MSXMLReqBody_S`
pub record XmlReqBody : Type 0 where
  pub ui_client_id : ℕ

unfoldable pub parse_xml_req : List ℕ → ℕ → Reader XmlReqBody
parse_xml_req pc_buffer i_size =
    member (λ b. b.ui_client_id) (λ v b. record b { ui_client_id = v }) (parse_u32 pc_buffer i_size)

-- `MSReplaySetNumReqBody_S`
pub record ReplaySetNumReqBody : Type 0 where
  pub ui_num : ℕ

unfoldable pub parse_replay_set_num_req : List ℕ → ℕ → Reader ReplaySetNumReqBody
parse_replay_set_num_req pc_buffer i_size =
    member (λ b. b.ui_num) (λ v b. record b { ui_num = v }) (parse_u32 pc_buffer i_size)

-- `MSReserveHardCapacityReqBody_S`
pub record ReserveHardCapacityReqBody : Type 0 where
  pub ui_capacity : ℕ

unfoldable pub parse_reserve_hard_capacity_req : List ℕ → ℕ → Reader ReserveHardCapacityReqBody
parse_reserve_hard_capacity_req pc_buffer i_size =
    member (λ b. b.ui_capacity) (λ v b. record b { ui_capacity = v }) (parse_u32 pc_buffer i_size)

-- `MSGroupCfgAddReqBody_S`
pub record GroupCfgAddReqBody : Type 0 where
  pub ui_num : ℕ
  pub s_members : List ℕ
  pub s_alias : List ℕ

unfoldable pub parse_group_cfg_add_req : List ℕ → ℕ → Reader GroupCfgAddReqBody
parse_group_cfg_add_req pc_buffer i_size =
    settle (λ b. record b { s_members = c_str b.s_members; s_alias = c_str b.s_alias })
      (member (λ b. b.ui_num) (λ v b. record b { ui_num = v }) (parse_u32 pc_buffer i_size)
        then member (λ b. b.s_members) (λ v b. record b { s_members = v })
            (parse_string pc_buffer i_size)
        then member (λ b. b.s_alias) (λ v b. record b { s_alias = v })
            (parse_string pc_buffer i_size))

-- `MSGroupCfgAddRespBody_S`
pub record GroupCfgAddRespBody : Type 0 where
  pub ui_id : ℕ

unfoldable pub pack_group_cfg_add_resp : GroupCfgAddRespBody → Writer
pack_group_cfg_add_resp st_packet = pack_u32 st_packet.ui_id

-- `MSGroupCfgDelReqBody_S`
pub record GroupCfgDelReqBody : Type 0 where
  pub ui_id : ℕ

unfoldable pub parse_group_cfg_del_req : List ℕ → ℕ → Reader GroupCfgDelReqBody
parse_group_cfg_del_req pc_buffer i_size =
    member (λ b. b.ui_id) (λ v b. record b { ui_id = v }) (parse_u32 pc_buffer i_size)

-- `MSGroupCfgChgReqBody_S`
pub record GroupCfgChgReqBody : Type 0 where
  pub ui_id : ℕ
  pub ui_num : ℕ
  pub s_members : List ℕ
  pub s_alias : List ℕ

unfoldable pub parse_group_cfg_chg_req : List ℕ → ℕ → Reader GroupCfgChgReqBody
parse_group_cfg_chg_req pc_buffer i_size =
    settle (λ b. record b { s_members = c_str b.s_members; s_alias = c_str b.s_alias })
      (member (λ b. b.ui_id) (λ v b. record b { ui_id = v }) (parse_u32 pc_buffer i_size)
        then member (λ b. b.ui_num) (λ v b. record b { ui_num = v }) (parse_u32 pc_buffer i_size)
        then member (λ b. b.s_members) (λ v b. record b { s_members = v })
            (parse_string pc_buffer i_size)
        then member (λ b. b.s_alias) (λ v b. record b { s_alias = v })
            (parse_string pc_buffer i_size))

-- `MSSetCruiseRestartFlagReqBody_S`
pub record SetCruiseRestartFlagReqBody : Type 0 where
  pub ui_group : ℕ
  pub ui_restart_flag : ℕ
  pub ui_time : ℕ

unfoldable pub parse_set_cruise_restart_flag_req : List ℕ → ℕ → Reader SetCruiseRestartFlagReqBody
parse_set_cruise_restart_flag_req pc_buffer i_size =
    member (λ b. b.ui_group) (λ v b. record b { ui_group = v }) (parse_u32 pc_buffer i_size)
    then member (λ b. b.ui_restart_flag) (λ v b. record b { ui_restart_flag = v })
        (parse_u32 pc_buffer i_size)
    then member (λ b. b.ui_time) (λ v b. record b { ui_time = v }) (parse_u32 pc_buffer i_size)

-- `MSGetCruiseRestartFlagReqBody_S`
pub record GetCruiseRestartFlagReqBody : Type 0 where
  pub ui_group : ℕ

unfoldable pub parse_get_cruise_restart_flag_req : List ℕ → ℕ → Reader GetCruiseRestartFlagReqBody
parse_get_cruise_restart_flag_req pc_buffer i_size =
    member (λ b. b.ui_group) (λ v b. record b { ui_group = v }) (parse_u32 pc_buffer i_size)

-- `MSGetCruiseRestartFlagRespBody_S`
pub record GetCruiseRestartFlagRespBody : Type 0 where
  pub ui_restart_flag : ℕ
  pub ui_time : ℕ

unfoldable pub pack_get_cruise_restart_flag_resp : GetCruiseRestartFlagRespBody → Writer
pack_get_cruise_restart_flag_resp st_packet =
    pack_u32 st_packet.ui_restart_flag also pack_u32 st_packet.ui_time
