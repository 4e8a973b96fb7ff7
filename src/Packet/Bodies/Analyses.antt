-- ===== src/Packet/Bodies/Analyses.antt =====
-- The bodies of requests that add and delete private analyses and their alarm conditions.
use net_lib_wrapper.Prelude.{ℕ, List, [], ◌∷◌}
use net_lib_wrapper.Wire.Reader.{Reader, ◌then◌, member, parse_string, parse_map}
use net_lib_wrapper.Wire.Lists.{UintSet, parse_set}
use net_lib_wrapper.Packet.Bodies.Text.{c_str, settle}

-- The loop that cuts the texts of a map, each under the key that it stands under.
unfoldable pub c_str_map : List (ℕ × List ℕ) → List (ℕ × List ℕ)
c_str_map [] = []
c_str_map ((k, s) ∷ m) = (k, c_str s) ∷ c_str_map m

-- `MSAddPrivateAnalyseReqBody_S`
pub record AddPrivateAnalyseReqBody : Type 0 where
  pub s_sn : List ℕ
  pub str_ana_map : List (ℕ × List ℕ)

unfoldable pub parse_add_private_analyse_req : List ℕ → ℕ → Reader AddPrivateAnalyseReqBody
parse_add_private_analyse_req pc_buffer i_size =
    settle (λ b. record b { s_sn = c_str b.s_sn; str_ana_map = c_str_map b.str_ana_map })
      (member (λ b. b.s_sn) (λ v b. record b { s_sn = v }) (parse_string pc_buffer i_size)
        then member (λ b. b.str_ana_map) (λ v b. record b { str_ana_map = v })
            (parse_map pc_buffer i_size (parse_string pc_buffer i_size) []))

-- `MSDelPrivateAnalyseReqBody_S`
pub record DelPrivateAnalyseReqBody : Type 0 where
  pub s_sn : List ℕ
  pub ana_no_set : UintSet

unfoldable pub parse_del_private_analyse_req : List ℕ → ℕ → Reader DelPrivateAnalyseReqBody
parse_del_private_analyse_req pc_buffer i_size =
    member (λ b. b.s_sn) (λ v b. record b { s_sn = v }) (parse_string pc_buffer i_size)
    then member (λ b. b.ana_no_set) (λ v b. record b { ana_no_set = v })
        (parse_set pc_buffer i_size)

-- `MSAddPrivateAlarmConditionReqBody_S`
pub record AddPrivateAlarmConditionReqBody : Type 0 where
  pub s_sn : List ℕ
  pub str_condition_map : List (ℕ × List ℕ)

unfoldable pub parse_add_private_alarm_condition_req :
    List ℕ → ℕ → Reader AddPrivateAlarmConditionReqBody
parse_add_private_alarm_condition_req pc_buffer i_size =
    settle
      (λ b. record b { s_sn = c_str b.s_sn; str_condition_map = c_str_map b.str_condition_map })
      (member (λ b. b.s_sn) (λ v b. record b { s_sn = v }) (parse_string pc_buffer i_size)
        then member (λ b. b.str_condition_map) (λ v b. record b { str_condition_map = v })
            (parse_map pc_buffer i_size (parse_string pc_buffer i_size) []))

-- `MSDelPrivateAlarmConditionReqBody_S`
pub record DelPrivateAlarmConditionReqBody : Type 0 where
  pub s_sn : List ℕ
  pub ui_condition_set : UintSet

unfoldable pub parse_del_private_alarm_condition_req :
    List ℕ → ℕ → Reader DelPrivateAlarmConditionReqBody
parse_del_private_alarm_condition_req pc_buffer i_size =
    member (λ b. b.s_sn) (λ v b. record b { s_sn = v }) (parse_string pc_buffer i_size)
    then member (λ b. b.ui_condition_set) (λ v b. record b { ui_condition_set = v })
        (parse_set pc_buffer i_size)
