-- ===== src/Packet/Login.antt =====
-- The bodies of the packets of the handshake.
pub mod Trips
use net_lib_wrapper.Prelude.{ℕ, Bool, true, List, [], length}
use net_lib_wrapper.Wire.Reader.{
  Parsed, Reader, ◌then◌, member, parse_u32, parse_u64, parse_bytes, parse_string, parse_map,
}
use net_lib_wrapper.Wire.Writer.{
  Writer, ◌also◌, pack_u32, pack_u64, pack_bytes, pack_string, pack_map,
}

-- `MSNULL_S`
pub record Null : Type 0 where

unfoldable pub parse_null : List ℕ → ℕ → Reader Null
parse_null pc_buffer i_size i old = record { ok = true; i_offset = i; value = old }

unfoldable pub pack_null : Null → Writer
pack_null st_packet buffer = (true, buffer)

-- `MSVerReqBody_S`
pub record VerReqBody : Type 0 where
  pub ui_major_ver : ℕ
  pub ui_sub_ver : ℕ

unfoldable pub parse_ver_req : List ℕ → ℕ → Reader VerReqBody
parse_ver_req pc_buffer i_size =
    member (λ b. b.ui_major_ver) (λ v b. record b { ui_major_ver = v }) (parse_u32 pc_buffer i_size)
    then member (λ b. b.ui_sub_ver) (λ v b. record b { ui_sub_ver = v })
        (parse_u32 pc_buffer i_size)

unfoldable pub pack_ver_req : VerReqBody → Writer
pack_ver_req st_packet = pack_u32 st_packet.ui_major_ver also pack_u32 st_packet.ui_sub_ver

-- `MSAuthReqBody_S`: the two arrays have 32 and 16 bytes.
pub record AuthReqBody : Type 0 where
  pub ac_login_id : List ℕ
  pub auc_digest : List ℕ
  pub ui_time_stamp : ℕ
  pub ui_rand : ℕ
  pub ui_client_type : ℕ

unfoldable pub parse_auth_req : List ℕ → ℕ → Reader AuthReqBody
parse_auth_req pc_buffer i_size =
    member (λ b. b.ac_login_id) (λ v b. record b { ac_login_id = v })
      (parse_bytes pc_buffer i_size 32)
    then member (λ b. b.auc_digest) (λ v b. record b { auc_digest = v })
        (parse_bytes pc_buffer i_size 16)
    then member (λ b. b.ui_time_stamp) (λ v b. record b { ui_time_stamp = v })
        (parse_u32 pc_buffer i_size)
    then member (λ b. b.ui_rand) (λ v b. record b { ui_rand = v }) (parse_u32 pc_buffer i_size)
    then member (λ b. b.ui_client_type) (λ v b. record b { ui_client_type = v })
        (parse_u32 pc_buffer i_size)

unfoldable pub pack_auth_req : AuthReqBody → Writer
pack_auth_req st_packet =
    pack_bytes st_packet.ac_login_id 32
    also pack_bytes st_packet.auc_digest 16
    also pack_u32 st_packet.ui_time_stamp
    also pack_u32 st_packet.ui_rand
    also pack_u32 st_packet.ui_client_type

-- `MSAuthRespBody_S`. `i_client_type`, an INT32, as its 32 bits.
pub record AuthRespBody : Type 0 where
  pub ui_client_id : ℕ
  pub i_client_type : ℕ
  pub ul_out_dev_premission : ℕ
  pub ui_client_level_map : List (ℕ × ℕ)
  pub str_extend : List ℕ

unfoldable pub parse_auth_resp : List ℕ → ℕ → Reader AuthRespBody
parse_auth_resp pc_buffer i_size =
    member (λ b. b.ui_client_id) (λ v b. record b { ui_client_id = v }) (parse_u32 pc_buffer i_size)
    then member (λ b. b.i_client_type) (λ v b. record b { i_client_type = v })
        (parse_u32 pc_buffer i_size)
    then member (λ b. b.ul_out_dev_premission) (λ v b. record b { ul_out_dev_premission = v })
        (parse_u64 pc_buffer i_size)
    then member (λ b. b.ui_client_level_map) (λ v b. record b { ui_client_level_map = v })
        (parse_map pc_buffer i_size (parse_u64 pc_buffer i_size) 0)
    then member (λ b. b.str_extend) (λ v b. record b { str_extend = v })
        (parse_string pc_buffer i_size)

unfoldable pub pack_auth_resp : AuthRespBody → Writer
pack_auth_resp st_packet =
    pack_u32 st_packet.ui_client_id
    also pack_u32 st_packet.i_client_type
    also pack_u64 st_packet.ul_out_dev_premission
    also pack_map pack_u64 st_packet.ui_client_level_map
    also pack_string st_packet.str_extend
