-- ===== src/Packet/Bodies/Secrets.antt =====
-- The answer to a query of accounts: a map from names to accounts.
use net_lib_wrapper.Prelude.{ℕ, ◌^◌, ◌%◌, ◌&&◌, List, length}
use net_lib_wrapper.Wire.Writer.{Writer, ◌also◌, pack_u32, pack_u64, pack_string, pack_map}
use net_lib_wrapper.Packet.Bodies.Alarms.{pack_values}

-- `UserSecret_S`, without the digest and the name of the father, which are not written.
pub record UserSecret : Type 0 where
  pub str_user_name : List ℕ
  pub i_user_premission : ℕ
  pub ul_out_group_premission : ℕ
  pub ui_group_premission : List (ℕ × ℕ)
  pub str_extend : List ℕ

unfoldable pub pack_user_secret : UserSecret → Writer
pack_user_secret st_packet =
    pack_string st_packet.str_user_name
    also pack_u32 st_packet.i_user_premission
    also pack_u64 st_packet.ul_out_group_premission
    also pack_map pack_u64 st_packet.ui_group_premission
    also pack_string st_packet.str_extend

-- The map of accounts. The copy that the loop makes, with the key as the name of an account that has
-- none, is not what it writes.
unfoldable pub pack_accounts : List (List ℕ × UserSecret) → Writer
pack_accounts map_packet buffer =
    let c = pack_u32 (length map_packet % 2 ^ 32) buffer in
    let rest = pack_values pack_user_secret map_packet c.1 in (c.0 && rest.0, rest.1)

-- `MSQueryAccountPremissionRespBody_S`
pub record QueryAccountPremissionRespBody : Type 0 where
  pub account : List (List ℕ × UserSecret)

unfoldable pub pack_query_account_premission_resp : QueryAccountPremissionRespBody → Writer
pack_query_account_premission_resp st_packet = pack_accounts st_packet.account
