-- ===== src/Frame/Parse.antt =====
-- comm-func.h: parse_data and parse_packet; and send_packet of net-handler.h.
use net_lib_wrapper.Prelude.{ℕ, zero, suc, ◌+◌, List, [], ◌∷◌, ltb, ◌==◌, if◌then◌else◌, take, drop}
use net_lib_wrapper.Wire.Endian.{ms_endian32, host_value}
use net_lib_wrapper.Wire.Reader.{Reader}
use net_lib_wrapper.Packet.Header.{empty_header, Packet, write_packet, read_packet}
use net_lib_wrapper.Packet.Login.{
  Null, VerReqBody, AuthReqBody, AuthRespBody, parse_null, parse_ver_req, parse_auth_req,
  parse_auth_resp, pack_ver_req, pack_auth_req,
}

-- IR_MONITOR_VER_NEGO_REQ, IR_MONITOR_VER_NEGO_RESP, IR_MONITOR_LINK_AUTH_REQ and
-- IR_MONITOR_LINK_AUTH_RESP.
abbrev pub ver_nego_req : ℕ
ver_nego_req = 1

abbrev pub ver_nego_resp : ℕ
ver_nego_resp = 1 + 0x8000

abbrev pub link_auth_req : ℕ
link_auth_req = 2

abbrev pub link_auth_resp : ℕ
link_auth_resp = 2 + 0x8000

-- `sizeof( PACKET )` for MsgHeader_S.
abbrev pub header_size : ℕ
header_size = 20

-- `pv_req`, by the packet's class.
pub data Message : Type 0 where
  ver_req : Packet VerReqBody → Message
  ver_resp : Packet Null → Message
  auth_req : Packet AuthReqBody → Message
  auth_resp : Packet AuthRespBody → Message

-- 0 with `pv_req`, -1 and CTRL_PRO_NOT_EXIST_ERROR.
pub data ParsedPacket : Type 0 where
  packet : Message → ParsedPacket
  broken unknown : ParsedPacket

-- `ui_total_len` with `pv_req`, 0, -1 and CTRL_PRO_NOT_EXIST_ERROR.
pub data ParsedData : Type 0 where
  message : ℕ → Message → ParsedData
  incomplete broken unknown : ParsedData

-- `ntohl` of the word at an offset.
unfoldable pub word_at : ℕ → List ℕ → ℕ
word_at i p_data = ms_endian32 (host_value (take 4 (drop i p_data)))

unfoldable pub parse_data_total_len : List ℕ → ℕ
parse_data_total_len p_data = word_at 8 p_data

-- One case of `parse_packet`: `new T()`, and read_packet into it.
unfoldable pub case_packet :
    {T : Type 0} → (Packet T → Message) → (List ℕ → ℕ → Reader T) → T → List ℕ → ℕ → ParsedPacket
case_packet make parse_body empty pc_buffer i_size =
    let r =
      read_packet parse_body pc_buffer i_size (record { header = empty_header; body = empty }) in
    if r.ok then packet (make r.value) else broken

abbrev pub new_ver_req : VerReqBody
new_ver_req = record { ui_major_ver = 0; ui_sub_ver = 0 }

abbrev pub zeros : ℕ → List ℕ
zeros zero = []
zeros (suc n) = 0 ∷ zeros n

abbrev pub new_auth_req : AuthReqBody
new_auth_req = record {
  ac_login_id = zeros 32;
  auc_digest = zeros 16;
  ui_time_stamp = 0;
  ui_rand = 0;
  ui_client_type = 0;
}

abbrev pub new_auth_resp : AuthRespBody
new_auth_resp = record {
  ui_client_id = 0;
  i_client_type = 0;
  ul_out_dev_premission = 0;
  ui_client_level_map = [];
  str_extend = [];
}

unfoldable pub parse_packet : List ℕ → ℕ → ParsedPacket
parse_packet pc_buffer i_size =
    let ui_msg_type = word_at 4 pc_buffer in
    if ui_msg_type == ver_nego_req
    then case_packet ver_req parse_ver_req new_ver_req pc_buffer i_size
    else if ui_msg_type == ver_nego_resp
    then case_packet ver_resp parse_null (record {}) pc_buffer i_size
    else if ui_msg_type == link_auth_req
    then case_packet auth_req parse_auth_req new_auth_req pc_buffer i_size
    else if ui_msg_type == link_auth_resp
    then case_packet auth_resp parse_auth_resp new_auth_resp pc_buffer i_size
    else unknown

abbrev pub data_result : ℕ → ParsedPacket → ParsedData
data_result ui_total_len (packet m) = message ui_total_len m
data_result ui_total_len broken = broken
data_result ui_total_len unknown = unknown

-- `p_data` points to the data and what memory holds after it; `ui_len` is how much of it is data.
-- The two lengths are compared as unsigned numbers. `ui_total_len` and the result are an INT32 and an
-- int: for a message of less than 2 ^ 31 bytes neither is negative.
unfoldable pub parse_data : List ℕ → ℕ → ParsedData
parse_data p_data ui_len =
    let ui_total_len = parse_data_total_len p_data in
    if ltb ui_len header_size
    then incomplete
    else if ltb ui_len ui_total_len
    then incomplete
    else data_result ui_total_len (parse_packet p_data ui_total_len)

-- What `send_packet` hands to ms_tcp_send, if anything.
unfoldable pub send_packet : Message → List (List ℕ)
send_packet (ver_req p) =
    if p.header.msg_type == ver_nego_req then (write_packet pack_ver_req p []).1 ∷ [] else []
send_packet (auth_req p) =
    if p.header.msg_type == link_auth_req then (write_packet pack_auth_req p []).1 ∷ [] else []
send_packet (ver_resp p) = []
send_packet (auth_resp p) = []
