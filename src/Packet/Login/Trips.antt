-- ===== src/Packet/Login/Trips.antt =====
-- Round trips of the packets of the handshake.
use net_lib_wrapper.Prelude.{ℕ, ◌+◌, ◌^◌, ◌≤◌, ◌<◌, ◌≡◌, true, List, [], ◌++◌, length, arith}
use net_lib_wrapper.Wire.Reader.{parse_u32, parse_u64, parse_bytes, parse_string, parse_map}
use net_lib_wrapper.Wire.Writer.{pack_u64}
use net_lib_wrapper.Wire.RoundTrip.{
  parsed, Writes, Reads, then-Reads, member-Reads, also-Writes, pack_bytes-Writes,
  parse_bytes-Reads,
}
use net_lib_wrapper.Wire.Containers.{
  u32_bytes, u64_bytes, string_bytes, map_bytes, pack_u32-Writes, pack_u64-Writes, parse_u32-Reads,
  parse_u64-Reads, pack_string-Writes, parse_string-Reads,
}
use net_lib_wrapper.Wire.Maps.{IsMap, pack_map-Writes, parse_map-Reads}
use net_lib_wrapper.Wire.Bounds.{
  Stays, then-Stays, member-Stays, parse_u32-Stays, parse_u64-Stays, parse_string-Stays,
  parse_map-Stays,
}
use net_lib_wrapper.Packet.Header.{MsgHeader, Packet, write_packet, read_packet}
use net_lib_wrapper.Packet.RoundTrip.{IsHeader, sized, read_packet-write_packet}
use net_lib_wrapper.Packet.Login.{
  VerReqBody, AuthReqBody, AuthRespBody, parse_ver_req, pack_ver_req, parse_auth_req, pack_auth_req,
  parse_auth_resp, pack_auth_resp,
}

-- Members within their types.
pub record IsVerReq (b : VerReqBody) : Type 0 where
  pub ui_major_ver : b.ui_major_ver < 2 ^ 32
  pub ui_sub_ver : b.ui_sub_ver < 2 ^ 32

pub record IsAuthReq (b : AuthReqBody) : Type 0 where
  pub ac_login_id : length b.ac_login_id ≡ 32
  pub auc_digest : length b.auc_digest ≡ 16
  pub ui_time_stamp : b.ui_time_stamp < 2 ^ 32
  pub ui_rand : b.ui_rand < 2 ^ 32
  pub ui_client_type : b.ui_client_type < 2 ^ 32

pub record IsAuthResp (b : AuthRespBody) : Type 0 where
  pub ui_client_id : b.ui_client_id < 2 ^ 32
  pub i_client_type : b.i_client_type < 2 ^ 32
  pub ul_out_dev_premission : b.ul_out_dev_premission < 2 ^ 64
  pub ui_client_level_map : IsMap (λ v. v < 2 ^ 64) b.ui_client_level_map
  pub str_extend : length b.str_extend < 2 ^ 31

-- What stands in the buffer for each body.
unfoldable pub ver_req_bytes : VerReqBody → List ℕ
ver_req_bytes b = u32_bytes b.ui_major_ver ++ u32_bytes b.ui_sub_ver

unfoldable pub auth_req_bytes : AuthReqBody → List ℕ
auth_req_bytes b =
    b.ac_login_id
    ++ (b.auc_digest
        ++ (u32_bytes b.ui_time_stamp ++ (u32_bytes b.ui_rand ++ u32_bytes b.ui_client_type)))

unfoldable pub auth_resp_bytes : AuthRespBody → List ℕ
auth_resp_bytes b =
    u32_bytes b.ui_client_id
    ++ (u32_bytes b.i_client_type
        ++ (u64_bytes b.ul_out_dev_premission
            ++ (map_bytes u64_bytes b.ui_client_level_map ++ string_bytes b.str_extend)))

pub pack_ver_req-Writes : (b : VerReqBody) → Writes (pack_ver_req b) (ver_req_bytes b)
unfolding pack_ver_req ver_req_bytes
pack_ver_req-Writes b =
    also-Writes _ _ _ _ (pack_u32-Writes b.ui_major_ver) (pack_u32-Writes b.ui_sub_ver)

pub parse_ver_req-Reads :
    (b : VerReqBody) → IsVerReq b → Reads parse_ver_req (ver_req_bytes b) (λ _. b)
unfolding parse_ver_req ver_req_bytes
parse_ver_req-Reads b ok =
    then-Reads _ _ _ _ _ _
      (member-Reads (λ b. b.ui_major_ver) (λ v b. record b { ui_major_ver = v }) parse_u32 _ _
        (parse_u32-Reads b.ui_major_ver ok.ui_major_ver))
      (member-Reads (λ b. b.ui_sub_ver) (λ v b. record b { ui_sub_ver = v }) parse_u32 _ _
        (parse_u32-Reads b.ui_sub_ver ok.ui_sub_ver))

pub pack_auth_req-Writes :
    (b : AuthReqBody) → IsAuthReq b → Writes (pack_auth_req b) (auth_req_bytes b)
unfolding pack_auth_req auth_req_bytes
pack_auth_req-Writes b ok =
    also-Writes _ _ _ _ (pack_bytes-Writes b.ac_login_id 32 ok.ac_login_id) (
      also-Writes _ _ _ _ (pack_bytes-Writes b.auc_digest 16 ok.auc_digest) (
        also-Writes _ _ _ _ (pack_u32-Writes b.ui_time_stamp)
          (also-Writes _ _ _ _ (pack_u32-Writes b.ui_rand) (pack_u32-Writes b.ui_client_type))))

pub parse_auth_req-Reads :
    (b : AuthReqBody) → IsAuthReq b → Reads parse_auth_req (auth_req_bytes b) (λ _. b)
unfolding parse_auth_req auth_req_bytes
parse_auth_req-Reads b ok =
    then-Reads _ _ _ _ _ _
      (member-Reads (λ b. b.ac_login_id) (λ v b. record b { ac_login_id = v })
        (λ buf size. parse_bytes buf size 32) _ _
        (parse_bytes-Reads b.ac_login_id 32 ok.ac_login_id (omega arith)))
      (then-Reads _ _ _ _ _ _
        (member-Reads (λ b. b.auc_digest) (λ v b. record b { auc_digest = v })
          (λ buf size. parse_bytes buf size 16) _ _
          (parse_bytes-Reads b.auc_digest 16 ok.auc_digest (omega arith)))
        (then-Reads _ _ _ _ _ _
          (member-Reads (λ b. b.ui_time_stamp) (λ v b. record b { ui_time_stamp = v }) parse_u32 _ _
            (parse_u32-Reads b.ui_time_stamp ok.ui_time_stamp))
          (then-Reads _ _ _ _ _ _
            (member-Reads (λ b. b.ui_rand) (λ v b. record b { ui_rand = v }) parse_u32 _ _
              (parse_u32-Reads b.ui_rand ok.ui_rand))
            (member-Reads (λ b. b.ui_client_type) (λ v b. record b { ui_client_type = v }) parse_u32
              _ _ (parse_u32-Reads b.ui_client_type ok.ui_client_type)))))

pub pack_auth_resp-Writes :
    (b : AuthRespBody) → IsAuthResp b → Writes (pack_auth_resp b) (auth_resp_bytes b)
unfolding pack_auth_resp auth_resp_bytes
pack_auth_resp-Writes b ok = also-Writes _ _ _ _ (pack_u32-Writes b.ui_client_id) (
    also-Writes _ _ _ _ (pack_u32-Writes b.i_client_type) (
      also-Writes _ _ _ _ (pack_u64-Writes b.ul_out_dev_premission) (
        also-Writes _ _ _ _
          (pack_map-Writes (λ v. v < 2 ^ 64) u64_bytes pack_u64 (λ v lt. pack_u64-Writes v)
            b.ui_client_level_map ok.ui_client_level_map)
          (pack_string-Writes b.str_extend ok.str_extend))))

pub parse_auth_resp-Reads :
    (b : AuthRespBody) → IsAuthResp b → Reads parse_auth_resp (auth_resp_bytes b) (λ _. b)
unfolding parse_auth_resp auth_resp_bytes
parse_auth_resp-Reads b ok =
    then-Reads _ _ _ _ _ _
      (member-Reads (λ b. b.ui_client_id) (λ v b. record b { ui_client_id = v }) parse_u32 _ _
        (parse_u32-Reads b.ui_client_id ok.ui_client_id))
      (then-Reads _ _ _ _ _ _
        (member-Reads (λ b. b.i_client_type) (λ v b. record b { i_client_type = v }) parse_u32 _ _
          (parse_u32-Reads b.i_client_type ok.i_client_type))
        (then-Reads _ _ _ _ _ _
          (member-Reads (λ b. b.ul_out_dev_premission)
            (λ v b. record b { ul_out_dev_premission = v }) parse_u64 _ _
            (parse_u64-Reads b.ul_out_dev_premission ok.ul_out_dev_premission))
          (then-Reads _ _ _ _ _ _
            (member-Reads (λ b. b.ui_client_level_map) (λ v b. record b { ui_client_level_map = v })
              (λ buf size. parse_map buf size (parse_u64 buf size) 0) _ _
              (parse_map-Reads (λ v. v < 2 ^ 64) u64_bytes parse_u64 parse_u64-Reads 0
                b.ui_client_level_map ok.ui_client_level_map))
            (member-Reads (λ b. b.str_extend) (λ v b. record b { str_extend = v }) parse_string _ _
              (parse_string-Reads b.str_extend ok.str_extend)))))

-- An answer to a login, with its map of levels and its string, that goes through write_packet comes
-- back from read_packet, whatever follows it in the buffer, with `total_len` set to its length. The
-- words are within their types, the map is in order, and the lengths fit 31 and 32 bits.
pub read_auth_resp-write_auth_resp :
    (h : MsgHeader) (b : AuthRespBody) (old : Packet AuthRespBody) (rest : List ℕ)
    → IsHeader h
    → IsAuthResp b
    → 20 + length (auth_resp_bytes b) < 2 ^ 32
    → let w = write_packet pack_auth_resp (record { header = h; body = b }) [] in
      (w.0 ≡ true)
      × (length w.1 ≡ 20 + length (auth_resp_bytes b))
      × (read_packet parse_auth_resp (w.1 ++ rest) (length w.1) old
          ≡ parsed (length w.1) (record { header = sized h (auth_resp_bytes b); body = b }))
read_auth_resp-write_auth_resp h b old rest hok bok lt =
    read_packet-write_packet b (auth_resp_bytes b) pack_auth_resp parse_auth_resp h old rest
      (pack_auth_resp-Writes b bok) (parse_auth_resp-Reads b bok) hok lt

-- A login that goes through write_packet comes back from read_packet, whatever follows it in the
-- buffer, with `total_len` set to its length. The words are within their types, and the two arrays
-- have 32 and 16 bytes.
pub read_auth_req-write_auth_req :
    (h : MsgHeader) (b : AuthReqBody) (old : Packet AuthReqBody) (rest : List ℕ)
    → IsHeader h
    → IsAuthReq b
    → 20 + length (auth_req_bytes b) < 2 ^ 32
    → let w = write_packet pack_auth_req (record { header = h; body = b }) [] in
      (w.0 ≡ true)
      × (length w.1 ≡ 20 + length (auth_req_bytes b))
      × (read_packet parse_auth_req (w.1 ++ rest) (length w.1) old
          ≡ parsed (length w.1) (record { header = sized h (auth_req_bytes b); body = b }))
read_auth_req-write_auth_req h b old rest hok bok lt =
    read_packet-write_packet b (auth_req_bytes b) pack_auth_req parse_auth_req h old rest
      (pack_auth_req-Writes b bok) (parse_auth_req-Reads b bok) hok lt

parse_auth_resp-Stays :
    (pc_buffer : List ℕ) (i_size : ℕ) → Stays i_size (parse_auth_resp pc_buffer i_size)
unfolding parse_auth_resp
parse_auth_resp-Stays buf size =
    let word = parse_u32-Stays buf size in
    let long = parse_u64-Stays buf size in
    let levels = parse_map-Stays buf size (parse_u64 buf size) 0 long in
    let string = parse_string-Stays buf size in
    then-Stays buf size _ _ (member-Stays buf size _ _ _ word) (
      then-Stays buf size _ _ (member-Stays buf size _ _ _ word) (
        then-Stays buf size _ _ (member-Stays buf size _ _ _ long) (
          then-Stays buf size _ _ (member-Stays buf size _ _ _ levels)
            (member-Stays buf size _ _ _ string))))

-- From an offset within the size, the reader of the answer to a login moves its offset forward, and
-- never past the end, whatever the bytes are.
pub parse_auth_resp-offset :
    (pc_buffer : List ℕ) (i_size i : ℕ) (old : AuthRespBody)
    → i ≤ i_size
    → let r = parse_auth_resp pc_buffer i_size i old in (i ≤ r.i_offset) × (r.i_offset ≤ i_size)
parse_auth_resp-offset buf size i old le = parse_auth_resp-Stays buf size i old le
