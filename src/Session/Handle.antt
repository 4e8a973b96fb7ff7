-- ===== src/Session/Handle.antt =====
-- samples/samples-client/include/link-hdr.h and samples/samples-server/test-client-handle.cpp: the
-- handle that the server keeps for a link, and its answers; `ConvertIP` of comm-func.cpp.
pub mod Answers
use net_lib_wrapper.Prelude.{
  ℕ, zero, suc, ◌+◌, ◌*◌, ◌/◌, ◌%◌, ◌^◌, Bool, true, false, Option, none, some, List, [], ◌∷◌, ◌++◌,
  ltb, ◌==◌, if◌then◌else◌, length,
}
use net_lib_wrapper.Os.{Os}
use net_lib_wrapper.Packet.Header.{Packet, write_packet}
use net_lib_wrapper.Packet.Login.{
  Null, VerReqBody, AuthReqBody, AuthRespBody, pack_null, pack_auth_resp,
}
use net_lib_wrapper.Frame.Parse.{
  Message, ver_req, ver_resp, auth_req, auth_resp, ver_nego_req, ver_nego_resp, link_auth_req,
  link_auth_resp,
}
use net_lib_wrapper.Tcp.Table.{Tcp}
use net_lib_wrapper.Tcp.Api.{invalid_link, ms_tcp_send, ms_tcp_destroy}

-- The members of LinkHdr that are used.
pub record LinkHdr : Type 0 where
  pub mh_remote_tcplink : ℕ
  pub mstr_remote_ip : List ℕ
  pub mstr_link_name : List ℕ
  pub mb_can_broadcast : Bool

-- "TestClientHandle"
abbrev pub test_client_handle : List ℕ
test_client_handle =
    84 ∷ 101 ∷ 115 ∷ 116 ∷ 67 ∷ 108 ∷ 105 ∷ 101 ∷ 110 ∷ 116 ∷ 72 ∷ 97 ∷ 110 ∷ 100 ∷ 108 ∷ 101 ∷ []

-- The constructor.
unfoldable pub new_handle : LinkHdr
new_handle = record {
  mh_remote_tcplink = invalid_link;
  mstr_remote_ip = [];
  mstr_link_name = test_client_handle;
  mb_can_broadcast = false;
}

unfoldable pub set_link : ℕ → LinkHdr → LinkHdr
set_link h_link hdr = record hdr { mh_remote_tcplink = h_link }

unfoldable pub set_remote_ip : List ℕ → LinkHdr → LinkHdr
set_remote_ip str_ip hdr = record hdr { mstr_remote_ip = str_ip }

unfoldable pub set_can_broadcast : Bool → LinkHdr → LinkHdr
set_can_broadcast b_flag hdr = record hdr { mb_can_broadcast = b_flag }

-- `T2string` of a byte: its decimal digits.
unfoldable pub decimal : ℕ → List ℕ
decimal n =
    let low = (48 + n % 10) ∷ [] in
    let middle = (48 + n / 10 % 10) ∷ low in
    if ltb n 10 then low else if ltb n 100 then middle else (48 + n / 100) ∷ middle

-- `ConvertIP`
unfoldable pub convert_ip : ℕ → List ℕ
convert_ip ui_ip =
    decimal (ui_ip / 2 ^ 24 % 256)
    ++ (46 ∷ decimal (ui_ip / 2 ^ 16 % 256)
        ++ (46 ∷ decimal (ui_ip / 2 ^ 8 % 256) ++ (46 ∷ decimal (ui_ip % 256))))

-- The buffer that `send_packet` packs, if the message has a case there.
unfoldable pub packed : Message → Option (List ℕ)
packed (ver_resp p) =
    if p.header.msg_type == ver_nego_resp then some (write_packet pack_null p []).1 else none
packed (auth_resp p) =
    if p.header.msg_type == link_auth_resp then some (write_packet pack_auth_resp p []).1 else none
packed _ = none

-- The answer to a version: 0 for version 1.0 and 2 for others. write_packet overwrites `total_len`.
unfoldable pub ver_answer : Packet VerReqBody → Packet Null
ver_answer p_ver_pkt = record {
  header = record {
    magic_type = p_ver_pkt.header.magic_type;
    msg_type = ver_nego_resp;
    total_len = 24;
    seq_id = p_ver_pkt.header.seq_id;
    i_ret =
        if p_ver_pkt.body.ui_major_ver == 1
        then (if p_ver_pkt.body.ui_sub_ver == 0 then 0 else 2)
        else 2;
  };
  body = record {};
}

-- The loop that fills `ui_client_level_map`, from `ui_n` on: the keys rise, so each goes to the end.
unfoldable pub levels : ℕ → ℕ → List (ℕ × ℕ)
levels zero ui_n = []
levels (suc left) ui_n = (ui_n, ui_n) ∷ levels left (suc ui_n)

-- "abcdefghijklmnopqrstuvwxyz.10086!"
abbrev pub extend : List ℕ
extend =
    97 ∷ 98 ∷ 99 ∷ 100 ∷ 101 ∷ 102 ∷ 103 ∷ 104 ∷ 105 ∷ 106 ∷ 107 ∷ 108 ∷ 109 ∷ 110 ∷ 111 ∷ 112 ∷ 113
    ∷ 114 ∷ 115 ∷ 116 ∷ 117 ∷ 118 ∷ 119 ∷ 120 ∷ 121 ∷ 122 ∷ 46 ∷ 49 ∷ 48 ∷ 48 ∷ 56 ∷ 54 ∷ 33 ∷ []

-- The answer to a login.
unfoldable pub auth_answer : Packet AuthReqBody → Packet AuthRespBody
auth_answer p_auth_pkt = record {
  header = record {
    magic_type = p_auth_pkt.header.magic_type;
    msg_type = link_auth_resp;
    total_len = 0;
    seq_id = p_auth_pkt.header.seq_id;
    i_ret = 0;
  };
  body = record {
    ui_client_id = 1;
    i_client_type = 1;
    ul_out_dev_premission = 1;
    ui_client_level_map = levels 100000 0;
    str_extend = extend;
  };
}

-- What `recv_data` answers, if anything: the switch on the type of the packet.
unfoldable pub answer : Message → Option Message
answer (ver_req p) =
    if p.header.msg_type == ver_nego_req then some (ver_resp (ver_answer p)) else none
answer (auth_req p) =
    if p.header.msg_type == link_auth_req then some (auth_resp (auth_answer p)) else none
answer _ = none

module _ (os : Os) where
  -- `send_packet`: the result is false where it sends, `return 0`.
  unfoldable pub send_packet : LinkHdr → Option Message → Tcp os.World → Bool × Tcp os.World
  send_packet hdr none t = (false, t)
  send_packet hdr (some m) t = elim (packed m) [
    | none ↦ (true, t)
    | some bytes ↦
        let sent = ms_tcp_send os t hdr.mh_remote_tcplink (some bytes) (length bytes % 2 ^ 32) in
        (false, sent.1)
  ]

  -- `send_packet` of bytes.
  unfoldable pub send_bytes : LinkHdr → List ℕ → ℕ → Tcp os.World → Bool × Tcp os.World
  send_bytes hdr p_data ui_len t = ms_tcp_send os t hdr.mh_remote_tcplink (some p_data) ui_len

  unfoldable pub destroy : LinkHdr → Tcp os.World → Tcp os.World
  destroy hdr t = (ms_tcp_destroy os t hdr.mh_remote_tcplink).1

  -- `TestClientHandle::recv_data`
  unfoldable pub recv_data : LinkHdr → Message → Tcp os.World → Bool × Tcp os.World
  recv_data hdr m t = elim (answer m) [
    | none ↦ (true, t)
    | some a ↦ (true, (send_packet hdr (some a) t).1)
  ]
