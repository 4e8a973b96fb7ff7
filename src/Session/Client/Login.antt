-- ===== src/Session/Client/Login.antt =====
-- The conversation of a login, over the bytes of both directions.
use net_lib_wrapper.Prelude.{
  ℕ, suc, ◌+◌, ◌^◌, ◌%◌, ◌<◌, ◌≡◌, refl, ◌∙◌, none, some, List, [], ◌∷◌, ◌++◌, length,
  length-append, arith,
}
use net_lib_wrapper.Wire.Endian.{host_bytes}
use net_lib_wrapper.Wire.Containers.{u32_bytes}
use net_lib_wrapper.Packet.Header.{MsgHeader, Packet, write_packet}
use net_lib_wrapper.Packet.RoundTrip.{IsHeader, header_bytes, sized}
use net_lib_wrapper.Packet.Login.{
  Null, VerReqBody, AuthReqBody, AuthRespBody, pack_null, pack_auth_resp, parse_ver_req,
  pack_ver_req, pack_auth_req,
}
use net_lib_wrapper.Packet.Login.Trips.{
  IsVerReq, IsAuthReq, ver_req_bytes, auth_req_bytes, pack_ver_req-Writes, parse_ver_req-Reads,
}
use net_lib_wrapper.Frame.Parse.{
  Message, ver_req, ver_resp, auth_req, auth_resp, parse_packet, word_at, ver_nego_req,
  ver_nego_resp, link_auth_resp, new_ver_req, send_packet,
}
use net_lib_wrapper.Frame.Receive
use net_lib_wrapper.Frame.Receive.{Delivery, received}
use net_lib_wrapper.Frame.Receive.Stream.{IsFrame}
use net_lib_wrapper.Frame.Receive.Frames.{
  sized-IsHeader, word_at-msg_type, packet-IsFrame, case_packet_lem, written-delivered,
  auth_req-delivered,
}
use net_lib_wrapper.Session.Handle.{packed, answer, ver_answer, auth_answer}
use net_lib_wrapper.Session.Handle.Answers.{
  ver_answer-packed, ver_answer-read, auth_answer-packed, auth_answer-read,
}
use net_lib_wrapper.Session.Client.{
  Secrets, Client, version_request, login_request, login_digest, on_ver_nego_ack, on_link_auth_ack,
  on_tcp_recv_data,
}

ver_req-IsFrame :
    (h : MsgHeader) (b : VerReqBody)
    → IsHeader h
    → h.magic_type ≡ 0xA2A22A2A
    → h.msg_type ≡ ver_nego_req
    → IsVerReq b
    → 20 + length (ver_req_bytes b) < 2 ^ 31
    → let h' = sized h (ver_req_bytes b) in
      IsFrame (header_bytes h' ++ ver_req_bytes b) (ver_req (record { header = h'; body = b }))
unfolding parse_packet
ver_req-IsFrame h b ok magic type bok lt =
    let bytes = ver_req_bytes b in
    let h' = sized h bytes in
    let ok' = sized-IsHeader h bytes ok lt in
    packet-IsFrame h' bytes (ver_req (record { header = h'; body = b })) ok' magic refl lt λ rest.
      let is_type : word_at 4 (header_bytes h' ++ (bytes ++ rest)) ≡ ver_nego_req =
        word_at-msg_type h' (bytes ++ rest) ok'.msg_type ∙ type in
      rw is_type (
        case_packet_lem ver_req parse_ver_req new_ver_req b bytes h' rest
          (parse_ver_req-Reads b bok) ok')

-- The client sends `m`, and the server's side reads `m'` from the bytes; and the other way.
pub record Asked (m m' : Message) : Type 0 where
  bytes : List ℕ
  sent : send_packet m ≡ bytes ∷ []
  read :
      (beyond : List ℕ) (fuel : ℕ)
      → Receive.on_tcp_recv_data beyond (suc (suc fuel)) [] bytes ≡ some ([], received m' ∷ [])

pub record Answered (m m' : Message) : Type 0 where
  bytes : List ℕ
  sent : packed m ≡ some bytes
  read :
      (beyond : List ℕ) (fuel : ℕ)
      → Receive.on_tcp_recv_data beyond (suc (suc fuel)) [] bytes ≡ some ([], received m' ∷ [])

-- The packets of a login as they are read, in their order.
pub record Conversation (secrets : Secrets) (now h_link : ℕ) (c c' : Client) : Type 0 where
  login : Message
  version_answer : Message
  login_answer : Message
  version_read : Message
  accepted : Message
  login_read : Message
  granted : Message
  asks_version : Asked (ver_req version_request) version_read
  answers_version : answer version_read ≡ some version_answer
  hears_version : Answered version_answer accepted
  goes_on : on_tcp_recv_data secrets now h_link accepted c ≡ (c, some login)
  asks_login : Asked login login_read
  answers_login : answer login_read ≡ some login_answer
  hears_login : Answered login_answer granted
  ends : on_tcp_recv_data secrets now h_link granted c ≡ (c', none)

version_request-IsHeader : IsHeader version_request.header
unfolding version_request
version_request-IsHeader = record {
  magic_type = omega arith;
  msg_type = omega arith;
  total_len = omega arith;
  seq_id = omega arith;
  i_ret = omega arith;
}

-- The request for a version, as the server reads it.
abbrev version_read : Packet VerReqBody
version_read = record {
  header = sized version_request.header (ver_req_bytes version_request.body);
  body = version_request.body;
}

version-Asked : Asked (ver_req version_request) (ver_req version_read)
unfolding send_packet version_request ver_req_bytes u32_bytes host_bytes
version-Asked = record {
  bytes = (write_packet pack_ver_req version_request []).1;
  sent = refl;
  read = λ beyond fuel.
      let b = version_request.body in
      written-delivered ver_req pack_ver_req b (ver_req_bytes b) version_request.header beyond fuel
        (pack_ver_req-Writes b)
        (ver_req-IsFrame version_request.header b version_request-IsHeader refl refl
          (record { ui_major_ver = omega arith; ui_sub_ver = omega arith }) (omega arith))
        (omega arith);
}

version_read-IsHeader : IsHeader version_read.header
unfolding version_request ver_req_bytes u32_bytes host_bytes
version_read-IsHeader = record {
  magic_type = omega arith;
  msg_type = omega arith;
  total_len = omega arith;
  seq_id = omega arith;
  i_ret = omega arith;
}

-- The packets that the client reads.
abbrev accepted : Packet Null
accepted = record {
  header = record {
    magic_type = 0xA2A22A2A;
    msg_type = ver_nego_resp;
    total_len = 20;
    seq_id = 0;
    i_ret = 0;
  };
  body = record {};
}

version-Answered : Answered (ver_resp (ver_answer version_read)) (ver_resp accepted)
unfolding version_request
version-Answered = record {
  bytes = (write_packet pack_null (ver_answer version_read) []).1;
  sent = ver_answer-packed version_read;
  read = λ beyond fuel. ver_answer-read beyond version_read fuel version_read-IsHeader refl;
}

length-auth_req : (b : AuthReqBody) → IsAuthReq b → length (auth_req_bytes b) ≡ 60
unfolding auth_req_bytes u32_bytes host_bytes
length-auth_req b ok =
    let words = u32_bytes b.ui_time_stamp ++ (u32_bytes b.ui_rand ++ u32_bytes b.ui_client_type) in
    omega (
      arith,
      length-append b.ac_login_id (b.auc_digest ++ words),
      length-append b.auc_digest words,
      ok.ac_login_id,
      ok.auc_digest,
    )

module _ (secrets : Secrets) (sixteen : (s : List ℕ) → length (secrets.get_md5 s) ≡ 16)
    (sec : ℕ) where
  -- The login, as the server reads it.
  abbrev login_read : Packet AuthReqBody
  login_read = record {
    header =
        sized (login_request secrets sec).header (auth_req_bytes (login_request secrets sec).body);
    body = (login_request secrets sec).body;
  }

  login_request-IsHeader : IsHeader (login_request secrets sec).header
  unfolding login_request
  login_request-IsHeader = record {
    magic_type = omega arith;
    msg_type = omega arith;
    total_len = omega arith;
    seq_id = omega arith;
    i_ret = omega arith;
  }

  login_request-IsAuthReq : IsAuthReq (login_request secrets sec).body
  unfolding login_request login_digest
  login_request-IsAuthReq = record {
    ac_login_id = refl;
    auc_digest = sixteen _;
    ui_time_stamp = omega arith;
    ui_rand = omega arith;
    ui_client_type = omega arith;
  }

  length-login : length (auth_req_bytes (login_request secrets sec).body) ≡ 60
  length-login = length-auth_req (login_request secrets sec).body login_request-IsAuthReq

  login-Asked : Asked (auth_req (login_request secrets sec)) (auth_req login_read)
  unfolding send_packet login_request
  login-Asked = record {
    bytes = (write_packet pack_auth_req (login_request secrets sec) []).1;
    sent = refl;
    read = λ beyond fuel.
        auth_req-delivered beyond (login_request secrets sec).header
          (login_request secrets sec).body fuel login_request-IsHeader refl refl
          login_request-IsAuthReq (omega (arith, length-login));
  }

  login_read-IsHeader : IsHeader login_read.header
  unfolding login_request
  login_read-IsHeader =
      sized-IsHeader (login_request secrets sec).header
        (auth_req_bytes (login_request secrets sec).body) login_request-IsHeader
        (omega (arith, length-login))

  abbrev granted : Packet AuthRespBody
  granted = record {
    header = record {
      magic_type = 0xA2A22A2A;
      msg_type = link_auth_resp;
      total_len = 1200077;
      seq_id = 0;
      i_ret = 0;
    };
    body = (auth_answer login_read).body;
  }

  login-Answered : Answered (auth_resp (auth_answer login_read)) (auth_resp granted)
  unfolding login_request
  login-Answered = record {
    bytes = (write_packet pack_auth_resp (auth_answer login_read) []).1;
    sent = auth_answer-packed login_read;
    read = λ beyond fuel. auth_answer-read beyond login_read fuel login_read-IsHeader refl;
  }

-- What the client does on its own link.
hears_version_lem :
    (secrets : Secrets) (now : ℕ) (p : Packet Null) (c : Client)
    → p.header.msg_type ≡ ver_nego_resp
    → p.header.i_ret ≡ 0
    → on_tcp_recv_data secrets now c.mh_tcp_link (ver_resp p) c
      ≡ (c, some (auth_req (login_request secrets (now % 2 ^ 32))))
unfolding on_tcp_recv_data on_ver_nego_ack
hears_version_lem secrets now p c t r = ground arith

hears_login_lem :
    (secrets : Secrets) (now : ℕ) (p : Packet AuthRespBody) (c : Client)
    → p.header.msg_type ≡ link_auth_resp
    → on_tcp_recv_data secrets now c.mh_tcp_link (auth_resp p) c
      ≡ (record c { mui_client_id = p.body.ui_client_id }, none)
unfolding on_tcp_recv_data on_link_auth_ack
hears_login_lem secrets now p c t = ground arith

-- A login goes through: a client on its link that asks for a version, and answers what it hears,
-- makes with the server a whole conversation, each packet of which is read from the bytes of the one
-- before, and ends with the client id 1. The digests are of 16 bytes.
pub login-Conversation :
    (secrets : Secrets) (now : ℕ) (c : Client)
    → ((s : List ℕ) → length (secrets.get_md5 s) ≡ 16)
    → Conversation secrets now c.mh_tcp_link c (record c { mui_client_id = 1 })
unfolding answer version_request login_request auth_answer
login-Conversation secrets now c sixteen =
    let sec = now % 2 ^ 32 in
    record {
      login = auth_req (login_request secrets sec);
      version_answer = ver_resp (ver_answer version_read);
      login_answer = auth_resp (auth_answer (login_read secrets sixteen sec));
      version_read = ver_req version_read;
      accepted = ver_resp accepted;
      login_read = auth_req (login_read secrets sixteen sec);
      granted = auth_resp (granted secrets sixteen sec);
      asks_version = version-Asked;
      answers_version = refl;
      hears_version = version-Answered;
      goes_on = hears_version_lem secrets now accepted c refl refl;
      asks_login = login-Asked secrets sixteen sec;
      answers_login = refl;
      hears_login = login-Answered secrets sixteen sec;
      ends = hears_login_lem secrets now (granted secrets sixteen sec) c refl;
    }
