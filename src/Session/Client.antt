-- ===== src/Session/Client.antt =====
-- samples/samples-client/test-client.cpp: the client's side of the handshake, and `GetLocalTimeDay`
-- of comm-func.cpp. `get_md5` of md5.cpp and `localtime` are parameters.
pub mod Login
use net_lib_wrapper.Prelude.{
  ℕ, zero, suc, ◌+◌, ◌-◌, ◌/◌, ◌%◌, ◌^◌, Bool, true, false, Option, none, some, List, [], ◌∷◌, ◌++◌,
  ltb, ◌==◌, if◌then◌else◌, length, take, drop,
}
use net_lib_wrapper.Os.{Os}
use net_lib_wrapper.Packet.Header.{Packet}
use net_lib_wrapper.Packet.Login.{Null, VerReqBody, AuthReqBody, AuthRespBody}
use net_lib_wrapper.Frame.Parse.{
  Message, ver_req, ver_resp, auth_req, auth_resp, ver_nego_req, ver_nego_resp, link_auth_req,
  link_auth_resp, zeros, send_packet,
}
use net_lib_wrapper.Tcp.Table.{Tcp, Event}
use net_lib_wrapper.Tcp.Api.{
  invalid_link, ms_tcp_create, ms_tcp_destroy, ms_tcp_connect, ms_tcp_send, ms_tcp_get_link_addr,
}
use net_lib_wrapper.Session.Handle.{convert_ip}

-- A day of `localtime`: `tm_year`, `tm_mon` and `tm_mday`.
pub record Day : Type 0 where
  pub tm_year : ℕ
  pub tm_mon : ℕ
  pub tm_mday : ℕ

-- What the handshake takes from elsewhere: the MD5 digest of a string, 16 bytes, and the day.
pub record Secrets : Type 0 where
  pub get_md5 : List ℕ → List ℕ
  pub localtime : ℕ → Day

-- `T2string`: the decimal digits, of which 32 bits need ten at most.
unfoldable pub digits : ℕ → ℕ → List ℕ
digits zero n = []
digits (suc left) n =
    let more = digits left (n / 10) in
    let last = (48 + n % 10) ∷ [] in if ltb n 10 then last else more ++ last

-- A month or a day, with a 0 before a single digit.
unfoldable pub two_digits : ℕ → List ℕ
two_digits n = if ltb n 10 then 48 ∷ digits 10 n else digits 10 n

-- `GetLocalTimeDay`
unfoldable pub get_local_time_day : Day → List ℕ
get_local_time_day tm =
    digits 10 (1900 + tm.tm_year) ++ (two_digits (tm.tm_mon + 1) ++ two_digits tm.tm_mday)

-- "%08x" of the words of a digest: two digits for each byte, in the order of memory.
unfoldable pub hex_digit : ℕ → ℕ
hex_digit n = if ltb n 10 then 48 + n else 87 + n

unfoldable pub hex : List ℕ → List ℕ
hex [] = []
hex (b ∷ bs) = hex_digit (b / 16) ∷ hex_digit (b % 16) ∷ hex bs

-- MSADMIN_USER, "msadmin".
abbrev pub msadmin_user : List ℕ
msadmin_user = 109 ∷ 115 ∷ 97 ∷ 100 ∷ 109 ∷ 105 ∷ 110 ∷ []

-- "0rand=0", the end of the second string: `ui_time_stamp_tmp` and `i_rand_tmp` are 0.
abbrev pub stamp : List ℕ
stamp = 48 ∷ 114 ∷ 97 ∷ 110 ∷ 100 ∷ 61 ∷ 48 ∷ []

-- MSG_HEAD_MAGIC and CLIENT_MONITOR.
abbrev pub head_magic : ℕ
head_magic = 0xA2A22A2A

abbrev pub client_monitor : ℕ
client_monitor = 3

-- The members of Test_Client that the handshake uses.
pub record Client : Type 0 where
  pub server_addr : List ℕ
  pub server_port : ℕ
  pub local_addr : List ℕ
  pub mh_tcp_link : ℕ
  pub mui_client_id : ℕ

-- The constructor.
unfoldable pub new_client : List ℕ → ℕ → Client
new_client str_server_ip us_port = record {
  server_addr = str_server_ip;
  server_port = us_port;
  local_addr = [];
  mh_tcp_link = invalid_link;
  mui_client_id = 0;
}

-- `do_ver_nego_req`: the packet, which asks for version 1.0. write_packet overwrites `total_len`.
unfoldable pub version_request : Packet VerReqBody
version_request = record {
  header = record {
    magic_type = head_magic;
    msg_type = ver_nego_req;
    total_len = 28;
    seq_id = 0;
    i_ret = 0;
  };
  body = record { ui_major_ver = 1; ui_sub_ver = 0 };
}

module _ (secrets : Secrets) where
  -- The digest of `do_link_auth_req`; both strings are cut at 127 characters by `snprintf`.
  unfoldable pub login_digest : ℕ → List ℕ
  login_digest ui_sec =
      let day = get_local_time_day (secrets.localtime ui_sec) in
      let first = secrets.get_md5 (take 127 (msadmin_user ++ day)) in
      secrets.get_md5 (take 127 (msadmin_user ++ (hex first ++ stamp)))

  -- `do_link_auth_req`: the packet. `strcpy` leaves zeros after the name.
  unfoldable pub login_request : ℕ → Packet AuthReqBody
  login_request ui_sec = record {
    header = record {
      magic_type = head_magic;
      msg_type = link_auth_req;
      total_len = 80;
      seq_id = 0;
      i_ret = 0;
    };
    body = record {
      ac_login_id = msadmin_user ++ zeros 25;
      auc_digest = login_digest ui_sec;
      ui_time_stamp = 0;
      ui_rand = 0;
      ui_client_type = client_monitor;
    };
  }

  -- `on_ver_nego_ack`: the login that follows, if the version was accepted.
  unfoldable pub on_ver_nego_ack : ℕ → Packet Null → Option Message
  on_ver_nego_ack now p_pkt =
      if p_pkt.header.i_ret == 0 then some (auth_req (login_request (now % 2 ^ 32))) else none

  -- `on_link_auth_ack`
  unfoldable pub on_link_auth_ack : Client → Packet AuthRespBody → Client
  on_link_auth_ack c p_pkt = record c { mui_client_id = p_pkt.body.ui_client_id }

  -- `on_tcp_recv_data`, at the time `now`: the client, and the packet that it sends, if any.
  unfoldable pub on_tcp_recv_data : ℕ → ℕ → Message → Client → Client × Option Message
  on_tcp_recv_data now h_link (ver_resp p) c =
      if c.mh_tcp_link == h_link
      then (c, if p.header.msg_type == ver_nego_resp then on_ver_nego_ack now p else none)
      else (c, none)
  on_tcp_recv_data now h_link (auth_resp p) c =
      if c.mh_tcp_link == h_link
      then (if p.header.msg_type == link_auth_resp then on_link_auth_ack c p else c, none)
      else (c, none)
  on_tcp_recv_data now h_link _ c = (c, none)

unfoldable pub on_tcp_closed : ℕ → Client → Client
on_tcp_closed h_link c =
    if c.mh_tcp_link == h_link then record c { mh_tcp_link = invalid_link } else c

-- `on_tcp_connected`: both addresses are asked for, and kept if both are there.
unfoldable pub on_tcp_connected : {W : Type 0} → ℕ → Tcp W → Client → Client
on_tcp_connected h_link t c = elim (ms_tcp_get_link_addr t h_link 2) [
  | none ↦ c
  | some remote ↦ elim (ms_tcp_get_link_addr t h_link 1) [
    | none ↦ c
    | some home ↦ record c {
      local_addr = convert_ip home.ip;
      server_addr = convert_ip remote.ip;
      server_port = remote.port;
    }
  ]
]

-- The callbacks that a call has made; the others change nothing here.
unfoldable pub hear : {W : Type 0} → List Event → Tcp W → Client → Client
hear [] t c = c
hear (Event.connected h ∷ es) t c = hear es t (on_tcp_connected h t c)
hear (Event.closed h ∷ es) t c = hear es t (on_tcp_closed h c)
hear (_ ∷ es) t c = hear es t c

module _ (os : Os) where
  open os use {World}

  -- `send_packet` of the handler over a link.
  unfoldable pub send_all : ℕ → List (List ℕ) → Tcp World → Tcp World
  send_all h_link [] t = t
  send_all h_link (buffer ∷ buffers) t =
      send_all h_link buffers (ms_tcp_send os t h_link (some buffer) (length buffer % 2 ^ 32)).1

  unfoldable pub send_to : ℕ → Message → Tcp World → Tcp World
  send_to h_link m t = send_all h_link (send_packet m) t

  -- The end of `process_connect_server`.
  unfoldable pub connected_to : Bool → ℕ → Client → Tcp World → Client × Tcp World
  connected_to false h_link c t = (c, (ms_tcp_destroy os t h_link).1)
  connected_to true h_link c t =
      (record c { mh_tcp_link = h_link }, send_to h_link (ver_req version_request) t)

  -- "192.168.8.109"
  abbrev pub listen_addr : List ℕ
  listen_addr = 49 ∷ 57 ∷ 50 ∷ 46 ∷ 49 ∷ 54 ∷ 56 ∷ 46 ∷ 56 ∷ 46 ∷ 49 ∷ 48 ∷ 57 ∷ []

  -- `process_connect_server`: an old link is destroyed, and its callback resets the same member; the
  -- addresses that the callback of the connection finds are those it leaves.
  unfoldable pub process_connect_server : Client → Tcp World → Client × Tcp World
  process_connect_server c t =
      let t' = if c.mh_tcp_link == invalid_link then t else (ms_tcp_destroy os t c.mh_tcp_link).1 in
      let c' = record c { mh_tcp_link = invalid_link } in
      let (h_link, t'') = ms_tcp_create os t' (some listen_addr) 0 in
      let (b_connect, t''') = ms_tcp_connect os t'' h_link (some c.server_addr) c.server_port in
      if h_link == invalid_link
      then connected_to false h_link c' t''
      else connected_to b_connect h_link (hear (drop (length t''.events) t'''.events) t''' c') t'''
