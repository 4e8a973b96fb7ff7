-- ===== src/Tests/Frame.antt =====
-- Examples for Wire, Packet and Frame.
use net_lib_wrapper.Prelude.{
  ℕ, ◌^◌, ◌≤◌, ◌<◌, ◌≡◌, refl, inr, some, List, [], ◌∷◌, ◌++◌, length, take, drop, take-append-drop,
  length-take, length-drop, length-append, append-nil, ap, sym, ◌∙◌, arith, Returns,
}
use net_lib_wrapper.Wire.Endian.{ms_endian32, host_bytes}
use net_lib_wrapper.Wire.Containers.{u32_bytes, u64_bytes, string_bytes, map_bytes, entries_bytes}
use net_lib_wrapper.Packet.Header.{MsgHeader, write_packet}
use net_lib_wrapper.Packet.RoundTrip.{IsHeader, sized, header_bytes}
use net_lib_wrapper.Packet.Login.{AuthRespBody, pack_auth_resp, parse_auth_resp}
use net_lib_wrapper.Packet.Login.Trips.{
  IsAuthReq, IsAuthResp, auth_req_bytes, auth_resp_bytes, parse_auth_resp-offset,
}
use net_lib_wrapper.Frame.Parse.{Message, auth_req, auth_resp, new_auth_req, new_auth_resp}
use net_lib_wrapper.Frame.Receive.{received, on_tcp_recv_data}
use net_lib_wrapper.Frame.Receive.Ends.{on_tcp_recv_data-Returns}
use net_lib_wrapper.Frame.Receive.Stream.{IsFrame, on_tcp_recv_data-stream}
use net_lib_wrapper.Frame.Receive.Frames.{auth_req-IsFrame, auth_resp-delivered}
use net_lib_wrapper.Frame.Receive.Chunks.{cut-IsStart, on_tcp_recv_data-delays}

swap_run : ms_endian32 0x01020304 ≡ 0x04030201
unfolding ms_endian32
swap_run = refl

abbrev pub header_of : ℕ → MsgHeader
header_of msg_type = record {
  magic_type = 0xA2A22A2A;
  msg_type = msg_type;
  total_len = 0;
  seq_id = 7;
  i_ret = 0xffffffff;
}

pub header_of-IsHeader : (msg_type : ℕ) → msg_type < 2 ^ 32 → IsHeader (header_of msg_type)
header_of-IsHeader msg_type lt = record {
  magic_type = omega arith;
  msg_type = lt;
  total_len = omega arith;
  seq_id = omega arith;
  i_ret = omega arith;
}

-- An answer with two levels and a string of three bytes.
abbrev answer : AuthRespBody
answer = record {
  ui_client_id = 5;
  i_client_type = 1;
  ul_out_dev_premission = 0x0102030405060708;
  ui_client_level_map = (3, 30) ∷ (4, 40) ∷ [];
  str_extend = 97 ∷ 98 ∷ 99 ∷ [];
}

answer-IsAuthResp : IsAuthResp answer
answer-IsAuthResp = record {
  ui_client_id = omega arith;
  i_client_type = omega arith;
  ul_out_dev_premission = omega arith;
  ui_client_level_map = record {
    sorted = (omega arith, tt);
    small = omega arith;
    keys = (omega arith, (omega arith, tt));
    values = (omega arith, (omega arith, tt));
  };
  str_extend = omega arith;
}

answer_size : length (auth_resp_bytes answer) ≡ 51
unfolding auth_resp_bytes u32_bytes u64_bytes string_bytes map_bytes entries_bytes host_bytes
answer_size = refl

login-IsAuthReq : IsAuthReq new_auth_req
login-IsAuthReq = record {
  ac_login_id = refl;
  auc_digest = refl;
  ui_time_stamp = omega arith;
  ui_rand = omega arith;
  ui_client_type = omega arith;
}

login_size : length (auth_req_bytes new_auth_req) ≡ 60
unfolding auth_req_bytes u32_bytes host_bytes
login_size = refl

-- A count of entries that is far too large.
abbrev nonsense : List ℕ
nonsense = 0 ∷ 0 ∷ 0 ∷ 7 ∷ 0 ∷ 0 ∷ 0 ∷ 1 ∷ 5 ∷ []

parse_auth_resp-offset_example :
    let r = parse_auth_resp nonsense 9 2 new_auth_resp in (2 ≤ r.i_offset) × (r.i_offset ≤ 9)
parse_auth_resp-offset_example = parse_auth_resp-offset nonsense 9 2 new_auth_resp (omega arith)

-- A login as it goes over the wire.
abbrev login_header : MsgHeader
login_header = sized (header_of 2) (auth_req_bytes new_auth_req)

abbrev pub login_bytes : List ℕ
login_bytes = header_bytes login_header ++ auth_req_bytes new_auth_req

abbrev pub login : Message
login = auth_req (record { header = login_header; body = new_auth_req })

login-IsFrame : IsFrame login_bytes login
login-IsFrame =
    auth_req-IsFrame (header_of 2) new_auth_req (header_of-IsHeader 2 (omega arith)) refl refl
      login-IsAuthReq (omega (arith, login_size))

abbrev pub front : ℕ → List ℕ
front n = take n login_bytes

abbrev pub back : ℕ → List ℕ
back n = drop n login_bytes

pub cut-IsFrame : (n : ℕ) → IsFrame (front n ++ back n) login
cut-IsFrame n = rw (take-append-drop n login_bytes) login-IsFrame

pub login_bytes_size : length login_bytes ≡ 80
unfolding header_bytes auth_req_bytes u32_bytes host_bytes
login_bytes_size = refl

pub cut_size : (n : ℕ) → length (front n ++ back n) ≡ 80
cut_size n = ap length (take-append-drop n login_bytes) ∙ login_bytes_size

-- A system whose memory goes on with ones.
abbrev pub ones : List ℕ
ones = 1 ∷ 1 ∷ 1 ∷ 1 ∷ 1 ∷ 1 ∷ 1 ∷ 1 ∷ 1 ∷ 1 ∷ 1 ∷ 1 ∷ []

on_tcp_recv_data-delays_example :
    (on_tcp_recv_data ones 2 [] (front 70) ≡ some (front 70, []))
    × (on_tcp_recv_data ones 2 (front 70) (back 70) ≡ some (front 70 ++ back 70, []))
on_tcp_recv_data-delays_example =
    on_tcp_recv_data-delays ones (front 70) (back 70) login 1 (cut-IsFrame 70)
      (omega (arith, length-take 70 login_bytes, login_bytes_size))
      (omega (arith, length-drop 70 login_bytes, login_bytes_size))
      (omega (arith, length-drop 70 login_bytes, login_bytes_size)) (omega (arith, cut_size 70))

-- A login and the first 30 bytes of the next.
abbrev one_and_a_bit : List ℕ
one_and_a_bit = login_bytes ++ front 30

on_tcp_recv_data-stream_example :
    on_tcp_recv_data ones 5 [] one_and_a_bit ≡ some (front 30, received login ∷ [])
on_tcp_recv_data-stream_example =
    on_tcp_recv_data-stream ones [] one_and_a_bit ((login_bytes, login) ∷ []) (front 30) 5
      (login-IsFrame, tt)
      (inr (
        cut-IsStart ones (front 30) (back 30) login (cut-IsFrame 30)
          (omega (arith, length-take 30 login_bytes, login_bytes_size))
          (omega (arith, length-drop 30 login_bytes, login_bytes_size))
          (omega (arith, cut_size 30))))
      (ap (λ (t : List ℕ). t ++ front 30) (sym (append-nil login_bytes)))
      (omega (arith, length-append login_bytes (front 30), login_bytes_size))
      (omega
        (arith, length-append login_bytes (front 30), length-take 30 login_bytes, login_bytes_size))
      (omega arith)

on_tcp_recv_data-Returns_example :
    Returns
      (λ r. length r.0 ≤ length (nonsense ++ nonsense))
      (on_tcp_recv_data ones 30 nonsense nonsense)
on_tcp_recv_data-Returns_example = on_tcp_recv_data-Returns ones nonsense nonsense 30 (omega arith)

auth_resp-delivered_example :
    let w = write_packet pack_auth_resp (record { header = header_of 0x8002; body = answer }) [] in
    on_tcp_recv_data ones 3 [] w.1
    ≡ some (
      [],
      received (
            auth_resp (record {
              header = sized (header_of 0x8002) (auth_resp_bytes answer);
              body = answer;
            }))
          ∷ [],
    )
auth_resp-delivered_example =
    auth_resp-delivered ones (header_of 0x8002) answer 1 (header_of-IsHeader 0x8002 (omega arith))
      refl refl answer-IsAuthResp (omega (arith, answer_size))
