-- ===== src/Session/Handle/Answers.antt =====
-- The answers of the server, as the client's side reads them.
use net_lib_wrapper.Prelude.{
  ℕ, zero, suc, ◌+◌, ◌*◌, ◌^◌, ◌≤◌, ◌<◌, ◌≡◌, refl, ap, sym, ◌∙◌, true, some, List, [], ◌∷◌, ◌++◌,
  append-nil, length, length-append, All, arith, ◌==◌, if◌then◌else◌,
}
use net_lib_wrapper.Prelude.Assoc.{Above, IsSorted}
use net_lib_wrapper.Wire.Endian.{host_bytes}
use net_lib_wrapper.Wire.RoundTrip.{Writes, Reads}
use net_lib_wrapper.Wire.Containers.{u32_bytes, u64_bytes, string_bytes, entries_bytes, map_bytes}
use net_lib_wrapper.Wire.Maps.{IsMap}
use net_lib_wrapper.Packet.Header.{MsgHeader, Packet, write_packet}
use net_lib_wrapper.Packet.RoundTrip.{IsHeader, header_bytes, sized}
use net_lib_wrapper.Packet.Login.{
  Null, VerReqBody, AuthReqBody, AuthRespBody, parse_null, pack_null, pack_auth_resp,
}
use net_lib_wrapper.Packet.Login.Trips.{IsAuthResp, auth_resp_bytes}
use net_lib_wrapper.Frame.Parse.{
  ver_resp, auth_resp, parse_packet, word_at, ver_nego_resp, link_auth_resp,
}
use net_lib_wrapper.Frame.Receive.{received, on_tcp_recv_data}
use net_lib_wrapper.Frame.Receive.Stream.{IsFrame}
use net_lib_wrapper.Frame.Receive.Frames.{
  sized-IsHeader, word_at-msg_type, packet-IsFrame, case_packet_lem, written-delivered,
  auth_resp-delivered,
}
use net_lib_wrapper.Session.Handle.{ver_answer, levels, extend, auth_answer, packed}

pack_null-Writes : (b : Null) → Writes (pack_null b) []
unfolding pack_null
pack_null-Writes b buf = ap (λ (t : List ℕ). (true, t)) (sym (append-nil buf))

parse_null-Reads : (b : Null) → Reads parse_null [] (λ _. b)
unfolding parse_null
parse_null-Reads b buf size i old h =
    ap (λ n. record { ok = true; i_offset = n; value = b }) (omega arith)

ver_resp-IsFrame :
    (h : MsgHeader) (b : Null)
    → IsHeader h
    → h.magic_type ≡ 0xA2A22A2A
    → h.msg_type ≡ ver_nego_resp
    → IsFrame
        (header_bytes (sized h []) ++ [])
        (ver_resp (record { header = sized h []; body = b }))
unfolding parse_packet
ver_resp-IsFrame h b ok magic type =
    let h' = sized h [] in
    let ok' = sized-IsHeader h [] ok (omega arith) in
    packet-IsFrame h' [] (ver_resp (record { header = h'; body = b })) ok' magic refl (omega arith)
      λ rest.
        let is_type : word_at 4 (header_bytes h' ++ ([] ++ rest)) ≡ ver_nego_resp =
          word_at-msg_type h' ([] ++ rest) ok'.msg_type ∙ type in
        rw is_type
          (case_packet_lem ver_resp parse_null (record {}) b [] h' rest (parse_null-Reads b) ok')

ver_answer-IsHeader : (p : Packet VerReqBody) → IsHeader p.header → IsHeader (ver_answer p).header
unfolding ver_answer
ver_answer-IsHeader p ok = record {
  magic_type = ok.magic_type;
  msg_type = omega arith;
  total_len = omega arith;
  seq_id = ok.seq_id;
  i_ret = ground arith;
}

pub ver_answer-packed :
    (p : Packet VerReqBody)
    → packed (ver_resp (ver_answer p)) ≡ some (write_packet pack_null (ver_answer p) []).1
unfolding packed ver_answer
ver_answer-packed p = refl

pub ver_answer-read :
    (beyond : List ℕ) (p : Packet VerReqBody) (fuel : ℕ)
    → IsHeader p.header
    → p.header.magic_type ≡ 0xA2A22A2A
    → on_tcp_recv_data beyond (suc (suc fuel)) [] (write_packet pack_null (ver_answer p) []).1
      ≡ some (
        [],
        received (
              ver_resp (record {
                header = record {
                  magic_type = 0xA2A22A2A;
                  msg_type = ver_nego_resp;
                  total_len = 20;
                  seq_id = p.header.seq_id;
                  i_ret =
                      if p.body.ui_major_ver == 1
                      then (if p.body.ui_sub_ver == 0 then 0 else 2)
                      else 2;
                };
                body = record {};
              }))
            ∷ [],
      )
unfolding ver_answer
ver_answer-read beyond p fuel ok magic =
    let a = ver_answer p in
    let b : Null = record {} in
    let f = ver_resp-IsFrame a.header b (ver_answer-IsHeader p ok) magic refl in
    rw (sym magic) (
      written-delivered ver_resp pack_null b [] a.header beyond fuel (pack_null-Writes b) f
        (omega arith))

-- The server answers every request for a version; in one piece, the client's side reads the answer
-- as the packet with the request's magic and sequence numbers, and with the result 0 for version 1.0
-- and 2 for any other.
pub ver_answer-delivered :
    (beyond : List ℕ) (p : Packet VerReqBody) (fuel : ℕ)
    → IsHeader p.header
    → p.header.magic_type ≡ 0xA2A22A2A
    → (w : List ℕ) × (packed (ver_resp (ver_answer p)) ≡ some w)
      × (on_tcp_recv_data beyond (suc (suc fuel)) [] w
          ≡ some (
            [],
            received (
                  ver_resp (record {
                    header = record {
                      magic_type = 0xA2A22A2A;
                      msg_type = ver_nego_resp;
                      total_len = 20;
                      seq_id = p.header.seq_id;
                      i_ret =
                          if p.body.ui_major_ver == 1
                          then (if p.body.ui_sub_ver == 0 then 0 else 2)
                          else 2;
                    };
                    body = record {};
                  }))
                ∷ [],
          ))
ver_answer-delivered beyond p fuel ok magic = (
  (write_packet pack_null (ver_answer p) []).1,
  ver_answer-packed p,
  ver_answer-read beyond p fuel ok magic,
)

levels-Above : (n k b : ℕ) → b < k → Above b (levels n k)
unfolding levels
levels-Above zero k b h = tt
levels-Above (suc n) k b h = (h, levels-Above n (suc k) k (omega arith))

levels-IsSorted : (n k : ℕ) → IsSorted (levels n k)
unfolding levels
levels-IsSorted zero k = tt
levels-IsSorted (suc n) k = levels-Above n (suc k) k (omega arith)

length-levels : (n k : ℕ) → length (levels n k) ≡ n
unfolding levels
length-levels zero k = refl
length-levels (suc n) k = ap suc (length-levels n (suc k))

levels-small : (n k b : ℕ) → n + k ≤ b → All (λ (e : ℕ × ℕ). (e.0 < b) × (e.1 < b)) (levels n k)
unfolding levels
levels-small zero k b h = tt
levels-small (suc n) k b h = ((omega arith, omega arith), levels-small n (suc k) b (omega arith))

length-entries : (n k : ℕ) → length (entries_bytes u64_bytes (levels n k)) ≡ 12 * n
unfolding levels entries_bytes u64_bytes u32_bytes host_bytes
length-entries zero k = refl
length-entries (suc n) k = omega (arith, length-entries n (suc k))

All-weaken :
    (P Q : ℕ × ℕ → Type 0) (m : List (ℕ × ℕ)) → ((e : ℕ × ℕ) → P e → Q e) → All P m → All Q m
All-weaken P Q [] f a = tt
All-weaken P Q (e ∷ m) f a = (f e a.0, All-weaken P Q m f a.1)

levels-IsMap : (n : ℕ) → n < 2 ^ 32 → IsMap (λ v. v < 2 ^ 64) (levels n 0)
levels-IsMap n h = record {
  sorted = levels-IsSorted n 0;
  small = omega (arith, length-levels n 0);
  keys =
      All-weaken (λ e. (e.0 < 2 ^ 32) × (e.1 < 2 ^ 32)) (λ e. e.0 < 2 ^ 32) (levels n 0)
        (λ e p. p.0) (levels-small n 0 (2 ^ 32) (omega arith));
  values =
      All-weaken (λ e. (e.0 < 2 ^ 32) × (e.1 < 2 ^ 32)) (λ e. e.1 < 2 ^ 64) (levels n 0)
        (λ e p. omega (arith, p.1)) (levels-small n 0 (2 ^ 32) (omega arith));
}

-- The body of the answer to a login, with any number of levels.
abbrev body_with : ℕ → AuthRespBody
body_with n = record {
  ui_client_id = 1;
  i_client_type = 1;
  ul_out_dev_premission = 1;
  ui_client_level_map = levels n 0;
  str_extend = extend;
}

body_with-IsAuthResp : (n : ℕ) → n < 2 ^ 32 → IsAuthResp (body_with n)
body_with-IsAuthResp n h = record {
  ui_client_id = omega arith;
  i_client_type = omega arith;
  ul_out_dev_premission = omega arith;
  ui_client_level_map = levels-IsMap n h;
  str_extend = omega arith;
}

length-body_with : (n : ℕ) → length (auth_resp_bytes (body_with n)) ≡ 57 + 12 * n
unfolding auth_resp_bytes map_bytes string_bytes u64_bytes u32_bytes host_bytes
length-body_with n =
    let entries = entries_bytes u64_bytes (levels n 0) in
    omega (arith, length-entries n 0, length-append entries (string_bytes extend))

auth_answer-IsHeader :
    (p : Packet AuthReqBody) → IsHeader p.header → IsHeader (auth_answer p).header
unfolding auth_answer
auth_answer-IsHeader p ok = record {
  magic_type = ok.magic_type;
  msg_type = omega arith;
  total_len = omega arith;
  seq_id = ok.seq_id;
  i_ret = omega arith;
}

pub auth_answer-packed :
    (p : Packet AuthReqBody)
    → packed (auth_resp (auth_answer p)) ≡ some (write_packet pack_auth_resp (auth_answer p) []).1
unfolding packed auth_answer
auth_answer-packed p = refl

pub auth_answer-read :
    (beyond : List ℕ) (p : Packet AuthReqBody) (fuel : ℕ)
    → IsHeader p.header
    → p.header.magic_type ≡ 0xA2A22A2A
    → on_tcp_recv_data beyond (suc (suc fuel)) [] (write_packet pack_auth_resp (auth_answer p) []).1
      ≡ some (
        [],
        received (
              auth_resp (record {
                header = record {
                  magic_type = 0xA2A22A2A;
                  msg_type = link_auth_resp;
                  total_len = 1200077;
                  seq_id = p.header.seq_id;
                  i_ret = 0;
                };
                body = (auth_answer p).body;
              }))
            ∷ [],
      )
unfolding auth_answer
auth_answer-read beyond p fuel ok magic =
    let a = auth_answer p in
    let size = length-body_with 100000 in
    auth_resp-delivered beyond a.header a.body fuel (auth_answer-IsHeader p ok) magic refl
      (body_with-IsAuthResp 100000 (omega arith)) (omega (arith, size))
    ∙ ap
        (λ (h : MsgHeader).
          some ([], received (auth_resp (record { header = h; body = a.body })) ∷ []))
        (ground (arith, size, magic))

-- The server answers every login; in one piece, the client's side reads the answer as the packet
-- with the request's magic and sequence numbers, the client id 1, and all the levels.
pub auth_answer-delivered :
    (beyond : List ℕ) (p : Packet AuthReqBody) (fuel : ℕ)
    → IsHeader p.header
    → p.header.magic_type ≡ 0xA2A22A2A
    → (w : List ℕ) × (packed (auth_resp (auth_answer p)) ≡ some w)
      × (on_tcp_recv_data beyond (suc (suc fuel)) [] w
          ≡ some (
            [],
            received (
                  auth_resp (record {
                    header = record {
                      magic_type = 0xA2A22A2A;
                      msg_type = link_auth_resp;
                      total_len = 1200077;
                      seq_id = p.header.seq_id;
                      i_ret = 0;
                    };
                    body = (auth_answer p).body;
                  }))
                ∷ [],
          ))
auth_answer-delivered beyond p fuel ok magic = (
  (write_packet pack_auth_resp (auth_answer p) []).1,
  auth_answer-packed p,
  auth_answer-read beyond p fuel ok magic,
)
