-- ===== src/Frame/Receive/Frames.antt =====
-- The packets of the handshake, as write_packet makes them, are frames.
use net_lib_wrapper.Prelude.{
  ℕ, suc, inl, some, append-nil, ◌+◌, ◌^◌, ◌<◌, ◌≡◌, refl, ap, sym, ◌∙◌, true, false, List, [], ◌∷◌,
  ◌++◌, append_assoc, ltb, length, length-append, arith, le→ltb,
}
use net_lib_wrapper.Wire.Endian.{ms_endian32, host_bytes, host_value}
use net_lib_wrapper.Wire.Endian.Reverse.{ms_endian32_involution, host_value-host_bytes}
use net_lib_wrapper.Wire.Reader.{Reader}
use net_lib_wrapper.Wire.Writer.{Writer}
use net_lib_wrapper.Wire.RoundTrip.{Writes, Reads}
use net_lib_wrapper.Wire.Containers.{u32_bytes}
use net_lib_wrapper.Packet.Header.{MsgHeader, empty_header, Packet, write_packet}
use net_lib_wrapper.Packet.RoundTrip.{
  IsHeader, header_bytes, length-header_bytes, read_packet_lem, write_packet_lem, sized,
}
use net_lib_wrapper.Packet.Login.{
  AuthReqBody, AuthRespBody, parse_auth_req, parse_auth_resp, pack_auth_req, pack_auth_resp,
}
use net_lib_wrapper.Packet.Login.Trips.{
  IsAuthReq, IsAuthResp, auth_req_bytes, auth_resp_bytes, parse_auth_req-Reads,
  parse_auth_resp-Reads, pack_auth_req-Writes, pack_auth_resp-Writes,
}
use net_lib_wrapper.Frame.Parse.{
  Message, auth_req, auth_resp, packet, parse_data, parse_packet, case_packet, parse_data_total_len,
  word_at, header_size, link_auth_req, link_auth_resp, new_auth_req, new_auth_resp,
}
use net_lib_wrapper.Frame.Receive.{is_magic, received, on_tcp_recv_data}
use net_lib_wrapper.Frame.Receive.Stream.{IsFrame, on_tcp_recv_data-stream}

word_back : (n : ℕ) → n < 2 ^ 32 → ms_endian32 (host_value (u32_bytes n)) ≡ n
unfolding u32_bytes
word_back n lt =
    let (small, back) = ms_endian32_involution n lt in
    rw (host_value-host_bytes 4 (ms_endian32 n) small) back

word_at-total_len :
    (h : MsgHeader) (rest : List ℕ)
    → h.total_len < 2 ^ 32
    → word_at 8 (header_bytes h ++ rest) ≡ h.total_len
unfolding word_at header_bytes u32_bytes host_bytes
word_at-total_len h rest lt = word_back h.total_len lt

total_len_lem :
    (h : MsgHeader) (rest : List ℕ) (n : ℕ)
    → h.total_len < 2 ^ 32
    → h.total_len ≡ n
    → parse_data_total_len (header_bytes h ++ rest) ≡ n
unfolding parse_data_total_len
total_len_lem h rest n lt e = word_at-total_len h rest lt ∙ e

pub word_at-msg_type :
    (h : MsgHeader) (rest : List ℕ)
    → h.msg_type < 2 ^ 32
    → word_at 4 (header_bytes h ++ rest) ≡ h.msg_type
unfolding word_at header_bytes u32_bytes host_bytes
word_at-msg_type h rest lt = word_back h.msg_type lt

magic_lem :
    (h : MsgHeader) (rest : List ℕ)
    → h.magic_type ≡ 0xA2A22A2A
    → is_magic (header_bytes h ++ rest) ≡ true
unfolding is_magic header_bytes u32_bytes host_bytes ms_endian32
magic_lem h rest e = rw e refl

-- A header with the right magic number and length before a body that parse_packet accepts.
module _ (h : MsgHeader) (body : List ℕ) (m : Message) where
  pub packet-IsFrame :
      IsHeader h
      → h.magic_type ≡ 0xA2A22A2A
      → h.total_len ≡ 20 + length body
      → 20 + length body < 2 ^ 31
      → ((rest : List ℕ)
          → parse_packet (header_bytes h ++ (body ++ rest)) (20 + length body) ≡ packet m)
      → IsFrame (header_bytes h ++ body) m
  unfolding parse_data
  packet-IsFrame ok magic total lt parses =
      let sum : length (header_bytes h ++ body) ≡ 20 + length body =
        omega (arith, length-append (header_bytes h) body, length-header_bytes h) in
      record {
        full = omega (arith, sum);
        magic =
            λ rest. rw (append_assoc (header_bytes h) body rest) (magic_lem h (body ++ rest) magic);
        total = λ rest.
            rw (append_assoc (header_bytes h) body rest)
              (total_len_lem h (body ++ rest) (20 + length body) ok.total_len total ∙ sym sum);
        parses = λ rest n le.
            let enough : ltb n header_size ≡ false =
              le→ltb n header_size (omega (arith, sum, le)) in
            let all : ltb n (20 + length body) ≡ false =
              le→ltb n (20 + length body) (omega (arith, sum, le)) in
            rw
              (
                append_assoc (header_bytes h) body rest,
                total_len_lem h (body ++ rest) (20 + length body) ok.total_len total,
                enough,
                all,
                parses rest,
                sum,
              )
              refl;
      }

-- A case of parse_packet that read_packet serves.
pub case_packet_lem :
    {T : Type 0} (make : Packet T → Message) (parse_body : List ℕ → ℕ → Reader T) (empty body : T)
    (bytes : List ℕ) (h : MsgHeader) (rest : List ℕ)
    → Reads parse_body bytes (λ _. body)
    → IsHeader h
    → case_packet make parse_body empty (header_bytes h ++ (bytes ++ rest)) (20 + length bytes)
      ≡ packet (make (record { header = h; body = body }))
unfolding case_packet
case_packet_lem make parse_body empty body bytes h rest reads ok =
    rw
      (read_packet_lem body bytes parse_body h (record { header = empty_header; body = empty }) rest
        reads ok)
      refl

-- The header after write_packet.
pub sized-IsHeader :
    (h : MsgHeader) (body : List ℕ)
    → IsHeader h
    → 20 + length body < 2 ^ 31
    → IsHeader (sized h body)
sized-IsHeader h body ok lt = record {
  magic_type = ok.magic_type;
  msg_type = ok.msg_type;
  total_len = omega (arith, lt);
  seq_id = ok.seq_id;
  i_ret = ok.i_ret;
}

-- An answer to a login with the magic number and its message type, as write_packet makes it, of less
-- than 2 ^ 31 bytes, is taken for that message, whatever follows it.
pub auth_resp-IsFrame :
    (h : MsgHeader) (b : AuthRespBody)
    → IsHeader h
    → h.magic_type ≡ 0xA2A22A2A
    → h.msg_type ≡ link_auth_resp
    → IsAuthResp b
    → 20 + length (auth_resp_bytes b) < 2 ^ 31
    → let h' = sized h (auth_resp_bytes b) in
      IsFrame (header_bytes h' ++ auth_resp_bytes b) (auth_resp (record { header = h'; body = b }))
unfolding parse_packet
auth_resp-IsFrame h b ok magic type bok lt =
    let bytes = auth_resp_bytes b in
    let h' = sized h bytes in
    let ok' = sized-IsHeader h bytes ok lt in
    packet-IsFrame h' bytes (auth_resp (record { header = h'; body = b })) ok' magic refl lt λ rest.
      let is_type : word_at 4 (header_bytes h' ++ (bytes ++ rest)) ≡ link_auth_resp =
        word_at-msg_type h' (bytes ++ rest) ok'.msg_type ∙ type in
      rw is_type (
        case_packet_lem auth_resp parse_auth_resp new_auth_resp b bytes h' rest
          (parse_auth_resp-Reads b bok) ok')

-- The same of a login.
pub auth_req-IsFrame :
    (h : MsgHeader) (b : AuthReqBody)
    → IsHeader h
    → h.magic_type ≡ 0xA2A22A2A
    → h.msg_type ≡ link_auth_req
    → IsAuthReq b
    → 20 + length (auth_req_bytes b) < 2 ^ 31
    → let h' = sized h (auth_req_bytes b) in
      IsFrame (header_bytes h' ++ auth_req_bytes b) (auth_req (record { header = h'; body = b }))
unfolding parse_packet
auth_req-IsFrame h b ok magic type bok lt =
    let bytes = auth_req_bytes b in
    let h' = sized h bytes in
    let ok' = sized-IsHeader h bytes ok lt in
    packet-IsFrame h' bytes (auth_req (record { header = h'; body = b })) ok' magic refl lt λ rest.
      let is_type : word_at 4 (header_bytes h' ++ (bytes ++ rest)) ≡ link_auth_req =
        word_at-msg_type h' (bytes ++ rest) ok'.msg_type ∙ type in
      rw is_type (
        case_packet_lem auth_req parse_auth_req new_auth_req b bytes h' rest
          (parse_auth_req-Reads b bok) ok')

-- A written packet that is a frame is delivered by one call on an empty buffer.
pub written-delivered :
    {T : Type 0} (make : Packet T → Message) (pack_body : T → Writer) (b : T) (bytes : List ℕ)
    (h : MsgHeader) (beyond : List ℕ) (fuel : ℕ)
    → Writes (pack_body b) bytes
    → IsFrame
        (header_bytes (sized h bytes) ++ bytes)
        (make (record { header = sized h bytes; body = b }))
    → 20 + length bytes < 2 ^ 31
    → on_tcp_recv_data beyond
        (suc (suc fuel))
        []
        (write_packet pack_body (record { header = h; body = b }) []).1
      ≡ some ([], received (make (record { header = sized h bytes; body = b })) ∷ [])
written-delivered make pack_body b bytes h beyond fuel law f lt =
    let h' = sized h bytes in
    let sum : length (header_bytes h' ++ bytes) ≡ 20 + length bytes =
      omega (arith, length-append (header_bytes h') bytes, length-header_bytes h') in
    rw (write_packet_lem b bytes pack_body h law (omega (arith, lt))) (
      on_tcp_recv_data-stream beyond [] (header_bytes h' ++ bytes)
        ((header_bytes h' ++ bytes, make (record { header = h'; body = b })) ∷ []) []
        (suc (suc fuel)) (f, tt) (inl refl)
        (sym (append-nil (header_bytes h' ++ bytes))
          ∙ ap (λ (t : List ℕ). t ++ []) (sym (append-nil (header_bytes h' ++ bytes))))
        f.full (omega (arith, sum, lt)) (omega arith))

-- What write_packet makes of an answer to a login with the magic number and its message type, of
-- less than 2 ^ 31 bytes, is delivered by one call on an empty buffer as that message with its
-- length in the header, whatever stands in memory after it, and nothing is kept.
pub auth_resp-delivered :
    (beyond : List ℕ) (h : MsgHeader) (b : AuthRespBody) (fuel : ℕ)
    → IsHeader h
    → h.magic_type ≡ 0xA2A22A2A
    → h.msg_type ≡ link_auth_resp
    → IsAuthResp b
    → 20 + length (auth_resp_bytes b) < 2 ^ 31
    → let w = write_packet pack_auth_resp (record { header = h; body = b }) [] in
      on_tcp_recv_data beyond (suc (suc fuel)) [] w.1
      ≡ some (
        [],
        received (auth_resp (record { header = sized h (auth_resp_bytes b); body = b })) ∷ [],
      )
auth_resp-delivered beyond h b fuel ok magic type bok lt =
    written-delivered auth_resp pack_auth_resp b (auth_resp_bytes b) h beyond fuel
      (pack_auth_resp-Writes b bok) (auth_resp-IsFrame h b ok magic type bok lt) lt

-- What write_packet makes of a login with the magic number and its message type, of
-- less than 2 ^ 31 bytes, is delivered by one call on an empty buffer as that message with its
-- length in the header, whatever stands in memory after it, and nothing is kept.
pub auth_req-delivered :
    (beyond : List ℕ) (h : MsgHeader) (b : AuthReqBody) (fuel : ℕ)
    → IsHeader h
    → h.magic_type ≡ 0xA2A22A2A
    → h.msg_type ≡ link_auth_req
    → IsAuthReq b
    → 20 + length (auth_req_bytes b) < 2 ^ 31
    → let w = write_packet pack_auth_req (record { header = h; body = b }) [] in
      on_tcp_recv_data beyond (suc (suc fuel)) [] w.1
      ≡ some
          ([], received (auth_req (record { header = sized h (auth_req_bytes b); body = b })) ∷ [])
auth_req-delivered beyond h b fuel ok magic type bok lt =
    written-delivered auth_req pack_auth_req b (auth_req_bytes b) h beyond fuel
      (pack_auth_req-Writes b bok) (auth_req-IsFrame h b ok magic type bok lt) lt
