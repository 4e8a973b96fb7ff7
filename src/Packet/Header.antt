-- ===== src/Packet/Header.antt =====
-- MsgHeader_S, and write_packet and read_packet around any body.
use net_lib_wrapper.Prelude.{ℕ, ◌+◌, ◌^◌, ◌%◌, List, ◌==◌, if◌then◌else◌, length}
use net_lib_wrapper.Wire.Endian.{ms_endian32, host_bytes}
use net_lib_wrapper.Wire.Reader.{Parsed, Reader, ◌then◌, member, parse_u32}
use net_lib_wrapper.Wire.Writer.{Writer, ◌also◌, pack_u32, pack_at}

-- `MsgHeader_S`, which is also CommReq_S and CommResp_S. `i_ret`, an INT32, as its 32 bits.
pub record MsgHeader : Type 0 where
  pub magic_type : ℕ
  pub msg_type : ℕ
  pub total_len : ℕ
  pub seq_id : ℕ
  pub i_ret : ℕ

-- Its constructor.
abbrev pub empty_header : MsgHeader
empty_header = record { magic_type = 0; msg_type = 0; total_len = 0; seq_id = 0; i_ret = 0 }

-- MSPacketReq_S, MSPacketResp_S
pub record Packet (T : Type 0) : Type 0 where
  pub header : MsgHeader
  pub body : T

-- IR_MONITOR_LINK_HEART_RESP
abbrev pub link_heart_resp : ℕ
link_heart_resp = 3 + 0x8000

unfoldable pub parse_header : List ℕ → ℕ → Reader MsgHeader
parse_header pc_buffer i_size =
    member (λ h. h.magic_type) (λ v h. record h { magic_type = v }) (parse_u32 pc_buffer i_size)
    then member (λ h. h.msg_type) (λ v h. record h { msg_type = v }) (parse_u32 pc_buffer i_size)
    then member (λ h. h.total_len) (λ v h. record h { total_len = v }) (parse_u32 pc_buffer i_size)
    then member (λ h. h.seq_id) (λ v h. record h { seq_id = v }) (parse_u32 pc_buffer i_size)
    then member (λ h. h.i_ret) (λ v h. record h { i_ret = v }) (parse_u32 pc_buffer i_size)

unfoldable pub pack_header : MsgHeader → Writer
pack_header st_packet =
    pack_u32 st_packet.magic_type
    also pack_u32 st_packet.msg_type
    also pack_u32 st_packet.total_len
    also pack_u32 st_packet.seq_id
    also pack_u32 st_packet.i_ret

-- The size of the whole buffer, at the offset of `total_len`.
unfoldable pub write_packet_size : Writer
write_packet_size buffer =
    pack_at (4 + 4) (host_bytes 4 (ms_endian32 (length buffer % 2 ^ 32))) 4 buffer

-- Both branches of the source write the header, since CommResp_S is MsgHeader_S.
unfoldable pub write_packet : {T : Type 0} → (T → Writer) → Packet T → Writer
write_packet pack_body st_packet =
    (if st_packet.header.msg_type == link_heart_resp
      then pack_header st_packet.header
      else pack_header st_packet.header)
    also pack_body st_packet.body
    also write_packet_size

unfoldable pub read_packet :
    {T : Type 0} → (List ℕ → ℕ → Reader T) → List ℕ → ℕ → Packet T → Parsed (Packet T)
read_packet parse_body pc_buffer size st_packet =
    (member (λ p. p.header) (λ v p. record p { header = v }) (parse_header pc_buffer size)
        then member (λ p. p.body) (λ v p. record p { body = v }) (parse_body pc_buffer size))
      0 st_packet
