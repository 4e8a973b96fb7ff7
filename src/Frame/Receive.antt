-- ===== src/Frame/Receive.antt =====
-- TcpNetProtocolEvent::on_tcp_recv_data.
pub mod Ends
pub mod Stream
pub mod Frames
pub mod Chunks
use net_lib_wrapper.Prelude.{
  ℕ, suc, ◌+◌, ◌^◌, ◌%◌, Bool, true, false, not, ◌&&◌, Option, none, some, List, [], ◌∷◌, ◌++◌, ltb,
  ◌==◌, if◌then◌else◌, length, take, drop, Round, leave, again, stuck, iterate,
}
use net_lib_wrapper.Frame.Parse.{
  Message, ParsedData, message, incomplete, broken, unknown, parse_data, parse_data_total_len,
  header_size,
}

-- What the handler is told: a packet, or data of an unknown type.
pub data Delivery : Type 0 where
  received : Message → Delivery
  unknown_packet : Delivery

-- `ui_data_offset`, and the calls made, oldest first.
pub record Scan : Type 0 where
  pub ui_data_offset : ℕ
  pub calls : List Delivery

-- `memcmp` with `htonl( MSG_HEAD_MAGIC )`.
unfoldable pub is_magic : List ℕ → Bool
is_magic (a ∷ b ∷ c ∷ d ∷ rest) = a == 0xA2 && b == 0xA2 && c == 0x2A && d == 0x2A
is_magic _ = false

-- What follows parse_data.
unfoldable pub after_parse : Scan → ParsedData → Round Scan
after_parse s (message n m) =
    again (record { ui_data_offset = s.ui_data_offset + n; calls = s.calls ++ (received m ∷ []) })
after_parse s incomplete = leave s
after_parse s broken = again (record s { ui_data_offset = s.ui_data_offset + 1 })
after_parse s unknown =
    again
      (record { ui_data_offset = s.ui_data_offset + 1; calls = s.calls ++ (unknown_packet ∷ []) })

-- The loop over `mv_recv_buf`. `beyond` is what memory holds after the buffer: the comparison with
-- the magic number and the look at the length do not stop at its end.
module _ (beyond buf : List ℕ) where
  unfoldable pub scan_once : Scan → Round Scan
  scan_once s =
      let i = s.ui_data_offset in
      let p_data = drop i buf ++ beyond in
      let ui_total_len = parse_data_total_len p_data in
      let step = after_parse s (parse_data p_data (length (drop i buf))) in
      if i == length buf
      then leave s
      else if not (is_magic p_data)
      then again (record s { ui_data_offset = i + 1 })
      else if ltb (length buf) ((ui_total_len + i) % 2 ^ 32)
      then leave s
      else step

  unfoldable pub scan : ℕ → Option Scan
  scan fuel = iterate fuel scan_once (record { ui_data_offset = 0; calls = [] })

-- `mv_recv_buf` after the call, and the calls it makes. Both ends of the loop keep what stands from
-- the offset on.
unfoldable pub on_tcp_recv_data : List ℕ → ℕ → List ℕ → List ℕ → Option (List ℕ × List Delivery)
on_tcp_recv_data beyond fuel mv_recv_buf p_data =
    let buf = mv_recv_buf ++ p_data in
    let done : Option (List ℕ × List Delivery) = elim (scan beyond buf fuel) [
      | none ↦ none
      | some s ↦ some (drop s.ui_data_offset buf, s.calls)
    ] in
    if ltb (length buf) header_size
    then some (buf, [])
    else if ltb (length p_data) header_size
    then some (buf, [])
    else done
