-- ===== src/Frame/Receive/Ends.antt =====
-- The loop of on_tcp_recv_data ends, within its buffer.
use net_lib_wrapper.Prelude.{
  ℕ, zero, suc, ◌+◌, ◌-◌, ◌^◌, ◌%◌, ◌≤◌, ◌<◌, ◌≡◌, refl, inl, inr, none, List, [], ◌++◌, ltb, ◌==◌,
  length, drop, length-drop, arith, Bool-cases, Option-cases, Round, Keeps, iterate-Returns,
  Returns,
}
use net_lib_wrapper.Wire.Reader.{Reader, ◌then◌, member, parse_u32, parse_word}
use net_lib_wrapper.Packet.Header.{Packet, parse_header, read_packet}
use net_lib_wrapper.Frame.Parse.{
  Message, ParsedData, ParsedPacket, packet, message, incomplete, broken, unknown, parse_data,
  parse_packet, case_packet, data_result, parse_data_total_len, header_size,
}
use net_lib_wrapper.Frame.Receive.{Scan, is_magic, after_parse, scan_once, scan, on_tcp_recv_data}

-- A packet of length 0 has no header.
case_packet-zero :
    {T : Type 0} (make : Packet T → Message) (parse_body : List ℕ → ℕ → Reader T) (empty : T)
    (buf : List ℕ)
    → case_packet make parse_body empty buf 0 ≡ ParsedPacket.broken
unfolding case_packet read_packet ◌then◌ member parse_header parse_u32 parse_word
case_packet-zero make parse_body empty buf = refl

parse_packet-zero : (buf : List ℕ) (m : Message) → parse_packet buf 0 ≡ packet m → ⊥
unfolding parse_packet case_packet read_packet ◌then◌ member parse_header parse_u32 parse_word
parse_packet-zero buf m e = ground arith

parse_packet-positive : (buf : List ℕ) (n : ℕ) (m : Message) → parse_packet buf n ≡ packet m → 0 < n
parse_packet-positive buf zero m e = absurd (parse_packet-zero buf m e)
parse_packet-positive buf (suc n) m e = omega arith

data_result_lem :
    (n k : ℕ) (p : ParsedPacket) (m : Message)
    → data_result n p ≡ message k m
    → (k ≡ n) × (p ≡ packet m)
data_result_lem n k (packet m') m e = ground arith
data_result_lem n k ParsedPacket.broken m e = cc
data_result_lem n k ParsedPacket.unknown m e = cc

-- A message that parse_data finds is not empty, and lies within the data.
pub parse_data-message :
    (p_data : List ℕ) (ui_len k : ℕ) (m : Message)
    → parse_data p_data ui_len ≡ message k m
    → (0 < k) × (k ≤ ui_len)
unfolding parse_data
parse_data-message p_data ui_len k m e =
    let n = parse_data_total_len p_data in
    elim (Bool-cases (ltb ui_len header_size)) [
      | inl short ↦ absurd (ground arith)
      | inr enough ↦ elim (Bool-cases (ltb ui_len n)) [
        | inl more ↦ absurd (ground arith)
        | inr all ↦
            let whole : data_result n (parse_packet p_data n) ≡ message k m = ground arith in
            let (same, found) = data_result_lem n k (parse_packet p_data n) m whole in
            let pos = parse_packet-positive p_data n m found in
            (omega (arith, same, pos), ground arith)
      ]
    ]

module _ (beyond buf : List ℕ) where
  -- The offset stays within the buffer, and each round but the last moves it on.
  abbrev IsWithin : Scan → Type 0
  IsWithin s = s.ui_data_offset ≤ length buf

  abbrev Moves : Scan → Round Scan → Type 0
  Moves = Keeps IsWithin IsWithin (λ s. length buf - s.ui_data_offset)

  after_parse-Moves :
      (s : Scan) (d : ParsedData)
      → s.ui_data_offset < length buf
      → ((k : ℕ) (m : Message) → d ≡ message k m → (0 < k) × (k ≤ length buf - s.ui_data_offset))
      → Moves s (after_parse s d)
  unfolding after_parse
  after_parse-Moves s (message k m) lt law =
      let (pos, le) = law k m refl in (omega (arith, lt, le), omega (arith, lt, pos, le))
  after_parse-Moves s incomplete lt law = omega (arith, lt)
  after_parse-Moves s broken lt law = (omega (arith, lt), omega (arith, lt))
  after_parse-Moves s unknown lt law = (omega (arith, lt), omega (arith, lt))

  scan_once-Moves : (s : Scan) → IsWithin s → Moves s (scan_once beyond buf s)
  unfolding scan_once
  scan_once-Moves s within =
      let i = s.ui_data_offset in
      let p_data = drop i buf ++ beyond in
      elim (Bool-cases (i == length buf)) [
        | inl over ↦ rw over within
        | inr more ↦
            let lt : i < length buf = ground arith in
            elim (Bool-cases (is_magic p_data)) [
              | inr plain ↦ rw (more, plain) (omega (arith, lt), omega (arith, lt))
              | inl magic ↦
                  elim (Bool-cases
                    (ltb (length buf) ((parse_data_total_len p_data + i) % 2 ^ 32))) [
                      | inl wait ↦ rw (more, magic, wait) within
                      | inr here ↦
                          rw (more, magic, here)
                            (after_parse-Moves s _ lt λ k m e.
                              let (pos, le) =
                                parse_data-message p_data (length (drop i buf)) k m e in
                              (pos, omega (arith, le, length-drop i buf)))
                    ]
            ]
      ]

  scan-Returns : (fuel : ℕ) → length buf < fuel → Returns IsWithin (scan beyond buf fuel)
  unfolding scan
  scan-Returns fuel lt =
      iterate-Returns IsWithin IsWithin (λ s. length buf - s.ui_data_offset) (scan_once beyond buf)
        scan_once-Moves fuel (record { ui_data_offset = 0; calls = [] }) (omega arith) (omega arith)

-- Whatever the bytes are, also those past the end of the buffer, a round for each byte of the buffer
-- and one more are enough for the call to return, and it keeps no more bytes than it had and got.
pub on_tcp_recv_data-Returns :
    (beyond mv_recv_buf p_data : List ℕ) (fuel : ℕ)
    → length (mv_recv_buf ++ p_data) < fuel
    → Returns
        (λ r. length r.0 ≤ length (mv_recv_buf ++ p_data))
        (on_tcp_recv_data beyond fuel mv_recv_buf p_data)
unfolding on_tcp_recv_data
on_tcp_recv_data-Returns beyond mv_recv_buf p_data fuel lt =
    let buf = mv_recv_buf ++ p_data in
    elim (Bool-cases (ltb (length buf) header_size)) [
      | inl short ↦ rw short (omega arith)
      | inr enough ↦ elim (Bool-cases (ltb (length p_data) header_size)) [
        | inl small ↦ rw (enough, small) (omega arith)
        | inr big ↦ elim (Option-cases (scan beyond buf fuel)) [
          | inl out ↦
              let ends : Returns (IsWithin beyond buf) none =
                rw out at (scan-Returns beyond buf fuel lt) in
              absurd ends
          | inr (s, r) ↦ rw (enough, big, r) (omega (arith, length-drop s.ui_data_offset buf))
        ]
      ]
    ]
