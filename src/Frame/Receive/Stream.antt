-- ===== src/Frame/Receive/Stream.antt =====
-- Which messages on_tcp_recv_data delivers.
use net_lib_wrapper.Prelude.{
  ℕ, zero, suc, ◌+◌, ◌-◌, ◌^◌, ◌%◌, ◌≤◌, ◌<◌, ◌≡◌, ◌⊎◌, refl, ap, sym, ◌∙◌, inl, inr, true, false,
  some, List, [], ◌∷◌, ◌++◌, append-nil, append_assoc, ltb, ◌==◌, length, drop, All, length-drop,
  length-append, drop-drop, drop_append_lem, arith, le→ltb, lt→ltb, leave, again, iterate,
}
use net_lib_wrapper.Frame.Parse.{Message, message, parse_data, parse_data_total_len, header_size}
use net_lib_wrapper.Frame.Receive.{
  Delivery, received, Scan, is_magic, after_parse, scan_once, scan, on_tcp_recv_data,
}

-- Bytes that parse_data takes for this message, whatever follows them.
pub record IsFrame (bytes : List ℕ) (m : Message) : Type 0 where
  pub full : header_size ≤ length bytes
  pub magic : (rest : List ℕ) → is_magic (bytes ++ rest) ≡ true
  pub total : (rest : List ℕ) → parse_data_total_len (bytes ++ rest) ≡ length bytes
  pub parses :
      (rest : List ℕ) (n : ℕ)
      → length bytes ≤ n
      → parse_data (bytes ++ rest) n ≡ message (length bytes) m

abbrev pub AreFrames : List (List ℕ × Message) → Type 0
AreFrames = All (λ (f : List ℕ × Message). IsFrame f.0 f.1)

-- The frames one after the other, and the calls for their messages.
abbrev pub stream : List (List ℕ × Message) → List ℕ
stream [] = []
stream ((bytes, m) ∷ fs) = bytes ++ stream fs

abbrev pub deliveries : List (List ℕ × Message) → List Delivery
deliveries [] = []
deliveries ((bytes, m) ∷ fs) = received m ∷ deliveries fs

module _ (beyond : List ℕ) where
  -- The start of a message that has not come in full: its magic number and its length are there, or
  -- complete in the memory beyond, and its length is more than the tail.
  pub record IsStart (tail : List ℕ) : Type 0 where
    pub some_bytes : 0 < length tail
    pub magic : is_magic (tail ++ beyond) ≡ true
    pub more : length tail < parse_data_total_len (tail ++ beyond)
    pub bounded : parse_data_total_len (tail ++ beyond) < 2 ^ 31

  module _ (buf : List ℕ) (small : length buf < 2 ^ 31) where
    scan_once-frame :
        (s : Scan) (bytes : List ℕ) (m : Message) (rest : List ℕ)
        → IsFrame bytes m
        → drop s.ui_data_offset buf ≡ bytes ++ rest
        → scan_once beyond buf s
          ≡ again (record {
            ui_data_offset = s.ui_data_offset + length bytes;
            calls = s.calls ++ (received m ∷ []);
          })
    unfolding scan_once after_parse
    scan_once-frame s bytes m rest f there =
        let i = s.ui_data_offset in
        let left : length buf - i ≡ length bytes + length rest =
          sym (length-drop i buf) ∙ ap length there ∙ length-append bytes rest in
        let more : (i == length buf) ≡ false = ground (arith, f.full, left) in
        let after = rest ++ beyond in
        let view : drop i buf ++ beyond ≡ bytes ++ after =
          ap (λ (t : List ℕ). t ++ beyond) there ∙ append_assoc bytes rest beyond in
        let total = f.total after in
        let here : ltb (length buf) ((length bytes + i) % 2 ^ 32) ≡ false =
          le→ltb (length buf) ((length bytes + i) % 2 ^ 32) (omega (arith, left, small, f.full)) in
        let parses =
          f.parses after (length (drop i buf)) (omega (arith, left, length-drop i buf)) in
        rw (more, view, f.magic after, total, here, parses) refl

    scan_once-start :
        (s : Scan) (tail : List ℕ)
        → s.ui_data_offset ≤ length buf
        → (tail ≡ []) ⊎ IsStart tail
        → drop s.ui_data_offset buf ≡ tail
        → scan_once beyond buf s ≡ leave s
    unfolding scan_once
    scan_once-start s tail within (inl nothing) there =
        let i = s.ui_data_offset in
        let left : length buf - i ≡ 0 =
          sym (length-drop i buf) ∙ ap length there ∙ ap length nothing in
        let over : (i == length buf) ≡ true = ground (arith, left) in rw over refl
    scan_once-start s tail within (inr start) there =
        let i = s.ui_data_offset in
        let left : length buf - i ≡ length tail = sym (length-drop i buf) ∙ ap length there in
        let more : (i == length buf) ≡ false = ground (arith, left, start.some_bytes) in
        let n = parse_data_total_len (tail ++ beyond) in
        let wait : ltb (length buf) ((n + i) % 2 ^ 32) ≡ true =
          lt→ltb (length buf) ((n + i) % 2 ^ 32)
            (omega (arith, left, small, start.more, start.bounded, within)) in
        rw (more, there, start.magic, wait) refl

    scan-frames :
        (fs : List (List ℕ × Message)) (tail : List ℕ) (fuel : ℕ) (s : Scan)
        → AreFrames fs
        → (tail ≡ []) ⊎ IsStart tail
        → s.ui_data_offset ≤ length buf
        → drop s.ui_data_offset buf ≡ stream fs ++ tail
        → length fs < fuel
        → iterate fuel (scan_once beyond buf) s
          ≡ some (record {
            ui_data_offset = s.ui_data_offset + length (stream fs);
            calls = s.calls ++ deliveries fs;
          })
    unfolding iterate
    scan-frames fs tail zero s a w within there lt = absurd (omega arith)
    scan-frames [] tail (suc fuel) s a w within there lt =
        let none_more : s.ui_data_offset + 0 ≡ s.ui_data_offset = omega arith in
        rw (scan_once-start s tail within w there, none_more, append-nil s.calls) refl
    scan-frames ((bytes, m) ∷ fs) tail (suc fuel) s (f, a) w within there lt =
        let i = s.ui_data_offset in
        let rest = stream fs ++ tail in
        let split : drop i buf ≡ bytes ++ rest = there ∙ append_assoc bytes (stream fs) tail in
        let left : length buf - i ≡ length bytes + length rest =
          sym (length-drop i buf) ∙ ap length split ∙ length-append bytes rest in
        let next : Scan = record {
          ui_data_offset = i + length bytes;
          calls = s.calls ++ (received m ∷ []);
        } in
        let there' : drop (i + length bytes) buf ≡ rest =
          sym (drop-drop i (length bytes) buf)
          ∙ ap (drop (length bytes)) split
          ∙ drop_append_lem bytes rest in
        let ih =
          scan-frames fs tail fuel next a w (omega (arith, left, f.full)) there' (omega arith) in
        let sum : i + length bytes + length (stream fs) ≡ i + length (bytes ++ stream fs) =
          omega (arith, length-append bytes (stream fs)) in
        rw
          (
            scan_once-frame s bytes m rest f split,
            ih,
            sum,
            append_assoc s.calls (received m ∷ []) (deliveries fs),
          )
          refl

  -- If what was kept and what comes in are whole messages, followed by nothing or by the start of
  -- another whose magic number and length the memory from there on shows, the length being more than
  -- has come in and below 2 ^ 31, at least a header's size comes in, and the buffer stays below
  -- 2 ^ 31 bytes, then exactly these messages are delivered, in order, and the start of the next is
  -- kept. A start of less than 12 bytes is of this kind only if the memory beyond it happens to
  -- show the rest of the two words.
  pub on_tcp_recv_data-stream :
      (mv_recv_buf p_data : List ℕ) (fs : List (List ℕ × Message)) (tail : List ℕ) (fuel : ℕ)
      → AreFrames fs
      → (tail ≡ []) ⊎ IsStart tail
      → mv_recv_buf ++ p_data ≡ stream fs ++ tail
      → header_size ≤ length p_data
      → length (mv_recv_buf ++ p_data) < 2 ^ 31
      → length fs < fuel
      → on_tcp_recv_data beyond fuel mv_recv_buf p_data ≡ some (tail, deliveries fs)
  unfolding on_tcp_recv_data scan
  on_tcp_recv_data-stream mv_recv_buf p_data fs tail fuel a w e enough small lt =
      let buf = mv_recv_buf ++ p_data in
      let sum = length-append mv_recv_buf p_data in
      let long : ltb (length buf) header_size ≡ false =
        le→ltb (length buf) header_size (omega (arith, sum, enough)) in
      let big : ltb (length p_data) header_size ≡ false =
        le→ltb (length p_data) header_size enough in
      let start : Scan = record { ui_data_offset = 0; calls = [] } in
      let found = scan-frames buf small fs tail fuel start a w (omega arith) e lt in
      let at_end : 0 + length (stream fs) ≡ length (stream fs) = omega arith in
      let kept : drop (length (stream fs)) buf ≡ tail =
        ap (drop (length (stream fs))) e ∙ drop_append_lem (stream fs) tail in
      rw (long, big, found, at_end, kept) refl
