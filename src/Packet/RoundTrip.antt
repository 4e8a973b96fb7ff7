-- ===== src/Packet/RoundTrip.antt =====
-- What write_packet writes, read_packet reads back.
use net_lib_wrapper.Prelude.{
  ℕ, ◌+◌, ◌^◌, ◌%◌, ◌<◌, ◌≡◌, refl, ap, sym, ◌∙◌, true, List, [], ◌++◌, append_assoc, ◌==◌,
  Bool-cases, inl, inr, length, take, drop, arith, length-append, leb, le→leb,
}
use net_lib_wrapper.Wire.Endian.{host_bytes}
use net_lib_wrapper.Wire.Reader.{Reader, member, parse_u32}
use net_lib_wrapper.Wire.Writer.{Writer, ◌also◌, pack_at}
use net_lib_wrapper.Wire.RoundTrip.{
  parsed, Holds, Writes, Reads, then-Reads, member-Reads, also-Writes,
}
use net_lib_wrapper.Wire.Containers.{u32_bytes, pack_u32-Writes, parse_u32-Reads}
use net_lib_wrapper.Packet.Header.{
  MsgHeader, Packet, link_heart_resp, parse_header, pack_header, write_packet_size, write_packet,
  read_packet,
}

-- Words of 32 bits.
pub record IsHeader (h : MsgHeader) : Type 0 where
  pub magic_type : h.magic_type < 2 ^ 32
  pub msg_type : h.msg_type < 2 ^ 32
  pub total_len : h.total_len < 2 ^ 32
  pub seq_id : h.seq_id < 2 ^ 32
  pub i_ret : h.i_ret < 2 ^ 32

unfoldable pub header_bytes : MsgHeader → List ℕ
header_bytes h =
    u32_bytes h.magic_type
    ++ (u32_bytes h.msg_type
        ++ (u32_bytes h.total_len ++ (u32_bytes h.seq_id ++ u32_bytes h.i_ret)))

pub pack_header-Writes : (h : MsgHeader) → Writes (pack_header h) (header_bytes h)
unfolding pack_header header_bytes
pack_header-Writes h = also-Writes _ _ _ _ (pack_u32-Writes h.magic_type) (
    also-Writes _ _ _ _ (pack_u32-Writes h.msg_type) (
      also-Writes _ _ _ _ (pack_u32-Writes h.total_len)
        (also-Writes _ _ _ _ (pack_u32-Writes h.seq_id) (pack_u32-Writes h.i_ret))))

pub parse_header-Reads : (h : MsgHeader) → IsHeader h → Reads parse_header (header_bytes h) (λ _. h)
unfolding parse_header header_bytes
parse_header-Reads h ok =
    then-Reads _ _ _ _ _ _
      (member-Reads (λ h. h.magic_type) (λ v h. record h { magic_type = v }) parse_u32 _ _
        (parse_u32-Reads h.magic_type ok.magic_type))
      (then-Reads _ _ _ _ _ _
        (member-Reads (λ h. h.msg_type) (λ v h. record h { msg_type = v }) parse_u32 _ _
          (parse_u32-Reads h.msg_type ok.msg_type))
        (then-Reads _ _ _ _ _ _
          (member-Reads (λ h. h.total_len) (λ v h. record h { total_len = v }) parse_u32 _ _
            (parse_u32-Reads h.total_len ok.total_len))
          (then-Reads _ _ _ _ _ _
            (member-Reads (λ h. h.seq_id) (λ v h. record h { seq_id = v }) parse_u32 _ _
              (parse_u32-Reads h.seq_id ok.seq_id))
            (member-Reads (λ h. h.i_ret) (λ v h. record h { i_ret = v }) parse_u32 _ _
              (parse_u32-Reads h.i_ret ok.i_ret)))))

pub length-header_bytes : (h : MsgHeader) → length (header_bytes h) ≡ 20
unfolding header_bytes u32_bytes host_bytes
length-header_bytes h = refl

patched :
    (h : MsgHeader) (body : List ℕ) (n : ℕ)
    → take 8 (header_bytes h ++ body) ++ take 4 (u32_bytes n) ++ drop 12 (header_bytes h ++ body)
      ≡ header_bytes (record h { total_len = n }) ++ body
unfolding header_bytes u32_bytes host_bytes
patched h body n = refl

-- Patching bytes 8 to 12 replaces `total_len`.
write_packet_size_lem :
    (h : MsgHeader) (body : List ℕ)
    → 20 + length body < 2 ^ 32
    → write_packet_size (header_bytes h ++ body)
      ≡ (true, header_bytes (record h { total_len = 20 + length body }) ++ body)
unfolding write_packet_size pack_at u32_bytes
write_packet_size_lem h body lt =
    let len : length (header_bytes h ++ body) ≡ 20 + length body =
      omega (arith, length-append (header_bytes h) body, length-header_bytes h) in
    let fits : leb 12 (20 + length body) ≡ true = le→leb 12 (20 + length body) (omega arith) in
    let size : (20 + length body) % 2 ^ 32 ≡ 20 + length body = omega arith in
    rw (len, size, fits) (ap (λ (t : List ℕ). (true, t)) (patched h body (20 + length body)))

-- The header that write_packet leaves, with the length of the packet in it.
abbrev pub sized : MsgHeader → List ℕ → MsgHeader
sized h body = record h { total_len = 20 + length body }

module _ {T : Type 0} (body : T) (body_bytes : List ℕ) where
  -- write_packet appends nothing but the header, with the length of the whole, and the body.
  pub write_packet_lem :
      (pack_body : T → Writer) (h : MsgHeader)
      → Writes (pack_body body) body_bytes
      → 20 + length body_bytes < 2 ^ 32
      → write_packet pack_body (record { header = h; body = body }) []
        ≡ (true, header_bytes (sized h body_bytes) ++ body_bytes)
  unfolding write_packet ◌also◌
  write_packet_lem pack_body h law lt = elim (Bool-cases (h.msg_type == link_heart_resp)) [
    | inl heart ↦
        rw
          (
            heart,
            pack_header-Writes h [],
            law (header_bytes h),
            write_packet_size_lem h body_bytes lt,
          )
          refl
    | inr else' ↦
        rw
          (
            else',
            pack_header-Writes h [],
            law (header_bytes h),
            write_packet_size_lem h body_bytes lt,
          )
          refl
  ]

  -- read_packet finds the header and the body.
  pub read_packet_lem :
      (parse_body : List ℕ → ℕ → Reader T) (h : MsgHeader) (old : Packet T) (rest : List ℕ)
      → Reads parse_body body_bytes (λ _. body)
      → IsHeader h
      → read_packet parse_body (header_bytes h ++ (body_bytes ++ rest)) (20 + length body_bytes) old
        ≡ parsed (20 + length body_bytes) (record { header = h; body = body })
  unfolding read_packet
  read_packet_lem parse_body h old rest law ok =
      let sum : length (header_bytes h ++ body_bytes) ≡ 20 + length body_bytes =
        omega (arith, length-append (header_bytes h) body_bytes, length-header_bytes h) in
      let total : 0 + length (header_bytes h ++ body_bytes) ≡ 20 + length body_bytes =
        omega (arith, sum) in
      let held : Holds (header_bytes h ++ (body_bytes ++ rest)) (20 + length body_bytes) 0
          (header_bytes h ++ body_bytes) =
        record {
          rest = rest;
          there = sym (append_assoc (header_bytes h) body_bytes rest);
          fits = omega (arith, sum);
        } in
      then-Reads
        (λ buf size.
          member (λ p. p.header) (λ v p. record p { header = v }) (parse_header buf size))
        (λ buf size. member (λ p. p.body) (λ v p. record p { body = v }) (parse_body buf size))
        (header_bytes h) body_bytes (λ p. record p { header = h }) (λ p. record p { body = body })
        (member-Reads (λ p. p.header) (λ v p. record p { header = v }) parse_header _ _
          (parse_header-Reads h ok))
        (member-Reads (λ p. p.body) (λ v p. record p { body = v }) parse_body _ _ law)
        (header_bytes h ++ (body_bytes ++ rest)) (20 + length body_bytes) 0 old held
      ∙ ap (λ (n : ℕ). parsed n (record { header = h; body = body })) total

  -- What write_packet makes of a packet, read_packet reads back from the front of any buffer, with
  -- `total_len` set to the number of bytes.
  pub read_packet-write_packet :
      (pack_body : T → Writer) (parse_body : List ℕ → ℕ → Reader T) (h : MsgHeader) (old : Packet T)
      (rest : List ℕ)
      → Writes (pack_body body) body_bytes
      → Reads parse_body body_bytes (λ _. body)
      → IsHeader h
      → 20 + length body_bytes < 2 ^ 32
      → let w = write_packet pack_body (record { header = h; body = body }) [] in
        (w.0 ≡ true)
        × (length w.1 ≡ 20 + length body_bytes)
        × (read_packet parse_body (w.1 ++ rest) (length w.1) old
            ≡ parsed (length w.1) (record { header = sized h body_bytes; body = body }))
  read_packet-write_packet pack_body parse_body h old rest writes reads ok lt =
      let sum : length (header_bytes (sized h body_bytes) ++ body_bytes) ≡ 20 + length body_bytes =
        omega (
          arith,
          length-append (header_bytes (sized h body_bytes)) body_bytes,
          length-header_bytes (sized h body_bytes),
        ) in
      let ok' : IsHeader (sized h body_bytes) = record {
        magic_type = ok.magic_type;
        msg_type = ok.msg_type;
        total_len = lt;
        seq_id = ok.seq_id;
        i_ret = ok.i_ret;
      } in
      rw
        (
          write_packet_lem pack_body h writes lt,
          sum,
          append_assoc (header_bytes (sized h body_bytes)) body_bytes rest,
          read_packet_lem parse_body (sized h body_bytes) old rest reads ok',
        )
        (refl, refl, refl)
