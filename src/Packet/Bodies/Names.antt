-- ===== src/Packet/Bodies/Names.antt =====
-- The name of a picture stays within its array.
use net_lib_wrapper.Prelude.{
  ℕ, ◌+◌, ◌%◌, ◌^◌, ◌≤◌, ◌<◌, ◌≡◌, ◌∙◌, true, List, length, arith, leb, ltb, leb→le, ltb→lt, ltb→le,
  Bool-cases, inl, inr,
}
use net_lib_wrapper.Wire.Reader.{member, parse_bytes}
use net_lib_wrapper.Packet.Bodies.Accounts.{parse_front}
use net_lib_wrapper.Packet.Bodies.Digests.{then_at, check_at, length-parse_front}
use net_lib_wrapper.Packet.Bodies.Listed.{SetEPicReqBody, parse_set_e_pic_req, pic_name_len}

-- A length that is negative as an INT32 leaves the array as it is.
parse_front-negative :
    (pc_buffer : List ℕ) (i_size n i : ℕ) (old : List ℕ)
    → 2 ^ 31 ≤ n
    → (parse_front pc_buffer i_size n i old).value ≡ old
unfolding parse_front parse_bytes
parse_front-negative buf size n i old h = ground arith

-- A length whose successor wraps to a small number is negative.
name_length : (n : ℕ) → leb ((n + 1) % 2 ^ 32) pic_name_len ≡ true → n < 2 ^ 31 → n ≤ 127
name_length n good lt = omega (arith, leb→le ((n + 1) % 2 ^ 32) pic_name_len good)

parse_front-name :
    (pc_buffer : List ℕ) (i_size n i : ℕ) (old : List ℕ)
    → i_size ≤ length pc_buffer
    → leb ((n + 1) % 2 ^ 32) pic_name_len ≡ true
    → length old ≡ pic_name_len
    → length (parse_front pc_buffer i_size n i old).value ≡ pic_name_len
parse_front-name buf size n i old le good h = elim (Bool-cases (ltb n (2 ^ 31))) [
  | inl small ↦
      length-parse_front buf size n i old le
        (omega (arith, name_length n good (ltb→lt n (2 ^ 31) small), h))
      ∙ h
  | inr large ↦ rw (parse_front-negative buf size n i old (ltb→le n (2 ^ 31) large)) h
]

-- Whatever bytes stand in the buffer, of which there are as many as its size, and whether the call
-- succeeds or not, the reader of a request to set a picture leaves the array of the picture's name
-- at its length: also a length of 2 ^ 32 - 1, whose successor is 0 and so passes the test, does not
-- make it write past the end.
pub parse_set_e_pic_req-length :
    (pc_buffer : List ℕ) (i_size i : ℕ) (b : SetEPicReqBody)
    → i_size ≤ length pc_buffer
    → length b.ac_pic_cname ≡ pic_name_len
    → length (parse_set_e_pic_req pc_buffer i_size i b).value.ac_pic_cname ≡ pic_name_len
unfolding parse_set_e_pic_req member
parse_set_e_pic_req-length buf size i b le h =
    let P : SetEPicReqBody → Type 0 = λ b. length b.ac_pic_cname ≡ pic_name_len in
    then_at P _ _ i b h (λ i b h. then_at P _ _ i b h (λ i b h. check_at P _ _ i b h (λ good.
      then_at P _ _ i b (parse_front-name buf size b.ui_pic_cname_len i b.ac_pic_cname le good h)
        (λ i b h. h))))
