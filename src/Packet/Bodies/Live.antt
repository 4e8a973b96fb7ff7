-- ===== src/Packet/Bodies/Live.antt =====
-- The bodies of requests about a live picture, whose serial number takes what the header's length
-- leaves, and of those that turn a platform.
use net_lib_wrapper.Prelude.{ℕ, ◌+◌, ◌-◌, ◌^◌, ◌%◌, ◌||◌, List, leb}
use net_lib_wrapper.Wire.Reader.{Reader, ◌then◌, member, parse_u32, parse_f32}
use net_lib_wrapper.Frame.Parse.{header_size, parse_data_total_len, zeros}
use net_lib_wrapper.Packet.Bodies.Accounts.{check, parse_front}

abbrev pub dev_sn_len : ℕ
dev_sn_len = 128

-- `ntohl( total_len )` less the header and `rest` bytes, as a UINT32.
unfoldable pub sn_len : List ℕ → ℕ → ℕ
unfolding parse_data_total_len
sn_len pc_buffer rest =
    (parse_data_total_len pc_buffer % 2 ^ 32 + (2 ^ 32 - (header_size + rest))) % 2 ^ 32

-- The last calls: a length that the array has, and the bytes at its front.
unfoldable pub parse_sn : List ℕ → ℕ → ℕ → Reader (List ℕ)
parse_sn pc_buffer i_size i_total_len =
    check (λ a. leb i_total_len dev_sn_len) then parse_front pc_buffer i_size i_total_len

-- `MSLiveGetClrIdxReqBody_S`
pub record LiveGetClrIdxReqBody : Type 0 where
  pub ac_sn : List ℕ

unfoldable pub parse_live_get_clr_idx_req : List ℕ → ℕ → Reader LiveGetClrIdxReqBody
unfolding sn_len parse_sn
parse_live_get_clr_idx_req pc_buffer i_size i b =
    member (λ b. b.ac_sn) (λ v b. record b { ac_sn = v })
      (parse_sn pc_buffer i_size (sn_len pc_buffer 0)) i (record b { ac_sn = zeros dev_sn_len })

-- `MSLiveSetClrIdxReqBody_S`, and `MSLiveSetAdjustTypeReqBody_S`, whose word is `i_adjust_type` and
-- which is read in the same way.
pub record LiveSetClrIdxReqBody : Type 0 where
  pub i_color_idx : ℕ
  pub ac_sn : List ℕ

unfoldable pub parse_live_set_clr_idx_req : List ℕ → ℕ → Reader LiveSetClrIdxReqBody
unfolding sn_len parse_sn
parse_live_set_clr_idx_req pc_buffer i_size i b =
    (member (λ b. b.i_color_idx) (λ v b. record b { i_color_idx = v }) (parse_u32 pc_buffer i_size)
        then member (λ b. b.ac_sn) (λ v b. record b { ac_sn = v })
            (parse_sn pc_buffer i_size (sn_len pc_buffer 4)))
      i (record b { ac_sn = zeros dev_sn_len })

-- `MSLiveSetAdjustRangeReqBody_S`
pub record LiveSetAdjustRangeReqBody : Type 0 where
  pub f_max : ℕ
  pub f_min : ℕ
  pub ac_sn : List ℕ

unfoldable pub parse_live_set_adjust_range_req : List ℕ → ℕ → Reader LiveSetAdjustRangeReqBody
unfolding sn_len parse_sn
parse_live_set_adjust_range_req pc_buffer i_size i b =
    (member (λ b. b.f_max) (λ v b. record b { f_max = v }) (parse_f32 pc_buffer i_size)
        then member (λ b. b.f_min) (λ v b. record b { f_min = v }) (parse_f32 pc_buffer i_size)
        then member (λ b. b.ac_sn) (λ v b. record b { ac_sn = v })
            (parse_sn pc_buffer i_size (sn_len pc_buffer 8)))
      i (record b { ac_sn = zeros dev_sn_len })

abbrev pub ptz_sn_len : ℕ
ptz_sn_len = 64

-- `MSPtzDirectCommReqBody_S`
pub record PtzDirectCommReqBody : Type 0 where
  pub i_sn_len : ℕ
  pub ac_ptz_sn : List ℕ

-- The length is an INT32, and a negative one passes the test.
unfoldable pub parse_ptz_direct_comm_req : List ℕ → ℕ → Reader PtzDirectCommReqBody
parse_ptz_direct_comm_req pc_buffer i_size =
    member (λ b. b.i_sn_len) (λ v b. record b { i_sn_len = v }) (parse_u32 pc_buffer i_size)
    then check (λ b. leb b.i_sn_len ptz_sn_len || leb (2 ^ 31) b.i_sn_len)
    then (λ i b.
        member (λ b. b.ac_ptz_sn) (λ v b. record b { ac_ptz_sn = v })
          (parse_front pc_buffer i_size b.i_sn_len) i b)
