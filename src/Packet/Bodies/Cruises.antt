-- ===== src/Packet/Bodies/Cruises.antt =====
-- The bodies of packets about cruises and the presets of pictures, which carry arrays of structures.
-- `htons` and `htonl` swap the bytes of a word on a little-endian machine, as ms_endian does.
use net_lib_wrapper.Prelude.{
  zero, suc, Bool, true, false, Option, none, some, [], ◌∷◌, if◌then◌else◌, ℕ, List, leb,
}
use net_lib_wrapper.Wire.Endian.{ms_endian16, ms_endian32}
use net_lib_wrapper.Wire.Reader.{Reader, ◌then◌, member, parse_u16, parse_u32}
use net_lib_wrapper.Wire.Writer.{Writer, ◌also◌, pack_u16, pack_u32, pack_bytes}
use net_lib_wrapper.Wire.Lists.{parse_array, pack_array}
use net_lib_wrapper.Packet.Bodies.Accounts.{check, parse_front}
use net_lib_wrapper.Packet.Bodies.Alarms.{require}

abbrev pub cruise_len : ℕ
cruise_len = 256

abbrev pub cruise_preset_len : ℕ
cruise_preset_len = 64

abbrev pub alias_len_max : ℕ
alias_len_max = 256

-- `CmdPreset`
pub record CmdPreset : Type 0 where
  pub slide : ℕ
  pub ptz : ℕ
  pub second : ℕ

unfoldable pub parse_cmd_preset : List ℕ → ℕ → Reader CmdPreset
parse_cmd_preset pc_buffer i_size =
    member (λ b. b.slide) (λ v b. record b { slide = v }) (parse_u16 pc_buffer i_size)
    then member (λ b. b.ptz) (λ v b. record b { ptz = v }) (parse_u16 pc_buffer i_size)
    then member (λ b. b.second) (λ v b. record b { second = v }) (parse_u32 pc_buffer i_size)

-- The members are swapped before the calls, which swap them again.
unfoldable pub pack_cmd_preset : CmdPreset → Writer
pack_cmd_preset st_packet =
    pack_u16 (ms_endian16 st_packet.slide)
    also pack_u16 (ms_endian16 st_packet.ptz)
    also pack_u32 (ms_endian32 st_packet.second)

-- `CmdCruise`
pub record CmdCruise : Type 0 where
  pub if_cur : ℕ
  pub no : ℕ
  pub alias_len : ℕ
  pub alias : List ℕ
  pub num : ℕ
  pub presets : List CmdPreset

-- The copy `st_cmd_cruise`.
unfoldable pub swapped_cruise : CmdCruise → CmdCruise
swapped_cruise c = record c {
  if_cur = ms_endian16 c.if_cur;
  no = ms_endian16 c.no;
  alias_len = ms_endian32 c.alias_len;
  num = ms_endian32 c.num;
}

-- The alias is copied with the length of the copy. `none` is a copy from past the end of its array,
-- after which nothing is known.
unfoldable pub pack_cmd_cruise : CmdCruise → List ℕ → Option (Bool × List ℕ)
pack_cmd_cruise st_packet buffer =
    let c = swapped_cruise st_packet in
    let written : Writer =
      pack_u16 c.if_cur
      also pack_u16 c.no
      also pack_u32 c.alias_len
      also pack_bytes c.alias c.alias_len
      also pack_u32 c.num
      also require (leb c.num cruise_preset_len)
      also pack_array pack_cmd_preset c.presets c.num in
    if leb c.alias_len alias_len_max then some (written buffer) else none

-- The loop over an array goes on after an element that is written.
abbrev pub after_cruise :
    Option (Bool × List ℕ) → (List ℕ → Option (Bool × List ℕ)) → Option (Bool × List ℕ)
after_cruise none more = none
after_cruise (some (false, buffer)) more = some (false, buffer)
after_cruise (some (true, buffer)) more = more buffer

-- The template for arrays at CmdCruise; `none` also for a count past the end of the array.
unfoldable pub pack_cruises : List CmdCruise → ℕ → List ℕ → Option (Bool × List ℕ)
pack_cruises cs zero buffer = some (true, buffer)
pack_cruises [] (suc n) buffer = none
pack_cruises (c ∷ cs) (suc n) buffer = after_cruise (pack_cmd_cruise c buffer) (pack_cruises cs n)

-- `MSGetCruiseInfoReqBody_S`
pub record GetCruiseInfoReqBody : Type 0 where
  pub ui_group : ℕ

unfoldable pub parse_get_cruise_info_req : List ℕ → ℕ → Reader GetCruiseInfoReqBody
parse_get_cruise_info_req pc_buffer i_size =
    member (λ b. b.ui_group) (λ v b. record b { ui_group = v }) (parse_u32 pc_buffer i_size)

-- `MSGetCruiseInfoRespBody_S`
pub record GetCruiseInfoRespBody : Type 0 where
  pub ui_num : ℕ
  pub cruises : List CmdCruise

unfoldable pub pack_get_cruise_info_resp : GetCruiseInfoRespBody → List ℕ → Option (Bool × List ℕ)
pack_get_cruise_info_resp st_packet buffer =
    let counted =
      (pack_u32 st_packet.ui_num also require (leb st_packet.ui_num cruise_len)) buffer in
    after_cruise (some counted) (pack_cruises st_packet.cruises st_packet.ui_num)

-- `MSBSetCruiseReqBody_S`
pub record BSetCruiseReqBody : Type 0 where
  pub ui_group : ℕ
  pub ui_no : ℕ
  pub alias_len : ℕ
  pub alias : List ℕ
  pub ui_num : ℕ
  pub presets : List CmdPreset

unfoldable pub parse_b_set_cruise_req : List ℕ → ℕ → Reader BSetCruiseReqBody
parse_b_set_cruise_req pc_buffer i_size =
    member (λ b. b.ui_group) (λ v b. record b { ui_group = v }) (parse_u32 pc_buffer i_size)
    then member (λ b. b.ui_no) (λ v b. record b { ui_no = v }) (parse_u32 pc_buffer i_size)
    then member (λ b. b.alias_len) (λ v b. record b { alias_len = v }) (parse_u32 pc_buffer i_size)
    then check (λ b. leb b.alias_len alias_len_max)
    then (λ i b.
        member (λ b. b.alias) (λ v b. record b { alias = v })
          (parse_front pc_buffer i_size b.alias_len) i b)
    then member (λ b. b.ui_num) (λ v b. record b { ui_num = v }) (parse_u32 pc_buffer i_size)
    then check (λ b. leb b.ui_num cruise_preset_len)
    then (λ i b.
        member (λ b. b.presets) (λ v b. record b { presets = v })
          (parse_array (parse_cmd_preset pc_buffer i_size) cruise_preset_len b.ui_num) i b)

-- `MSStartCruiseReqBody_S`
pub record StartCruiseReqBody : Type 0 where
  pub ui_group : ℕ
  pub ui_no : ℕ

unfoldable pub parse_start_cruise_req : List ℕ → ℕ → Reader StartCruiseReqBody
parse_start_cruise_req pc_buffer i_size =
    member (λ b. b.ui_group) (λ v b. record b { ui_group = v }) (parse_u32 pc_buffer i_size)
    then member (λ b. b.ui_no) (λ v b. record b { ui_no = v }) (parse_u32 pc_buffer i_size)

-- `PicPreset`
pub record PicPreset : Type 0 where
  pub slide : ℕ
  pub ptz : ℕ
  pub x : ℕ
  pub y : ℕ

unfoldable pub parse_pic_preset : List ℕ → ℕ → Reader PicPreset
parse_pic_preset pc_buffer i_size =
    member (λ b. b.slide) (λ v b. record b { slide = v }) (parse_u16 pc_buffer i_size)
    then member (λ b. b.ptz) (λ v b. record b { ptz = v }) (parse_u16 pc_buffer i_size)
    then member (λ b. b.x) (λ v b. record b { x = v }) (parse_u16 pc_buffer i_size)
    then member (λ b. b.y) (λ v b. record b { y = v }) (parse_u16 pc_buffer i_size)

abbrev pub picpresets_len : ℕ
picpresets_len = 256

-- `MSSetPicReqBody_S`
pub record SetPicReqBody : Type 0 where
  pub ui_group : ℕ
  pub ui_num : ℕ
  pub presets : List PicPreset

unfoldable pub parse_set_pic_req : List ℕ → ℕ → Reader SetPicReqBody
parse_set_pic_req pc_buffer i_size =
    member (λ b. b.ui_group) (λ v b. record b { ui_group = v }) (parse_u32 pc_buffer i_size)
    then member (λ b. b.ui_num) (λ v b. record b { ui_num = v }) (parse_u32 pc_buffer i_size)
    then check (λ b. leb b.ui_num picpresets_len)
    then (λ i b.
        member (λ b. b.presets) (λ v b. record b { presets = v })
          (parse_array (parse_pic_preset pc_buffer i_size) picpresets_len b.ui_num) i b)
