-- ===== src/Packet/Bodies/Received.antt =====
-- What a request with texts is once it is read.
use net_lib_wrapper.Prelude.{ℕ, ◌^◌, ◌<◌, ◌+◌, ◌≡◌, ap, true, List, ◌++◌, length}
use net_lib_wrapper.Wire.Reader.{parse_u32, parse_string}
use net_lib_wrapper.Wire.RoundTrip.{Holds, Reads, then-Reads, member-Reads}
use net_lib_wrapper.Wire.Containers.{u32_bytes, string_bytes, parse_u32-Reads, parse_string-Reads}
use net_lib_wrapper.Packet.Bodies.Text.{c_str, IsText, c_str-IsText, settle-holds, settle-Reads}
use net_lib_wrapper.Packet.Bodies.Settings.{GroupCfgChgReqBody, parse_group_cfg_chg_req}

-- The two texts of a request to change a group.
pub record HasTexts (b : GroupCfgChgReqBody) : Type 0 where
  pub s_members : IsText b.s_members
  pub s_alias : IsText b.s_alias

-- Whatever bytes stand in the buffer, a request to change a group that is read has no zero byte in
-- its two texts.
pub parse_group_cfg_chg_req-HasTexts :
    (pc_buffer : List ℕ) (i_size i : ℕ) (old : GroupCfgChgReqBody)
    → (parse_group_cfg_chg_req pc_buffer i_size i old).ok ≡ true
    → HasTexts (parse_group_cfg_chg_req pc_buffer i_size i old).value
unfolding parse_group_cfg_chg_req
parse_group_cfg_chg_req-HasTexts buf size i old =
    settle-holds HasTexts _ _
      (λ b. record { s_members = c_str-IsText b.s_members; s_alias = c_str-IsText b.s_alias }) i old

-- A body as its members stand in a packet.
abbrev pub group_cfg_chg_bytes : GroupCfgChgReqBody → List ℕ
group_cfg_chg_bytes b =
    u32_bytes b.ui_id
    ++ (u32_bytes b.ui_num ++ (string_bytes b.s_members ++ string_bytes b.s_alias))

pub record IsGroupCfgChg (b : GroupCfgChgReqBody) : Type 0 where
  pub ui_id : b.ui_id < 2 ^ 32
  pub ui_num : b.ui_num < 2 ^ 32
  pub s_members : length b.s_members < 2 ^ 31
  pub s_alias : length b.s_alias < 2 ^ 31

pub parse_group_cfg_chg_req-Reads :
    (b : GroupCfgChgReqBody)
    → IsGroupCfgChg b
    → Reads parse_group_cfg_chg_req
        (group_cfg_chg_bytes b)
        (λ _. record b { s_members = c_str b.s_members; s_alias = c_str b.s_alias })
unfolding parse_group_cfg_chg_req
parse_group_cfg_chg_req-Reads b ok = settle-Reads _ _ (group_cfg_chg_bytes b) _ (
    then-Reads _ _ (u32_bytes b.ui_id) _ _ _
      (member-Reads _ _ parse_u32 _ _ (parse_u32-Reads b.ui_id ok.ui_id))
      (then-Reads _ _ (u32_bytes b.ui_num) _ _ _
        (member-Reads _ _ parse_u32 _ _ (parse_u32-Reads b.ui_num ok.ui_num))
        (then-Reads _ _ (string_bytes b.s_members) _ _ _
          (member-Reads _ _ parse_string _ _ (parse_string-Reads b.s_members ok.s_members))
          (member-Reads _ _ parse_string _ _ (parse_string-Reads b.s_alias ok.s_alias)))))

-- The bytes of a request to change a group, wherever in a buffer they end within its size, are read
-- as that request with each text cut before its first zero byte; the offset moves past them, and
-- neither text then has a zero byte.
pub parse_group_cfg_chg_req-c_str :
    (b old : GroupCfgChgReqBody) (pc_buffer : List ℕ) (i_size i : ℕ)
    → IsGroupCfgChg b
    → Holds pc_buffer i_size i (group_cfg_chg_bytes b)
    → (parse_group_cfg_chg_req pc_buffer i_size i old ≡ record {
      ok = true;
      i_offset = i + length (group_cfg_chg_bytes b);
      value = record b { s_members = c_str b.s_members; s_alias = c_str b.s_alias };
    })
      × HasTexts (parse_group_cfg_chg_req pc_buffer i_size i old).value
parse_group_cfg_chg_req-c_str b old buf size i ok h =
    let e = parse_group_cfg_chg_req-Reads b ok buf size i old h in
    (e, parse_group_cfg_chg_req-HasTexts buf size i old (ap (λ r. r.ok) e))
