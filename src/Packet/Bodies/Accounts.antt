-- ===== src/Packet/Bodies/Accounts.antt =====
-- The bodies of requests about accounts, which carry a digest of a length that they name, of at
-- most PSW_LEN bytes, and the user's name.
use net_lib_wrapper.Prelude.{ℕ, ◌++◌, Bool, List, leb, drop, if◌then◌else◌}
use net_lib_wrapper.Wire.Reader.{
  Reader, ◌then◌, member, parse_bytes, parse_u32, parse_u64, parse_string, parse_map,
}
use net_lib_wrapper.Packet.Bodies.Text.{c_str, settle}

abbrev pub psw_len : ℕ
psw_len = 16

-- `&& c` between two calls.
unfoldable pub check : {S : Type 0} → (S → Bool) → Reader S
check c i s = record { ok = c s; i_offset = i; value = s }

-- The call with an array and a length: the bytes are copied to its front.
unfoldable pub parse_front : List ℕ → ℕ → ℕ → Reader (List ℕ)
parse_front pc_buffer i_size n i old =
    let a = parse_bytes pc_buffer i_size n i old in
    record { ok = a.ok; i_offset = a.i_offset; value = if a.ok then a.value ++ drop n old else old }

-- `MSDelAccountReqBody_S`: `ui_user_len` is never read.
pub record DelAccountReqBody : Type 0 where
  pub ui_passwd_len : ℕ
  pub auc_digest : List ℕ
  pub ui_user_len : ℕ
  pub str_user_name : List ℕ

unfoldable pub parse_del_account_req : List ℕ → ℕ → Reader DelAccountReqBody
parse_del_account_req pc_buffer i_size =
    settle (λ b. record b { str_user_name = c_str b.str_user_name })
      (member (λ b. b.ui_passwd_len) (λ v b. record b { ui_passwd_len = v })
          (parse_u32 pc_buffer i_size)
        then check (λ b. leb b.ui_passwd_len psw_len)
        then (λ i b.
            member (λ b. b.auc_digest) (λ v b. record b { auc_digest = v })
              (parse_front pc_buffer i_size b.ui_passwd_len) i b)
        then member (λ b. b.str_user_name) (λ v b. record b { str_user_name = v })
            (parse_string pc_buffer i_size))

-- `MSChgAccountPasswdReqBody_S`
pub record ChgAccountPasswdReqBody : Type 0 where
  pub ui_passwd_len : ℕ
  pub auc_digest : List ℕ
  pub str_user_name : List ℕ
  pub ui_user_passwd_len : ℕ
  pub auc_user_digest : List ℕ

unfoldable pub parse_chg_account_passwd_req : List ℕ → ℕ → Reader ChgAccountPasswdReqBody
parse_chg_account_passwd_req pc_buffer i_size =
    settle (λ b. record b { str_user_name = c_str b.str_user_name })
      (member (λ b. b.ui_passwd_len) (λ v b. record b { ui_passwd_len = v })
          (parse_u32 pc_buffer i_size)
        then check (λ b. leb b.ui_passwd_len psw_len)
        then (λ i b.
            member (λ b. b.auc_digest) (λ v b. record b { auc_digest = v })
              (parse_front pc_buffer i_size b.ui_passwd_len) i b)
        then member (λ b. b.str_user_name) (λ v b. record b { str_user_name = v })
            (parse_string pc_buffer i_size)
        then member (λ b. b.ui_user_passwd_len) (λ v b. record b { ui_user_passwd_len = v })
            (parse_u32 pc_buffer i_size)
        then check (λ b. leb b.ui_user_passwd_len psw_len)
        then (λ i b.
            member (λ b. b.auc_user_digest) (λ v b. record b { auc_user_digest = v })
              (parse_front pc_buffer i_size b.ui_user_passwd_len) i b))

-- `MSAddAccountReqBody_S`, and `MSChgAccountPremissionReqBody_S`, which has the same members and the
-- same parse_req.
pub record AccountReqBody : Type 0 where
  pub ui_passwd_len : ℕ
  pub auc_digest : List ℕ
  pub str_user_name : List ℕ
  pub ui_user_premission : ℕ
  pub ul_out_dev_premission : ℕ
  pub ui_group_premission : List (ℕ × ℕ)
  pub str_extend : List ℕ

unfoldable pub parse_account_req : List ℕ → ℕ → Reader AccountReqBody
parse_account_req pc_buffer i_size =
    settle (λ b. record b { str_user_name = c_str b.str_user_name })
      (member (λ b. b.ui_passwd_len) (λ v b. record b { ui_passwd_len = v })
          (parse_u32 pc_buffer i_size)
        then check (λ b. leb b.ui_passwd_len psw_len)
        then (λ i b.
            member (λ b. b.auc_digest) (λ v b. record b { auc_digest = v })
              (parse_front pc_buffer i_size b.ui_passwd_len) i b)
        then member (λ b. b.str_user_name) (λ v b. record b { str_user_name = v })
            (parse_string pc_buffer i_size)
        then member (λ b. b.ui_user_premission) (λ v b. record b { ui_user_premission = v })
            (parse_u32 pc_buffer i_size)
        then member (λ b. b.ul_out_dev_premission) (λ v b. record b { ul_out_dev_premission = v })
            (parse_u64 pc_buffer i_size)
        then member (λ b. b.ui_group_premission) (λ v b. record b { ui_group_premission = v })
            (parse_map pc_buffer i_size (parse_u64 pc_buffer i_size) 0)
        then member (λ b. b.str_extend) (λ v b. record b { str_extend = v })
            (parse_string pc_buffer i_size))
