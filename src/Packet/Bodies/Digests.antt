-- ===== src/Packet/Bodies/Digests.antt =====
-- The arrays of requests about accounts are not written past their ends.
use net_lib_wrapper.Prelude.{
  ℕ, ◌≤◌, ◌≡◌, refl, ◌∙◌, Bool, true, List, length, drop, length-take, length-drop, length-append,
  arith, if◌then◌else◌, Bool-cases, inl, inr, leb, leb→le,
}
use net_lib_wrapper.Wire.Reader.{Reader, ◌then◌, member, parse_bytes}
use net_lib_wrapper.Packet.Bodies.Text.{settle}
use net_lib_wrapper.Packet.Bodies.Accounts.{
  psw_len, check, parse_front, DelAccountReqBody, parse_del_account_req, ChgAccountPasswdReqBody,
  parse_chg_account_passwd_req, AccountReqBody, parse_account_req,
}

-- A reader keeps what holds of the structure, whether it succeeds or not.
abbrev Keeps : {S : Type 0} → (S → Type 0) → Reader S → Type 0
Keeps P p = (i : ℕ) (s : _) → P s → P (p i s).value

module _ {S : Type 0} (P : S → Type 0) where
  pub then_at :
      (p q : Reader S) (i : ℕ) (s : S) → P (p i s).value → Keeps P q → P ((p then q) i s).value
  unfolding ◌then◌
  then_at p q i s h hq = elim (Bool-cases (p i s).ok) [
    | inl good ↦ rw good (hq (p i s).i_offset (p i s).value h)
    | inr bad ↦ rw bad h
  ]

  pub check_at :
      (c : S → Bool) (q : Reader S) (i : ℕ) (s : S)
      → P s
      → (c s ≡ true → P (q i s).value)
      → P ((check c then q) i s).value
  unfolding ◌then◌ check
  check_at c q i s h hq = elim (Bool-cases (c s)) [
    | inl good ↦ rw good (hq good)
    | inr bad ↦ rw bad h
  ]

  settle-Keeps :
      (f : S → S) (p : Reader S) → ((s : S) → P s → P (f s)) → Keeps P p → Keeps P (settle f p)
  unfolding settle
  settle-Keeps f p hf hp i s h = elim (Bool-cases (p i s).ok) [
    | inl good ↦ rw good (hf (p i s).value (hp i s h))
    | inr bad ↦ rw bad (hp i s h)
  ]

length-parse_bytes :
    (pc_buffer : List ℕ) (i_size n i : ℕ) (old : List ℕ)
    → i_size ≤ length pc_buffer
    → (parse_bytes pc_buffer i_size n i old).ok ≡ true
    → length (parse_bytes pc_buffer i_size n i old).value ≡ n
unfolding parse_bytes
length-parse_bytes buf size n i old le =
    ground (arith, length-take n (drop i buf), length-drop i buf)

-- A call with a length that the array has leaves the array at its length.
pub length-parse_front :
    (pc_buffer : List ℕ) (i_size n i : ℕ) (old : List ℕ)
    → i_size ≤ length pc_buffer
    → n ≤ length old
    → length (parse_front pc_buffer i_size n i old).value ≡ length old
unfolding parse_front parse_bytes
length-parse_front buf size n i old le h = elim (Bool-cases (parse_bytes buf size n i old).ok) [
  | inl good ↦ rw good (
      omega (
        arith,
        length-append (parse_bytes buf size n i old).value (drop n old),
        length-parse_bytes buf size n i old le good,
        length-drop n old,
        h,
      ))
  | inr bad ↦ rw bad refl
]

-- A length that passed its test leaves an array at its length.
parse_front-digest :
    (pc_buffer : List ℕ) (i_size n i : ℕ) (old : List ℕ)
    → i_size ≤ length pc_buffer
    → leb n psw_len ≡ true
    → length old ≡ psw_len
    → length (parse_front pc_buffer i_size n i old).value ≡ psw_len
parse_front-digest buf size n i old le good h =
    length-parse_front buf size n i old le (omega (arith, leb→le n psw_len good, h)) ∙ h

-- The digests of a request to change a password have the lengths of their arrays.
abbrev pub HasDigests : ChgAccountPasswdReqBody → Type 0
HasDigests b = (length b.auc_digest ≡ psw_len) × (length b.auc_user_digest ≡ psw_len)

-- The same for the one array of a request to delete an account, and to add one.
pub parse_del_account_req-length :
    (pc_buffer : List ℕ) (i_size i : ℕ) (b : DelAccountReqBody)
    → i_size ≤ length pc_buffer
    → length b.auc_digest ≡ psw_len
    → length (parse_del_account_req pc_buffer i_size i b).value.auc_digest ≡ psw_len
unfolding parse_del_account_req member
parse_del_account_req-length buf size i b le h =
    let P : DelAccountReqBody → Type 0 = λ b. length b.auc_digest ≡ psw_len in
    settle-Keeps P _ _ (λ b h. h)
      (λ i b h. then_at P _ _ i b h (λ i b h. check_at P _ _ i b h (λ good.
        then_at P _ _ i b (parse_front-digest buf size b.ui_passwd_len i b.auc_digest le good h)
          (λ i b h. h))))
      i b h

pub parse_account_req-length :
    (pc_buffer : List ℕ) (i_size i : ℕ) (b : AccountReqBody)
    → i_size ≤ length pc_buffer
    → length b.auc_digest ≡ psw_len
    → length (parse_account_req pc_buffer i_size i b).value.auc_digest ≡ psw_len
unfolding parse_account_req member
parse_account_req-length buf size i b le h =
    let P : AccountReqBody → Type 0 = λ b. length b.auc_digest ≡ psw_len in
    settle-Keeps P _ _ (λ b h. h)
      (λ i b h. then_at P _ _ i b h (λ i b h. check_at P _ _ i b h (λ good.
        then_at P _ _ i b (parse_front-digest buf size b.ui_passwd_len i b.auc_digest le good h)
          (λ i b h. then_at P _ _ i b h (λ i b h.
            then_at P _ _ i b h
              (λ i b h. then_at P _ _ i b h (λ i b h. then_at P _ _ i b h (λ i b h. h))))))))
      i b h

-- Whatever bytes stand in the buffer, of which there are as many as its size, and whether the call
-- succeeds or not, the reader of a request to change a password leaves both arrays of digests at
-- their lengths: no length that the packet names makes it write past their ends.
pub parse_chg_account_passwd_req-HasDigests :
    (pc_buffer : List ℕ) (i_size i : ℕ) (b : ChgAccountPasswdReqBody)
    → i_size ≤ length pc_buffer
    → HasDigests b
    → HasDigests (parse_chg_account_passwd_req pc_buffer i_size i b).value
unfolding parse_chg_account_passwd_req member
parse_chg_account_passwd_req-HasDigests buf size i b le h =
    let P : ChgAccountPasswdReqBody → Type 0 = HasDigests in
    settle-Keeps P _ _ (λ b h. h)
      (λ i b h. then_at P _ _ i b h (λ i b h. check_at P _ _ i b h (λ good.
        then_at P _ _ i b
          (parse_front-digest buf size b.ui_passwd_len i b.auc_digest le good h.0, h.1)
          (λ i b h. then_at P _ _ i b h (λ i b h. then_at P _ _ i b h (λ i b h.
            check_at P _ _ i b h (λ ok. (
              h.0,
              parse_front-digest buf size b.ui_user_passwd_len i b.auc_user_digest le ok h.1,
            ))))))))
      i b h
