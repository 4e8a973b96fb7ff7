-- ===== src/Tcp/Link.antt =====
-- tcp-link.h: the data of a link and its output buffers.
use net_lib_wrapper.Prelude.{
  ℕ, ◌^◌, ◌<◌, ◌≡◌, Bool, Option, none, some, List, [], ◌∷◌, ◌++◌, length, take,
}
use net_lib_wrapper.Os.{Fd, Address}

-- `send_buff_s`: `p_data` is NULL or points to bytes, of which `ui_size` count.
pub record SendBuff : Type 0 where
  pub p_data : Option (List ℕ)
  pub ui_size : ℕ

-- The anonymous enum of link types.
pub data LinkType : Type 0 where
  null listen connect accept connected error : LinkType

-- MsTcpLink's members. The callback is not kept: its calls are recorded as events.
pub record Link : Type 0 where
  pub mi_socket : Fd
  pub mh_link : ℕ
  pub local_address : Address
  pub remote_address : Address
  pub link_type : LinkType
  pub last_alive_time : ℕ
  pub need_check_alive : Bool
  pub send_buff_list : List SendBuff

-- The bytes that a buffer stands for.
abbrev pub payload : SendBuff → List ℕ
payload b = elim b.p_data [ none ↦ [] | some d ↦ take b.ui_size d ]

-- All bytes that wait, oldest first.
abbrev pub pending : List SendBuff → List ℕ
pending [] = []
pending (b ∷ bs) = payload b ++ pending bs

-- A buffer that owns as many bytes as it says, as every `new char[n]` of the source does.
abbrev pub IsWhole : SendBuff → Type 0
IsWhole b = elim b.p_data [ none ↦ Unit {0} | some d ↦ length d ≡ b.ui_size ]

-- A buffer whose size an `int` holds, as the count of the bytes sent must.
abbrev pub IsShort : SendBuff → Type 0
IsShort b = b.ui_size < 2 ^ 31
