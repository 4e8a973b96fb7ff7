-- ===== src/Tcp/Invariant.antt =====
-- What holds of the map of links between two operations of the library.
pub mod Table
pub mod Calls
pub mod Sending
pub mod Events
pub mod Flushing
use net_lib_wrapper.Prelude.{ℕ, ◌^◌, ◌≤◌, ◌<◌, ◌≡◌, ◌≢◌, Bool, false, List, [], All}
use net_lib_wrapper.Prelude.Assoc.{IsSorted}
use net_lib_wrapper.Prelude.Assoc.Entries.{Every}
use net_lib_wrapper.Tcp.Link.{Link, IsWhole}
use net_lib_wrapper.Tcp.Table.{Tcp}

-- A link that stands under the handle `h`, where the flag and the counter are these: it knows its
-- handle, which the counter has given out, and which is not the handle `dead` that is out of use,
-- unless the counter has overflowed; its buffers own what they say, and none waits while the flag
-- is down.
pub record IsKept (dead : ℕ) (flag : Bool) (i_link h : ℕ) (l : Link) : Type 0 where
  pub key : l.mh_link ≡ h
  pub given : h ≤ i_link
  pub apart : i_link < 2 ^ 31 → h ≢ dead
  pub whole : All IsWhole l.send_buff_list
  pub idle : flag ≡ false → l.send_buff_list ≡ []

-- The map is in order, each of its links is kept like this, and the handle that is out of use was
-- given out.
pub record IsSound (dead : ℕ) (flag : Bool) (i_link : ℕ) (links : List (ℕ × Link)) : Type 0 where
  pub sorted : IsSorted links
  pub every : Every (IsKept dead flag i_link) links
  pub retired : dead ≤ i_link

abbrev pub IsSane : {W : Type 0} → ℕ → Tcp W → Type 0
IsSane dead t = IsSound dead t.send_flag t.i_link t.links
