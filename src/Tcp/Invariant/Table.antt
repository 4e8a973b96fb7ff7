-- ===== src/Tcp/Invariant/Table.antt =====
-- The operations on the map keep it sound.
use net_lib_wrapper.Prelude.{
  ℕ, ◌+◌, ◌≤◌, ◌%◌, ◌≡◌, refl, sym, ◌∙◌, Bool, false, some, List, [], ◌∷◌, arith, Option-cases, inl,
  inr,
}
use net_lib_wrapper.Prelude.Assoc.{find, insert-IsSorted, erase-IsSorted, modify-IsSorted}
use net_lib_wrapper.Prelude.Assoc.Entries.{
  Every, Every-find, Every-insert, Every-erase, Every-modify, Every-weaken,
}
use net_lib_wrapper.Os.{Os}
use net_lib_wrapper.Tcp.Link.{Link}
use net_lib_wrapper.Tcp.Table.{
  Tcp, find_link, store, add_tcp_link, send_event, del_link, link_destroy, destroy_all, timed_out,
  is_alive, check_link_timeout, free_all_link_map, link_list,
}
use net_lib_wrapper.Tcp.Table.Removal.{timed_out-IsSorted}
use net_lib_wrapper.Tcp.Invariant.{IsKept, IsSound, IsSane}

-- A link found under a handle.
pub find_link-IsKept :
    {dead : ℕ} {W : Type 0} (t : Tcp W) (h : ℕ) (l : Link)
    → IsSane dead t
    → find_link t h ≡ some l
    → IsKept dead t.send_flag t.i_link h l
unfolding find_link
find_link-IsKept {dead} t h l s e =
    Every-find (IsKept dead t.send_flag t.i_link) h l t.links s.every e

-- Another counter and another flag: the counter may grow, the flag may go up.
pub IsKept-weaken :
    {dead : ℕ} (flag flag' : Bool) (i i' h : ℕ) (l : Link)
    → i ≤ i'
    → (flag' ≡ false → flag ≡ false)
    → IsKept dead flag i h l
    → IsKept dead flag' i' h l
IsKept-weaken flag flag' i i' h l le f k = record {
  key = k.key;
  given = omega (arith, k.given);
  apart = λ small. k.apart (omega arith);
  whole = k.whole;
  idle = λ down. k.idle (f down);
}

-- Other members of the link may change.
pub IsKept-same :
    {dead : ℕ} (flag : Bool) (i h : ℕ) (l l' : Link)
    → l'.mh_link ≡ l.mh_link
    → l'.send_buff_list ≡ l.send_buff_list
    → IsKept dead flag i h l
    → IsKept dead flag i h l'
IsKept-same flag i h l l' same buffers k = record {
  key = same ∙ k.key;
  given = k.given;
  apart = k.apart;
  whole = rw buffers k.whole;
  idle = λ down. buffers ∙ k.idle down;
}

-- The buffers may be dropped.
pub IsKept-drop :
    {dead : ℕ} (flag : Bool) (i h : ℕ) (l l' : Link)
    → l'.mh_link ≡ l.mh_link
    → l'.send_buff_list ≡ []
    → IsKept dead flag i h l
    → IsKept dead flag i h l'
IsKept-drop flag i h l l' same empty k = record {
  key = same ∙ k.key;
  given = k.given;
  apart = k.apart;
  whole = rw empty tt;
  idle = λ _. empty;
}

pub IsSound-weaken :
    {dead : ℕ} (flag flag' : Bool) (i i' : ℕ) (m : List (ℕ × Link))
    → i ≤ i'
    → (flag' ≡ false → flag ≡ false)
    → IsSound dead flag i m
    → IsSound dead flag' i' m
IsSound-weaken {dead} flag flag' i i' m le f s = record {
  sorted = s.sorted;
  every =
      Every-weaken (IsKept dead flag i) (IsKept dead flag' i') m
        (λ h l k. IsKept-weaken flag flag' i i' h l le f k) s.every;
  retired = omega (arith, s.retired);
}

-- A link that is as it should be is written back.
pub store-IsSane :
    {dead : ℕ} {W : Type 0} (t : Tcp W) (h : ℕ) (l : Link)
    → IsKept dead t.send_flag t.i_link h l
    → IsSane dead t
    → IsSane dead (store t l)
unfolding store
store-IsSane {dead} t h l k s =
    let own : IsKept dead t.send_flag t.i_link l.mh_link l = record {
      key = refl;
      given = omega (arith, k.key, k.given);
      apart = λ small e. k.apart small (sym k.key ∙ e);
      whole = k.whole;
      idle = k.idle;
    } in
    record {
      sorted = modify-IsSorted l.mh_link (λ _. l) t.links s.sorted;
      every = Every-modify (IsKept dead t.send_flag t.i_link) l.mh_link l t.links own s.every;
      retired = s.retired;
    }

-- A link with no buffers enters the map.
pub add_tcp_link-IsSane :
    {dead : ℕ} {W : Type 0} (t : Tcp W) (l : Link)
    → l.send_buff_list ≡ []
    → IsSane dead t
    → IsSane dead (add_tcp_link t l).1
unfolding add_tcp_link
add_tcp_link-IsSane {dead} t l e s =
    let i = t.i_link + 1 in
    let h = i % 0x3ffffffff in
    let l' : Link = record l { mh_link = h } in
    let s' : IsSound dead t.send_flag i t.links =
      IsSound-weaken t.send_flag t.send_flag t.i_link i t.links (omega arith) (λ d. d) s in
    let k : IsKept dead t.send_flag i h l' = record {
      key = refl;
      given = omega arith;
      apart = λ small same. absurd (omega (arith, s.retired, same));
      whole = rw e tt;
      idle = λ _. e;
    } in
    record {
      sorted = insert-IsSorted h l' t.links s.sorted;
      every = Every-insert (IsKept dead t.send_flag i) h l' t.links k s'.every;
      retired = s'.retired;
    }

is_alive-same :
    (now : ℕ) (l : Link)
    → ((is_alive now l).1.mh_link ≡ l.mh_link)
      × ((is_alive now l).1.send_buff_list ≡ l.send_buff_list)
unfolding is_alive
is_alive-same now l = ground arith

module _ (flag : Bool) (i now : ℕ) where
  is_alive-IsKept :
      {dead : ℕ} (h : ℕ) (l : Link)
      → IsKept dead flag i h l
      → IsKept dead flag i h (is_alive now l).1
  is_alive-IsKept h l k =
      let (same, buffers) = is_alive-same now l in
      IsKept-same flag i h l (is_alive now l).1 same buffers k

  timed_out-Every :
      (dead : ℕ) (m : List (ℕ × Link))
      → Every (IsKept dead flag i) m
      → Every (IsKept dead flag i) (timed_out now m).1
  unfolding timed_out
  timed_out-Every dead [] a = tt
  timed_out-Every dead ((h, l) ∷ m) (k, a) = (is_alive-IsKept h l k, timed_out-Every dead m a)

module _ (os : Os) where
  pub del_link-IsSane :
      {dead : ℕ} (t : Tcp os.World) (h : ℕ) → IsSane dead t → IsSane dead (del_link os t h).1
  unfolding del_link find_link
  del_link-IsSane {dead} t h s = elim (Option-cases (find h t.links)) [
    | inl missing ↦ rw (missing, del_link) s
    | inr (l, there) ↦
        rw (there, del_link)
          (record {
            sorted = erase-IsSorted h t.links s.sorted;
            every = Every-erase (IsKept dead t.send_flag t.i_link) h t.links s.every;
            retired = s.retired;
          })
  ]

  pub link_destroy-IsSane :
      {dead : ℕ} (t : Tcp os.World) (l : Link) → IsSane dead t → IsSane dead (link_destroy os t l).1
  unfolding link_destroy send_event
  link_destroy-IsSane t l s = elim (Option-cases l.mi_socket) [
    | inl shut ↦ rw (shut, link_destroy) (del_link-IsSane t l.mh_link s)
    | inr (fd, there) ↦ rw (there, link_destroy) (del_link-IsSane t l.mh_link s)
  ]

  destroy_all-IsSane :
      {dead : ℕ} (ls : List Link) (t : Tcp os.World)
      → IsSane dead t
      → IsSane dead (destroy_all os ls t)
  unfolding destroy_all
  destroy_all-IsSane [] t s = s
  destroy_all-IsSane (l ∷ ls) t s =
      destroy_all-IsSane ls (link_destroy os t l).1 (link_destroy-IsSane t l s)

  pub free_all_link_map-IsSane :
      {dead : ℕ} (t : Tcp os.World) → IsSane dead t → IsSane dead (free_all_link_map os t)
  unfolding free_all_link_map
  free_all_link_map-IsSane t s = destroy_all-IsSane (link_list t.links) t s

  pub check_link_timeout-IsSane :
      {dead : ℕ} (t : Tcp os.World) → IsSane dead t → IsSane dead (check_link_timeout os t)
  unfolding check_link_timeout
  check_link_timeout-IsSane {dead} t s =
      let now = os.time t.world in
      destroy_all-IsSane (timed_out now t.links).0 (record t { links = (timed_out now t.links).1 })
        (record {
          sorted = timed_out-IsSorted now t.links s.sorted;
          every = timed_out-Every t.send_flag t.i_link now dead t.links s.every;
          retired = s.retired;
        })
