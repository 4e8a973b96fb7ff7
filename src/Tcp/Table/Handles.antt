-- ===== src/Tcp/Table/Handles.antt =====
-- The handles that add_tcp_link gives out.
use net_lib_wrapper.Prelude.{
  ℕ, ◌+◌, ◌^◌, ◌≤◌, ◌<◌, ◌%◌, ◌≡◌, ◌≢◌, refl, none, some, List, [], ◌∷◌, arith, ◌==◌, if◌then◌else◌,
}
use net_lib_wrapper.Prelude.Assoc.{find, insert, find-insert, insert-IsSorted}
use net_lib_wrapper.Tcp.Link.{Link}
use net_lib_wrapper.Tcp.Table.{Tcp, find_link, add_tcp_link}
use net_lib_wrapper.Tcp.Table.Removal.{IsTable, KnowKeys}

-- Every handle of the map was given out: it is at most the counter.
abbrev pub Given : ℕ → List (ℕ × Link) → Type 0
Given i [] = Unit {0}
Given i ((h, l) ∷ m) = (h ≤ i) × Given i m

Given-find : (i h : ℕ) (m : List (ℕ × Link)) → Given i m → i < h → find h m ≡ none
unfolding find
Given-find i h [] g lt = refl
Given-find i h ((j, l) ∷ m) g lt = ground (arith, Given-find i h m g.1)

Given-weaken : (i j : ℕ) (m : List (ℕ × Link)) → i ≤ j → Given i m → Given j m
Given-weaken i j [] le g = tt
Given-weaken i j ((h, l) ∷ m) le g = (omega arith, Given-weaken i j m le g.1)

insert-Given :
    (i h : ℕ) (l : Link) (m : List (ℕ × Link)) → h ≤ i → Given i m → Given i (insert h l m)
unfolding insert
insert-Given i h l [] le g = (le, tt)
insert-Given i h l ((j, l') ∷ m) le g = ground (arith, insert-Given i h l m le g.1)

insert-KnowKeys :
    (h : ℕ) (l : Link) (m : List (ℕ × Link)) → l.mh_link ≡ h → KnowKeys m → KnowKeys (insert h l m)
unfolding insert
insert-KnowKeys h l [] e k = (e, tt)
insert-KnowKeys h l ((j, l') ∷ m) e k = ground (arith, insert-KnowKeys h l m e k.1)

-- Where every handle of the map was given out and the counter stays below 2 ^ 31, a new link gets a
-- handle that no link of the map has, neither 0 nor INVALID_HTCPLINK; a lookup finds it there with
-- its handle set, and finds every other link as before.
pub add_tcp_link-find :
    {W : Type 0} (t : Tcp W) (l : Link) (h : ℕ)
    → Given t.i_link t.links
    → t.i_link + 1 < 2 ^ 31
    → let r = add_tcp_link t l in
      (find_link t r.0 ≡ none)
      × (0 < r.0)
      × (r.0 ≢ 0xffffffff)
      × (find_link r.1 h ≡ (if r.0 == h then some (record l { mh_link = r.0 }) else find_link t h))
unfolding add_tcp_link find_link
add_tcp_link-find t l h given small =
    let handle : (t.i_link + 1) % 0x3ffffffff ≡ t.i_link + 1 = omega arith in
    rw handle (
      Given-find t.i_link (t.i_link + 1) t.links given (omega arith),
      omega arith,
      omega arith,
      find-insert (t.i_link + 1) h (record l { mh_link = t.i_link + 1 }) t.links,
    )

-- On a map in order, with links that know their handles and handles that were all given out, and a
-- counter that stays below 2 ^ 31, `add_tcp_link` keeps the map like this.
pub add_tcp_link-IsTable :
    {W : Type 0} (t : Tcp W) (l : Link)
    → IsTable t
    → Given t.i_link t.links
    → t.i_link + 1 < 2 ^ 31
    → let t' = (add_tcp_link t l).1 in IsTable t' × Given t'.i_link t'.links
unfolding add_tcp_link
add_tcp_link-IsTable t l table given small =
    let handle : (t.i_link + 1) % 0x3ffffffff ≡ t.i_link + 1 = omega arith in
    let l' : Link = record l { mh_link = t.i_link + 1 } in
    rw handle (
      record {
        sorted = insert-IsSorted (t.i_link + 1) l' t.links table.sorted;
        keys = insert-KnowKeys (t.i_link + 1) l' t.links refl table.keys;
      },
      insert-Given (t.i_link + 1) (t.i_link + 1) l' t.links (omega arith)
          (Given-weaken t.i_link (t.i_link + 1) t.links (omega arith) given),
    )
