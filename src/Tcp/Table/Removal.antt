-- ===== src/Tcp/Table/Removal.antt =====
-- What link_destroy, free_all_link_map and check_link_timeout take out of the map.
use net_lib_wrapper.Prelude.{
  ltb, leb, ◌+◌, ◌∙◌, ℕ, ◌≤◌, ◌≡◌, ◌⊎◌, refl, inl, inr, Bool, true, false, not, ◌&&◌, ◌||◌, Option,
  none, some, List, [], ◌∷◌, arith, ◌==◌, if◌then◌else◌, Bool-cases, Option-cases,
}
use net_lib_wrapper.Prelude.Assoc.{
  find, erase, IsSorted, Above, find-erase, erase-IsSorted, Above-IsSorted,
}
use net_lib_wrapper.Os.{Os}
use net_lib_wrapper.Tcp.Link.{Link}
use net_lib_wrapper.Tcp.Table.{
  Tcp, find_link, del_link, link_destroy, send_event, destroy_all, free_all_link_map, link_list,
  timed_out, check_alive_timeout, check_link_timeout, is_alive, is_listen,
}

-- The map keeps its keys in order, and each link knows the key it stands under.
abbrev pub KnowKeys : List (ℕ × Link) → Type 0
KnowKeys [] = Unit {0}
KnowKeys ((h, l) ∷ m) = (l.mh_link ≡ h) × KnowKeys m

pub record IsTable {W : Type 0} (t : Tcp W) : Type 0 where
  pub sorted : IsSorted t.links
  pub keys : KnowKeys t.links

-- Some link of the list has this handle.
unfoldable pub has_handle : ℕ → List Link → Bool
has_handle h [] = false
has_handle h (l ∷ ls) = l.mh_link == h || has_handle h ls

erase-KnowKeys : (k : ℕ) (m : List (ℕ × Link)) → KnowKeys m → KnowKeys (erase k m)
unfolding erase
erase-KnowKeys k [] a = tt
erase-KnowKeys k ((h, l) ∷ m) a = ground (arith, erase-KnowKeys k m a.1)

or_here : (b : Bool) → (b && true || false) ≡ b
or_here true = refl
or_here false = refl

or_away : (b c : Bool) → (b && false || c) ≡ c
or_away true c = refl
or_away false c = refl

-- What `check_link_timeout` keeps: links that are alive, and listening links.
unfoldable pub stays : ℕ → Link → Bool
stays now l = (is_alive now l).0 || is_listen l.link_type

-- A link that is checked, does not listen, and has been silent for the whole timeout.
abbrev pub is_silent : ℕ → Link → Bool
is_silent now l =
    l.need_check_alive
    && not (is_listen l.link_type)
    && leb (l.last_alive_time + check_alive_timeout) now

-- A link of which the clock has not been ahead.
abbrev pub heard : ℕ → Link → Link
heard now l = record l {
  last_alive_time =
      if l.need_check_alive && ltb now l.last_alive_time then now else l.last_alive_time;
}

silent_or_heard :
    (now : ℕ) (l : Link)
    → (if stays now l then some (is_alive now l).1 else none)
      ≡ (if is_silent now l then none else some (heard now l))
unfolding stays is_alive is_listen
silent_or_heard now l = ground arith

is_alive-keeps :
    (now : ℕ) (l : Link)
    → ((is_alive now l).1.mh_link ≡ l.mh_link) × ((is_alive now l).1.link_type ≡ l.link_type)
unfolding is_alive
is_alive-keeps now l = ground arith

-- One entry of the pass.
timed_out_first :
    (now h j : ℕ) (l : Link) (m : List (ℕ × Link))
    → l.mh_link ≡ j
    → has_handle h (timed_out now ((j, l) ∷ m)).0
      ≡ (not (stays now l) && (j == h)) || has_handle h (timed_out now m).0
unfolding has_handle timed_out stays
timed_out_first now h j l m e =
    let (same, kind) = is_alive-keeps now l in rw (kind, ← e) (ground (arith, same))

timed_out_lowest :
    (now k h : ℕ) (m : List (ℕ × Link))
    → Above k m
    → KnowKeys m
    → h ≤ k
    → has_handle h (timed_out now m).0 ≡ false
unfolding has_handle timed_out
timed_out_lowest now k h [] a keys le = refl
timed_out_lowest now k h ((j, l) ∷ m) a keys le =
    let other : (j == h) ≡ false = ground arith in
    rw
      (
        timed_out_first now h j l m keys.0,
        other,
        timed_out_lowest now j h m a.1 keys.1 (omega arith),
      )
      (ground arith)

timed_out-has_handle :
    (now h : ℕ) (m : List (ℕ × Link))
    → IsSorted m
    → KnowKeys m
    → has_handle h (timed_out now m).0
      ≡ elim (find h m) [ none ↦ false | some l ↦ not (stays now l) ]
unfolding has_handle timed_out find
timed_out-has_handle now h [] s keys = refl
timed_out-has_handle now h ((j, l) ∷ m) s keys = elim (Bool-cases (j == h)) [
  | inl here ↦
      rw
        (
          timed_out_first now h j l m keys.0,
          here,
          timed_out_lowest now j h m s keys.1 (ground arith),
        )
        (or_here (not (stays now l)))
  | inr away ↦
      rw
        (
          timed_out_first now h j l m keys.0,
          away,
          timed_out-has_handle now h m (Above-IsSorted j m s) keys.1,
        )
        (or_away (not (stays now l)) _)
]

timed_out-find :
    (now h : ℕ) (m : List (ℕ × Link))
    → find h (timed_out now m).1
      ≡ elim (find h m) [ none ↦ none | some l ↦ some (is_alive now l).1 ]
unfolding timed_out find
timed_out-find now h [] = refl
timed_out-find now h ((j, l) ∷ m) = ground (arith, timed_out-find now h m)

timed_out-Above : (now k : ℕ) (m : List (ℕ × Link)) → Above k m → Above k (timed_out now m).1
unfolding timed_out
timed_out-Above now k [] a = tt
timed_out-Above now k ((j, l) ∷ m) a = (a.0, timed_out-Above now j m a.1)

pub timed_out-IsSorted : (now : ℕ) (m : List (ℕ × Link)) → IsSorted m → IsSorted (timed_out now m).1
unfolding timed_out
timed_out-IsSorted now [] a = tt
timed_out-IsSorted now ((j, l) ∷ m) a = timed_out-Above now j m a

module _ (os : Os) where
  del_link-links :
      (t : Tcp os.World) (h : ℕ)
      → (del_link os t h).1.links
        ≡ elim (find h t.links) [ none ↦ t.links | some l ↦ erase h t.links ]
  unfolding del_link find_link
  del_link-links t h = elim (Option-cases (find h t.links)) [
    | inl missing ↦ rw (missing, del_link)
    | inr (l, there) ↦ rw (there, del_link)
  ]

  link_destroy-links :
      (t : Tcp os.World) (l : Link)
      → (link_destroy os t l).1.links ≡ (del_link os t l.mh_link).1.links
  unfolding link_destroy send_event
  link_destroy-links t l = elim (Option-cases l.mi_socket) [
    | inl shut ↦ rw (shut, link_destroy)
    | inr (fd, open') ↦ rw (open', link_destroy)
  ]

  link_destroy-find :
      (t : Tcp os.World) (l : Link) (h : ℕ)
      → IsSorted t.links
      → find h (link_destroy os t l).1.links ≡ (if l.mh_link == h then none else find h t.links)
  link_destroy-find t l h s =
      rw (link_destroy-links t l, del_link-links t l.mh_link)
        (elim (Option-cases (find l.mh_link t.links)) [
          | inl missing ↦ rw missing (ground arith)
          | inr (l', there) ↦ rw there (find-erase l.mh_link h t.links s)
        ])

  link_destroy-IsSorted :
      (t : Tcp os.World) (l : Link) → IsSorted t.links → IsSorted (link_destroy os t l).1.links
  link_destroy-IsSorted t l s =
      rw (link_destroy-links t l, del_link-links t l.mh_link)
        (elim (Option-cases (find l.mh_link t.links)) [
          | inl missing ↦ rw missing s
          | inr (l', there) ↦ rw there (erase-IsSorted l.mh_link t.links s)
        ])

  destroy_all-find :
      (ls : List Link) (t : Tcp os.World) (h : ℕ)
      → IsSorted t.links
      → find h (destroy_all os ls t).links ≡ (if has_handle h ls then none else find h t.links)
  unfolding destroy_all has_handle
  destroy_all-find [] t h s = refl
  destroy_all-find (l ∷ ls) t h s = ground (
    arith,
    destroy_all-find ls (link_destroy os t l).1 h (link_destroy-IsSorted t l s),
    link_destroy-find t l h s,
  )

  timeout_pass :
      (t : Tcp os.World) (h : ℕ)
      → IsTable t
      → let now = os.time t.world in
        find h (check_link_timeout os t).links ≡ elim (find h t.links) [
          | none ↦ none
          | some l ↦ if stays now l then some (is_alive now l).1 else none
        ]
  unfolding check_link_timeout
  timeout_pass t h table =
      let now = os.time t.world in
      rw
        (
          destroy_all-find (timed_out now t.links).0
              (record t { links = (timed_out now t.links).1 }) h
              (timed_out-IsSorted now t.links table.sorted),
          timed_out-has_handle now h t.links table.sorted table.keys,
          timed_out-find now h t.links,
        )
        (ends (find h t.links))
    where
      ends :
          (o : Option Link)
          → let now = os.time t.world in
            (if (elim o [ none ↦ false | some l ↦ not (stays now l) ])
              then none
              else elim o [ none ↦ none | some l ↦ some (is_alive now l).1 ])
            ≡ elim o [
              | none ↦ none
              | some l ↦ if stays now l then some (is_alive now l).1 else none
            ]
      ends none = refl
      ends (some l) = ground arith

  -- In a map in order whose links know their handles, a pass of the timeout thread closes exactly
  -- the links that are checked, do not listen, and were last heard of `check_alive_timeout` seconds
  -- ago or more: under every handle the link is gone, or stays as it is, but for a checked link's
  -- time in the future, which becomes the present.
  pub check_link_timeout-find :
      (t : Tcp os.World) (h : ℕ)
      → IsTable t
      → find h (check_link_timeout os t).links ≡ elim (find h t.links) [
        | none ↦ none
        | some l ↦ if is_silent (os.time t.world) l then none else some (heard (os.time t.world) l)
      ]
  check_link_timeout-find t h table = timeout_pass t h table ∙ same (find h t.links)
    where
      same :
          (o : Option Link)
          → let now = os.time t.world in
            (elim o [
              | none ↦ none
              | some l ↦ if stays now l then some (is_alive now l).1 else none
            ])
            ≡ elim o [ none ↦ none | some l ↦ if is_silent now l then none else some (heard now l) ]
      same none = refl
      same (some l) = silent_or_heard (os.time t.world) l

  link_list-has_handle :
      (h : ℕ) (m : List (ℕ × Link))
      → KnowKeys m
      → (has_handle h (link_list m) ≡ true) ⊎ (find h m ≡ none)
  unfolding has_handle find
  link_list-has_handle h [] keys = inr refl
  link_list-has_handle h ((j, l) ∷ m) keys = ground (arith, link_list-has_handle h m keys.1)

  -- From a map in order whose links know their handles, `free_all_link_map` leaves no link under
  -- any handle.
  pub free_all_link_map-find :
      (t : Tcp os.World) (h : ℕ) → IsTable t → find h (free_all_link_map os t).links ≡ none
  unfolding free_all_link_map
  free_all_link_map-find t h table =
      rw (destroy_all-find (link_list t.links) t h table.sorted)
        (ground (arith, link_list-has_handle h t.links table.keys))
