-- ===== src/Session/Manager/Listing.antt =====
-- Which links the manager lists, as an abstract set that the events change.
use net_lib_wrapper.Prelude.{
  ℕ, ◌≡◌, ◌≢◌, refl, sym, subst, ==_iff, ◌∙◌, ap, inl, inr, Bool, true, false, Option, none, some,
  List, [], ◌∷◌, ◌==◌, if◌then◌else◌, take, Bool-cases, Option-cases, arith,
}
use net_lib_wrapper.Prelude.Assoc.{
  find, insert, erase, IsSorted, find-insert, find-erase, insert-IsSorted, erase-IsSorted,
}
use net_lib_wrapper.Os.{Os}
use net_lib_wrapper.Tcp.Table.{Tcp, Event, begin, middle, finish}
use net_lib_wrapper.Session.Handle.{LinkHdr}
use net_lib_wrapper.Session.Manager.{
  LinkMgr, handle_for, link_create, link_remove, on_tcp_closed, on_tcp_accepted, on_recv,
  tcp_io_callback,
}

abbrev pub is_some {ℓ} : {A : Type ℓ} → Option A → Bool
is_some none = false
is_some (some _) = true

-- The link `j` is listed.
abbrev pub lists : ℕ → LinkMgr → Bool
lists j mgr = is_some (find j mgr.link_map)

-- The set after an event: a link enters it when it is accepted, and leaves it when it is closed or
-- disconnected.
abbrev pub listed_after : ℕ → Event → Bool → Bool
listed_after j (Event.accepted h a) b = if a == j then true else b
listed_after j (Event.closed h) b = if h == j then false else b
listed_after j (Event.disconnected h) b = if h == j then false else b
listed_after j _ b = b

-- The manager after an event, next to the one before it.
record Follows (j : ℕ) (e : Event) (mgr mgr' : LinkMgr) : Type 0 where
  sorted : IsSorted mgr'.link_map
  listening : mgr'.mh_tcp_link ≡ mgr.mh_tcp_link
  listed : lists j mgr' ≡ listed_after j e (lists j mgr)

link_remove-none :
    (h : ℕ) (mgr : LinkMgr) → find h mgr.link_map ≡ none → link_remove h mgr ≡ (false, mgr)
unfolding link_remove
link_remove-none h mgr e = ground arith

link_remove-some :
    (h : ℕ) (mgr : LinkMgr) (hdr : LinkHdr)
    → find h mgr.link_map ≡ some hdr
    → link_remove h mgr ≡ (true, record mgr { link_map = erase h mgr.link_map })
unfolding link_remove
link_remove-some h mgr hdr e = ground arith

link_create_new :
    {W : Type 0} (h : ℕ) (mgr : LinkMgr) (t : Tcp W)
    → find h mgr.link_map ≡ none
    → link_create h mgr t ≡ (true, record mgr { link_map = insert h (handle_for h t) mgr.link_map })
unfolding link_create
link_create_new h mgr t e = ground arith

link_create_old :
    {W : Type 0} (h : ℕ) (mgr : LinkMgr) (t : Tcp W) (hdr : LinkHdr)
    → find h mgr.link_map ≡ some hdr
    → link_create h mgr t ≡ (false, mgr)
unfolding link_create
link_create_old h mgr t hdr e = ground arith

-- The manager after an operation that puts the listing of `h` to `b`.
record Puts (j h : ℕ) (b : Bool) (mgr mgr' : LinkMgr) : Type 0 where
  sorted : IsSorted mgr'.link_map
  listening : mgr'.mh_tcp_link ≡ mgr.mh_tcp_link
  listed : lists j mgr' ≡ (if h == j then b else lists j mgr)

lists_already :
    (j h : ℕ) (b : Bool) (mgr : LinkMgr)
    → lists h mgr ≡ b
    → lists j mgr ≡ (if h == j then b else lists j mgr)
lists_already j h b mgr e = elim (Bool-cases (h == j)) [
  | inl q ↦ rw (q) (subst (λ k. lists k mgr ≡ b) ((==_iff h j).0 q) e)
  | inr q ↦ rw (q) refl
]

link_remove-Puts :
    (j h : ℕ) (mgr : LinkMgr) → IsSorted mgr.link_map → Puts j h false mgr (link_remove h mgr).1
link_remove-Puts j h mgr s = elim (Option-cases (find h mgr.link_map)) [
  | inl e ↦
      rw (link_remove-none h mgr e) (record {
        sorted = s;
        listening = refl;
        listed = lists_already j h false mgr (ap is_some e);
      })
  | inr (hdr, e) ↦ rw (link_remove-some h mgr hdr e) (record {
    sorted = erase-IsSorted h mgr.link_map s;
    listening = refl;
    listed = ground (arith, find-erase h j mgr.link_map s);
  })
]

link_create-Puts :
    {W : Type 0} (j h : ℕ) (mgr : LinkMgr) (t : Tcp W)
    → IsSorted mgr.link_map
    → Puts j h true mgr (link_create h mgr t).1
link_create-Puts j h mgr t s = elim (Option-cases (find h mgr.link_map)) [
  | inl e ↦ rw (link_create_new h mgr t e) (record {
    sorted = insert-IsSorted h (handle_for h t) mgr.link_map s;
    listening = refl;
    listed = ground (arith, find-insert h j (handle_for h t) mgr.link_map);
  })
  | inr (hdr, e) ↦
      rw (link_create_old h mgr t hdr e) (record {
        sorted = s;
        listening = refl;
        listed = lists_already j h true mgr (ap is_some e);
      })
]

on_tcp_closed_listen : (h : ℕ) (mgr : LinkMgr) → h ≡ mgr.mh_tcp_link → on_tcp_closed h mgr ≡ mgr
unfolding on_tcp_closed
on_tcp_closed_listen h mgr e = ground arith

on_tcp_closed_other :
    (h : ℕ) (mgr : LinkMgr) → h ≢ mgr.mh_tcp_link → on_tcp_closed h mgr ≡ (link_remove h mgr).1
unfolding on_tcp_closed
on_tcp_closed_other h mgr e = ground arith

on_tcp_closed-Puts :
    (j h : ℕ) (mgr : LinkMgr)
    → j ≢ mgr.mh_tcp_link
    → IsSorted mgr.link_map
    → Puts j h false mgr (on_tcp_closed h mgr)
on_tcp_closed-Puts j h mgr n s = elim (Bool-cases (h == mgr.mh_tcp_link)) [
  | inl e ↦
      rw (on_tcp_closed_listen h mgr ((==_iff h mgr.mh_tcp_link).0 e))
        (record { sorted = s; listening = refl; listed = ground arith })
  | inr e ↦ rw (on_tcp_closed_other h mgr (ground arith)) (link_remove-Puts j h mgr s)
]

Puts-Follows :
    (j h : ℕ) (b : Bool) (e : Event) (mgr mgr' : LinkMgr)
    → listed_after j e (lists j mgr) ≡ (if h == j then b else lists j mgr)
    → Puts j h b mgr mgr'
    → Follows j e mgr mgr'
Puts-Follows j h b e mgr mgr' q p = record {
  sorted = p.sorted;
  listening = p.listening;
  listed = p.listed ∙ sym q;
}

-- A manager with the same links.
same-Follows :
    (j : ℕ) (e : Event) (mgr mgr' : LinkMgr)
    → listed_after j e (lists j mgr) ≡ lists j mgr
    → IsSorted mgr.link_map
    → mgr'.link_map ≡ mgr.link_map
    → mgr'.mh_tcp_link ≡ mgr.mh_tcp_link
    → Follows j e mgr mgr'
same-Follows j e mgr mgr' q s m l = record {
  sorted = subst IsSorted (sym m) s;
  listening = l;
  listed = ap (λ links. is_some (find j links)) m ∙ sym q;
}

module _ (os : Os) where
  open os use {World}

  on_recv-links :
      (beyond : List ℕ) (fuel h : ℕ) (bytes : List ℕ) (mgr mgr' : LinkMgr) (t t' : Tcp World)
      → on_recv os beyond fuel h bytes mgr t ≡ some (mgr', t')
      → (mgr'.link_map ≡ mgr.link_map) × (mgr'.mh_tcp_link ≡ mgr.mh_tcp_link)
  unfolding on_recv
  on_recv-links beyond fuel h bytes mgr mgr' t t' e = ground arith

  -- The manager and what it is told, one event after another, in any state of the links.
  pub data Told : LinkMgr → List Event → LinkMgr → Type 0 where
    nothing : {mgr : LinkMgr} → Told mgr [] mgr
    next :
        {mgr mgr' mgr'' : LinkMgr} {es : List Event} (beyond : List ℕ) (fuel : ℕ) (e : Event)
        (t t' : Tcp World)
        → tcp_io_callback os beyond fuel e mgr t ≡ some (mgr', t')
        → Told mgr' es mgr''
        → Told mgr (e ∷ es) mgr''

  some-first :
      (mgr mgr' : LinkMgr) (t t' : Tcp World)
      → ◌≡◌ {A = Option (LinkMgr × Tcp World)} (some (mgr, t)) (some (mgr', t'))
      → mgr ≡ mgr'
  some-first mgr mgr' t t' e = ground arith

  tcp_io_callback-Follows :
      (beyond : List ℕ) (fuel j : ℕ) (e : Event) (mgr mgr' : LinkMgr) (t t' : Tcp World)
      → j ≢ mgr.mh_tcp_link
      → IsSorted mgr.link_map
      → tcp_io_callback os beyond fuel e mgr t ≡ some (mgr', t')
      → Follows j e mgr mgr'
  unfolding tcp_io_callback on_tcp_accepted
  tcp_io_callback-Follows beyond fuel j (Event.created h) mgr mgr' t t' n s q =
      same-Follows j (Event.created h) mgr mgr' refl s
        (ap (λ m. m.link_map) (sym (some-first mgr mgr' t t' q)))
        (ap (λ m. m.mh_tcp_link) (sym (some-first mgr mgr' t t' q)))
  tcp_io_callback-Follows beyond fuel j (Event.connected h) mgr mgr' t t' n s q =
      same-Follows j (Event.connected h) mgr mgr' refl s
        (ap (λ m. m.link_map) (sym (some-first mgr mgr' t t' q)))
        (ap (λ m. m.mh_tcp_link) (sym (some-first mgr mgr' t t' q)))
  tcp_io_callback-Follows beyond fuel j (Event.closed h) mgr mgr' t t' n s q =
      subst (Follows j (Event.closed h) mgr) (some-first (on_tcp_closed h mgr) mgr' t t' q) (
        Puts-Follows j h false (Event.closed h) mgr (on_tcp_closed h mgr) refl
          (on_tcp_closed-Puts j h mgr n s))
  tcp_io_callback-Follows beyond fuel j (Event.disconnected h) mgr mgr' t t' n s q =
      subst (Follows j (Event.disconnected h) mgr) (some-first (on_tcp_closed h mgr) mgr' t t' q) (
        Puts-Follows j h false (Event.disconnected h) mgr (on_tcp_closed h mgr) refl
          (on_tcp_closed-Puts j h mgr n s))
  tcp_io_callback-Follows beyond fuel j (Event.accepted h a) mgr mgr' t t' n s q =
      subst (Follows j (Event.accepted h a) mgr) (some-first (link_create a mgr t).1 mgr' t t' q) (
        Puts-Follows j a true (Event.accepted h a) mgr (link_create a mgr t).1 refl
          (link_create-Puts j a mgr t s))
  tcp_io_callback-Follows beyond fuel j (Event.received h finish bytes n') mgr mgr' t t' n s q =
      let kept = on_recv-links beyond fuel h (take n' bytes) mgr mgr' t t' q in
      same-Follows j (Event.received h finish bytes n') mgr mgr' refl s kept.0 kept.1
  tcp_io_callback-Follows beyond fuel j (Event.received h begin bytes n') mgr mgr' t t' n s q =
      same-Follows j (Event.received h begin bytes n') mgr mgr' refl s
        (ap (λ m. m.link_map) (sym (some-first mgr mgr' t t' q)))
        (ap (λ m. m.mh_tcp_link) (sym (some-first mgr mgr' t t' q)))
  tcp_io_callback-Follows beyond fuel j (Event.received h middle bytes n') mgr mgr' t t' n s q =
      same-Follows j (Event.received h middle bytes n') mgr mgr' refl s
        (ap (λ m. m.link_map) (sym (some-first mgr mgr' t t' q)))
        (ap (λ m. m.mh_tcp_link) (sym (some-first mgr mgr' t t' q)))

  -- The set of links, as the events change it.
  abbrev pub listed : ℕ → List Event → Bool → Bool
  listed j [] b = b
  listed j (e ∷ es) b = listed j es (listed_after j e b)

  -- The manager implements the set of the links that are accepted and not yet closed or
  -- disconnected: whatever it is told, in whatever states of the links, a link other than the
  -- listening one is in its map just if it is in that set.
  pub Told-listed :
      {mgr mgr' : LinkMgr} {es : List Event} (j : ℕ)
      → j ≢ mgr.mh_tcp_link
      → IsSorted mgr.link_map
      → Told mgr es mgr'
      → lists j mgr' ≡ listed j es (lists j mgr)
  Told-listed j n s nothing = refl
  Told-listed {mgr} j n s (next {mgr' = m} {es = es} beyond fuel e t t' q more) =
      let f = tcp_io_callback-Follows beyond fuel j e mgr m t t' n s q in
      Told-listed j (λ p. n (p ∙ f.listening)) f.sorted more ∙ ap (listed j es) f.listed
