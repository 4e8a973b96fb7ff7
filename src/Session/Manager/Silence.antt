-- ===== src/Session/Manager/Silence.antt =====
-- A broadcast reaches nobody.
use net_lib_wrapper.Prelude.{
  ℕ, ◌≡◌, refl, ◌∙◌, ap, inl, inr, Option, none, some, List, [], ◌∷◌, Option-cases, arith,
}
use net_lib_wrapper.Prelude.Assoc.{find, modify}
use net_lib_wrapper.Os.{Os}
use net_lib_wrapper.Frame.Parse.{Message}
use net_lib_wrapper.Tcp.Link.{Link}
use net_lib_wrapper.Tcp.Table.{Tcp, find_link, store}
use net_lib_wrapper.Tcp.Table.Removal.{KnowKeys, IsTable}
use net_lib_wrapper.Tcp.Output.{link_send}
use net_lib_wrapper.Tcp.Api.{ms_tcp_send, sent_state}
use net_lib_wrapper.Session.Manager.{LinkMgr, send_to_each, send_pkt_to_links, broad_cast}

KnowKeys-find :
    (h : ℕ) (l : Link) (m : List (ℕ × Link)) → KnowKeys m → find h m ≡ some l → l.mh_link ≡ h
unfolding find
KnowKeys-find h l [] k e = absurd (ground arith)
KnowKeys-find h l ((j, l') ∷ m) k e = ground (arith, KnowKeys-find h l m k.1)

modify-find : (h : ℕ) (l : Link) (m : List (ℕ × Link)) → find h m ≡ some l → modify h (λ _. l) m ≡ m
unfolding find modify
modify-find h l [] e = refl
modify-find h l ((j, l') ∷ m) e = ground (arith, modify-find h l m)

module _ (os : Os) where
  open os use {World}

  sent_found :
      (t : Tcp World) (h : ℕ) (l : Link)
      → find h t.links ≡ some l
      → (ms_tcp_send os t h none 0).1 ≡ record t { links = modify l.mh_link (λ _. l) t.links }
  unfolding ms_tcp_send find_link sent_state link_send store
  sent_found t h l e = ground arith

  sent_missing : (t : Tcp World) (h : ℕ) → find h t.links ≡ none → (ms_tcp_send os t h none 0).1 ≡ t
  unfolding ms_tcp_send find_link
  sent_missing t h e = ground arith

  ms_tcp_send_null : (t : Tcp World) (h : ℕ) → IsTable t → (ms_tcp_send os t h none 0).1 ≡ t
  ms_tcp_send_null t h v = elim (Option-cases (find h t.links)) [
    | inl e ↦ sent_missing t h e
    | inr (l, e) ↦
        let key = KnowKeys-find h l t.links v.keys e in
        sent_found t h l e
        ∙ (ap (λ k. record t { links = modify k (λ _. l) t.links }) key
            ∙ ap (λ m. record t { links = m }) (modify-find h l t.links e))
  ]

  send_to_each_null : (hs : List ℕ) (t : Tcp World) → IsTable t → send_to_each os hs t ≡ t
  unfolding send_to_each
  send_to_each_null [] t v = refl
  send_to_each_null (h ∷ hs) t v = rw (ms_tcp_send_null t h v) (send_to_each_null hs t v)

  -- A broadcast of any packet leaves the links, their buffers and the system as they were: nothing is
  -- written, queued or reported.
  pub broad_cast-silent :
      (p_pkt : Option Message) (mgr : LinkMgr) (t : Tcp World)
      → IsTable t
      → broad_cast os p_pkt mgr t ≡ t
  unfolding broad_cast send_pkt_to_links
  broad_cast-silent none mgr t v = refl
  broad_cast-silent (some p) mgr t v = send_to_each_null _ t v
