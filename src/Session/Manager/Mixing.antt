-- ===== src/Session/Manager/Mixing.antt =====
-- One receive buffer serves all links.
use net_lib_wrapper.Prelude.{ℕ, suc, ◌^◌, ◌≤◌, ◌<◌, ◌≡◌, some, List, [], ◌∷◌, ◌++◌, length, arith}
use net_lib_wrapper.Os.{Os}
use net_lib_wrapper.Frame.Parse.{Message, header_size}
use net_lib_wrapper.Frame.Receive.{Delivery, received, on_tcp_recv_data}
use net_lib_wrapper.Frame.Receive.Stream.{IsFrame}
use net_lib_wrapper.Frame.Receive.Chunks.{on_tcp_recv_data-resumes}
use net_lib_wrapper.Tcp.Table.{Tcp}
use net_lib_wrapper.Session.Manager.{LinkMgr, link_recv_data, deliver, on_recv}

module _ (os : Os) where
  open os use {World}

  on_recv_lem :
      (beyond : List ℕ) (fuel h : ℕ) (bytes buf : List ℕ) (calls : List Delivery) (mgr : LinkMgr)
      (t : Tcp World)
      → on_tcp_recv_data beyond fuel mgr.mv_recv_buf bytes ≡ some (buf, calls)
      → on_recv os beyond fuel h bytes mgr t
        ≡ some (record mgr { mv_recv_buf = buf }, deliver os h calls mgr t)
  unfolding on_recv
  on_recv_lem beyond fuel h bytes buf calls mgr t e = ground arith

  -- Of a packet that arrives in two pieces, the first on link `first` and the second on another link
  -- `second`, with nothing in the buffer before, each piece at least as long as a header: the pieces
  -- are put together, and the packet is handed to the handle of `second`.
  pub on_recv-mixed :
      (beyond a b : List ℕ) (m : Message) (fuel first second : ℕ) (mgr : LinkMgr) (t t' : Tcp World)
      → mgr.mv_recv_buf ≡ []
      → IsFrame (a ++ b) m
      → header_size ≤ length a
      → header_size ≤ length b
      → length (a ++ b) < 2 ^ 31
      → let held = record mgr { mv_recv_buf = a } in
        (on_recv os beyond (suc (suc fuel)) first a mgr t ≡ some (held, t))
        × (on_recv os beyond (suc (suc fuel)) second b held t'
            ≡ some (record mgr { mv_recv_buf = [] }, (link_recv_data os second m held t').1))
  unfolding deliver
  on_recv-mixed beyond a b m fuel first second mgr t t' e f la lb small =
      let parts = on_tcp_recv_data-resumes beyond a b m fuel f la lb small in
      let held = record mgr { mv_recv_buf = a } in
      (
        on_recv_lem beyond (suc (suc fuel)) first a a [] mgr t (rw (e) parts.0),
        on_recv_lem beyond (suc (suc fuel)) second b [] (received m ∷ []) held t' parts.1,
      )
