-- ===== src/Tcp/Send/Laws.antt =====
-- The inner loop sends a prefix of its buffer, and ends within its fuel.
use net_lib_wrapper.Prelude.{
  ℕ, ◌-◌, ◌≤◌, ◌<◌, ◌≡◌, refl, inl, inr, List, [], arith, ltb, length, take, drop, take-length,
  length-drop, take-append-take, Bool-cases, Returns, ltb→lt, Round, Keeps, iterate-Returns,
}
use net_lib_wrapper.Os.{Os, WriteLaws, Errno, Reply, Fd, done, failed}
use net_lib_wrapper.Tcp.Send.{Sent, after_write, send_data, send_once, send_loop}

-- The kernel has taken the first `count` bytes of `p_data`, in order.
pub record IsPrefix {W : Type 0} (p_data : List ℕ) (s : Sent W) : Type 0 where
  pub within : s.count ≤ length p_data
  pub bytes : s.bytes ≡ take s.count p_data

pub chunk_lem :
    (p_data : List ℕ) (size i : ℕ)
    → length p_data ≡ size
    → take (size - i) (drop i p_data) ≡ drop i p_data
chunk_lem p_data size i h =
    take-length (size - i) (drop i p_data) (omega (arith, length-drop i p_data))

module _ (os : Os) where
  -- A round keeps the prefix, and one that asks for another has sent something.
  abbrev KeepsPrefix : List ℕ → ℕ → Sent os.World → Round (Sent os.World) → Type 0
  KeepsPrefix p_data size = Keeps (IsPrefix p_data) (IsPrefix p_data) (λ s. size - s.count)

  after_write-Keeps :
      (p_data : List ℕ) (size : ℕ) (s : Sent os.World) (w : os.World) (r : Reply)
      → length p_data ≡ size
      → s.count < size
      → IsPrefix p_data s
      → ((k : ℕ) (e : Errno) → r ≡ done k e → (k ≤ size - s.count) × (0 < k))
      → KeepsPrefix p_data size s (after_write os size s (drop s.count p_data) w r)
  unfolding after_write
  after_write-Keeps p_data size s w (failed e) h lt p law = record {
    within = p.within;
    bytes = p.bytes;
  }
  after_write-Keeps p_data size s w (done k e) h lt p law =
      ground (arith, law k e refl, p.bytes, take-append-take s.count k p_data)

  send_once-Keeps :
      (fd : Fd) (p_data : List ℕ) (size : ℕ) (s : Sent os.World)
      → WriteLaws os
      → length p_data ≡ size
      → IsPrefix p_data s
      → KeepsPrefix p_data size s (send_once os fd p_data size s)
  unfolding send_once send_data
  send_once-Keeps fd p_data size s laws h p = elim (Bool-cases (ltb s.count size)) [
    | inr stop ↦ rw (stop, send_once) p
    | inl more ↦
        rw (more, chunk_lem p_data size s.count h)
          (after_write-Keeps p_data size s _ _ h (ltb→lt _ _ more) p λ k e r.
            let drops : length (drop s.count p_data) ≡ length p_data - s.count =
              length-drop s.count p_data in
            let le = laws.within s.world fd (drop s.count p_data) k e r in
            let lt : s.count < size = ltb→lt _ _ more in
            let pos = laws.progress s.world fd (drop s.count p_data) k e r (omega arith) in
            omega arith)
  ]

  -- With a unit of fuel for each byte and one more, the loop ends, and has sent a prefix.
  pub send_loop-Returns :
      (fuel : ℕ) (fd : Fd) (p_data : List ℕ) (size : ℕ) (w : os.World)
      → WriteLaws os
      → length p_data ≡ size
      → size < fuel
      → Returns (IsPrefix p_data) (send_loop os fuel fd p_data size w)
  unfolding send_loop
  send_loop-Returns fuel fd p_data size w laws h lt =
      iterate-Returns (IsPrefix p_data) (IsPrefix p_data) (λ s. size - s.count)
        (send_once os fd p_data size) (λ s p. send_once-Keeps fd p_data size s laws h p) fuel
        (record { count = 0; bytes = []; world = w }) (omega arith)
        (record { within = omega arith; bytes = refl })
