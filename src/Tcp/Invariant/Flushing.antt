-- ===== src/Tcp/Invariant/Flushing.antt =====
-- do_send_buff keeps the map of links sound.
use net_lib_wrapper.Prelude.{
  ℕ, ◌≡◌, refl, Bool, false, not, ◌||◌, List, [], ◌∷◌, arith, All, Bool-cases, Option-cases, inl,
  inr, Ensures,
}
use net_lib_wrapper.Prelude.Assoc.{IsSorted, Above}
use net_lib_wrapper.Prelude.Assoc.Entries.{Every, Every-weaken}
use net_lib_wrapper.Os.{Os, WriteLaws}
use net_lib_wrapper.Tcp.Link.{Link, SendBuff, IsWhole, pending}
use net_lib_wrapper.Tcp.Table.{Tcp}
use net_lib_wrapper.Tcp.Send.{Drained, drain}
use net_lib_wrapper.Tcp.Send.Stream.{IsStream, drain-carried}
use net_lib_wrapper.Tcp.Output.{Flushed, is_empty, flush_link, flush_links, do_send_buff}
use net_lib_wrapper.Tcp.Invariant.{IsKept, IsSane}
use net_lib_wrapper.Tcp.Invariant.Table.{IsKept-weaken}

-- What a pass makes of a map: the same handles, and each link as it should be under the new flag.
record IsPassed {W : Type 0} (dead i : ℕ) (m : List (ℕ × Link)) (f : Flushed W) : Type 0 where
  every : Every (IsKept dead f.send_flag i) f.links
  above : (k : ℕ) → Above k m → Above k f.links
  sorted : IsSorted m → IsSorted f.links

down_lem :
    (queue : List SendBuff) (flag : Bool)
    → not (is_empty queue) || flag ≡ false
    → (queue ≡ []) × (flag ≡ false)
unfolding is_empty
down_lem [] flag d = (refl, d)
down_lem (b ∷ bs) flag d = cc

module _ (os : Os) (i : ℕ) (laws : WriteLaws os) where
  -- A link whose buffers were sent, or stay and raise the flag.
  flush_link-IsPassed :
      {dead : ℕ} (fuel h : ℕ) (flag : Bool) (d : Drained os.World) (l : Link) (m : List (ℕ × Link))
      (rest : Flushed os.World)
      → All IsWhole d.queue
      → IsKept dead flag i h l
      → IsPassed dead i m rest
      → IsPassed dead i ((h, l) ∷ m) (flush_link os fuel h d l rest)
  unfolding flush_link
  flush_link-IsPassed {dead} fuel h flag d l m rest whole k p = record {
    every = (
      record {
        key = k.key;
        given = k.given;
        apart = k.apart;
        whole = whole;
        idle = λ down. (down_lem d.queue rest.send_flag down).0;
      },
      Every-weaken (IsKept dead rest.send_flag i) _ rest.links
          (λ j l' k'.
            IsKept-weaken rest.send_flag _ i i j l' (omega arith)
              (λ down. (down_lem d.queue rest.send_flag down).1) k')
          p.every,
    );
    above = λ k a. (a.0, p.above h a.1);
    sorted = λ a. p.above h a;
  }

  flush_links-IsPassed :
      (dead : ℕ) (fuel : ℕ) (flag : Bool) (m : List (ℕ × Link)) (w : os.World)
      → Every (IsKept dead flag i) m
      → Ensures (IsPassed dead i m) (flush_links os fuel m w)
  unfolding flush_links
  flush_links-IsPassed dead fuel flag [] w a = record {
    every = tt;
    above = λ k a. tt;
    sorted = λ a. tt;
  }
  flush_links-IsPassed dead fuel flag ((h, l) ∷ m) w (k, a) =
      elim (Option-cases (drain os fuel l.mi_socket l.send_buff_list w)) [
        | inl out ↦ rw (out, flush_links) tt
        | inr (d, r) ↦ elim (Option-cases (flush_links os fuel m d.world)) [
          | inl out ↦ rw (r, flush_links, out) tt
          | inr (rest, r') ↦
              let s : IsStream (pending l.send_buff_list) d =
                rw r at (drain-carried os fuel l.mi_socket l.send_buff_list w laws k.whole) in
              let p : IsPassed dead i m rest =
                rw r' at (flush_links-IsPassed dead fuel flag m d.world a) in
              rw (r, flush_links, r') (flush_link-IsPassed fuel h flag d l m rest s.whole k p)
        ]
      ]

module _ (os : Os) where
  pub do_send_buff-IsSane :
      {dead : ℕ} (fuel : ℕ) (t : Tcp os.World)
      → WriteLaws os
      → IsSane dead t
      → Ensures (λ r. IsSane dead r.0) (do_send_buff os fuel t)
  unfolding do_send_buff
  do_send_buff-IsSane {dead} fuel t laws s = elim (Bool-cases t.send_flag) [
    | inl up ↦ elim (Option-cases (flush_links os fuel t.links t.world)) [
      | inl out ↦ rw (up, do_send_buff, out) tt
      | inr (f, r) ↦
          let p : IsPassed dead t.i_link t.links f =
            rw r at (
              flush_links-IsPassed os t.i_link laws dead fuel t.send_flag t.links t.world
                s.every) in
          rw (up, do_send_buff, r)
            (record { sorted = p.sorted s.sorted; every = p.every; retired = s.retired })
    ]
    | inr down ↦ rw (down, do_send_buff) s
  ]
