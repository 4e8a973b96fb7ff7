-- ===== src/Tcp/Output/Flag.antt =====
-- `mb_send_flag`: no link waits unnoticed.
use net_lib_wrapper.Prelude.{
  ℕ, ◌≡◌, refl, sym, ◌∙◌, ◌⊎◌, inl, inr, Bool, true, false, Option, none, some, List, [], ◌∷◌,
  arith, ◌||◌, not, Bool-cases, Option-cases, Ensures,
}
use net_lib_wrapper.Os.{Os}
use net_lib_wrapper.Tcp.Link.{Link}
use net_lib_wrapper.Tcp.Send.{drain}
use net_lib_wrapper.Tcp.Table.{Tcp}
use net_lib_wrapper.Tcp.Output.{
  is_empty, queue_rest, after_first_write, link_send, flush_links, do_send_buff,
}

-- Some link has buffers that wait.
unfoldable pub any_waiting : List (ℕ × Link) → Bool
unfolding is_empty
any_waiting [] = false
any_waiting ((h, l) ∷ m) = not (is_empty l.send_buff_list) || any_waiting m

-- While the flag is down no link waits.
abbrev pub IsNoticed : {W : Type 0} → Tcp W → Type 0
IsNoticed t = t.send_flag ≡ false → any_waiting t.links ≡ false

module _ (os : Os) where
  flush_links-flag :
      (fuel : ℕ) (m : List (ℕ × Link)) (w : os.World)
      → Ensures (λ f. f.send_flag ≡ any_waiting f.links) (flush_links os fuel m w)
  unfolding flush_links any_waiting
  flush_links-flag fuel [] w = refl
  flush_links-flag fuel ((h, l) ∷ m) w =
      elim (Option-cases (drain os fuel l.mi_socket l.send_buff_list w)) [
        | inl out ↦ rw (out, flush_links) tt
        | inr (d, r) ↦ elim (Option-cases (flush_links os fuel m d.world)) [
          | inl out ↦ rw (r, flush_links, out) tt
          | inr (rest, r') ↦
              let ih : rest.send_flag ≡ any_waiting rest.links =
                rw r' at (flush_links-flag fuel m d.world) in
              rw (r, flush_links, r', ih)
        ]
      ]

  -- After `do_send_buff` the flag is up exactly if some link still waits, whenever no link waited
  -- unnoticed before.
  pub do_send_buff-flag :
      (fuel : ℕ) (t : Tcp os.World)
      → IsNoticed t
      → Ensures (λ r. r.0.send_flag ≡ any_waiting r.0.links) (do_send_buff os fuel t)
  unfolding do_send_buff
  do_send_buff-flag fuel t seen = elim (Bool-cases t.send_flag) [
    | inl up ↦ elim (Option-cases (flush_links os fuel t.links t.world)) [
      | inl out ↦ rw (up, do_send_buff, out) tt
      | inr (f, r) ↦
          let same : f.send_flag ≡ any_waiting f.links =
            rw r at (flush_links-flag fuel t.links t.world) in
          rw (up, do_send_buff, r) same
    ]
    | inr down ↦ rw (down, do_send_buff) (down ∙ sym (seen down))
  ]

  -- After `link_send` the flag is up, or both the flag and the link's buffers are as they were.
  pub link_send-flag :
      (l : Link) (flag : Bool) (w : os.World) (p_data : Option (List ℕ)) (size : ℕ)
      → let r = link_send os l flag w p_data size in
        (r.send_flag ≡ true) ⊎ ((r.send_flag ≡ flag) × (r.link.send_buff_list ≡ l.send_buff_list))
  unfolding link_send after_first_write queue_rest
  link_send-flag l flag w none size = inr (refl, refl)
  link_send-flag l flag w (some p_data) size = ground arith
