-- ===== src/Queue/Threads/System/Laws.antt =====
-- What holds of the workers in every interleaving.
use net_lib_wrapper.Prelude.{
  ℕ, ◌≡◌, ◌≢◌, refl, sym, ◌∙◌, ap, List, [], ◌∷◌, ◌++◌, append_assoc, arith,
}
use mathlib.Core.List.{Perm, perm_append_comm, perm_middle}
use mathlib.Core.List.Perm
use net_lib_wrapper.Queue.Tasks.{push, push_front, pop}
use net_lib_wrapper.Queue.Threads.{
  CallBack, ThreadQueue, new_queue, post_task, post_front_task, set_timer, kill_timer, notify_exit,
  Pc, at_start, waiting, in_timer, in_task, ended, came_round, after_timer, after_wait, loop_head,
  after_task, resume,
}
use net_lib_wrapper.Queue.Threads.System.{
  System, begun, turned, posting, fronting, turn, post, post_front, set, kill, exit, Reach, here,
  later, init,
}

-- A turn takes the first task or none, and leaves the flag alone.
abbrev TakesFirst : ThreadQueue → Pc × ThreadQueue → Type 0
TakesFirst q r =
    (begun r.0 ++ r.1.task_queue.tasks ≡ q.task_queue.tasks) × (r.1.exit_flag ≡ q.exit_flag)

came_round-TakesFirst : (q : ThreadQueue) → TakesFirst q (came_round q)
unfolding came_round
came_round-TakesFirst q = ground arith

after_timer-TakesFirst : (q : ThreadQueue) → TakesFirst q (after_timer q)
unfolding after_timer pop
after_timer-TakesFirst q = ground (arith, came_round-TakesFirst q)

after_wait-TakesFirst : (now : ℕ) (q : ThreadQueue) → TakesFirst q (after_wait now q)
unfolding after_wait
after_wait-TakesFirst now q = ground (arith, after_timer-TakesFirst q)

loop_head-TakesFirst : (now : ℕ) (q : ThreadQueue) → TakesFirst q (loop_head now q)
unfolding loop_head
loop_head-TakesFirst now q = ground (arith, after_wait-TakesFirst now q)

pub resume-TakesFirst : (now : ℕ) (p : Pc) (q : ThreadQueue) → TakesFirst q (resume now p q)
unfolding resume after_task
resume-TakesFirst now at_start q = loop_head-TakesFirst now q
resume-TakesFirst now waiting q = after_wait-TakesFirst now q
resume-TakesFirst now (in_timer id arg) q = after_timer-TakesFirst q
resume-TakesFirst now (in_task task) q = ground (arith, loop_head-TakesFirst now q)
resume-TakesFirst now ended q = (refl, refl)

record Conserved (s : System) : Type 0 where
  whole : Perm (s.taken ++ s.queue.task_queue.tasks) (s.posted ++ s.fronted)
  in_order : s.fronted ≡ [] → s.taken ++ s.queue.task_queue.tasks ≡ s.posted

module _ {ℓ} {A : Type ℓ} where
  last-Perm : (x : A) (xs ys : List A) → Perm ((xs ++ ys) ++ (x ∷ [])) ((xs ++ (x ∷ [])) ++ ys)
  last-Perm x xs ys =
      rw (append_assoc xs ys (x ∷ []), append_assoc xs (x ∷ []) ys)
        (Perm.append_left xs (perm_append_comm ys (x ∷ [])))

  first-Perm : (x : A) (xs ys : List A) → Perm (xs ++ (x ∷ ys)) ((xs ++ ys) ++ (x ∷ []))
  first-Perm x xs ys = Perm.trans (perm_middle xs ys) (perm_append_comm (x ∷ []) (xs ++ ys))

  last≢nil : (x : A) (xs : List A) → xs ++ (x ∷ []) ≢ []
  last≢nil x [] e = ground arith
  last≢nil x (y ∷ ys) e = ground arith

turned-Conserved : (now i : ℕ) (s : System) → Conserved s → Conserved (turned now i s)
unfolding turned
turned-Conserved now i s c =
    let (p, q) = resume now (s.pc i) s.queue in
    let same =
      append_assoc s.taken (begun p) q.task_queue.tasks
      ∙ ap (◌++◌ s.taken) (resume-TakesFirst now (s.pc i) s.queue).0 in
    record { whole = rw (same) c.whole; in_order = rw (same) c.in_order }

posting-Conserved : (task : CallBack) (s : System) → Conserved s → Conserved (posting task s)
unfolding posting post_task push
posting-Conserved task s c =
    let moved = append_assoc s.taken s.queue.task_queue.tasks (task ∷ []) in
    record {
      whole =
          rw (sym moved) (
            Perm.trans (Perm.append_right (task ∷ []) c.whole) (last-Perm task s.posted s.fronted));
      in_order = λ e. rw (sym moved) (ap (λ l. l ++ (task ∷ [])) (c.in_order e));
    }

fronting-Conserved : (task : CallBack) (s : System) → Conserved s → Conserved (fronting task s)
unfolding fronting post_front_task push_front
fronting-Conserved task s c = record {
  whole = rw (sym (append_assoc s.posted s.fronted (task ∷ []))) (
      Perm.trans (first-Perm task s.taken s.queue.task_queue.tasks)
        (Perm.append_right (task ∷ []) c.whole));
  in_order = λ e. absurd (last≢nil task s.fronted e);
}

Reach-Conserved : {n : ℕ} {s : System} → Reach n init s → Conserved s
unfolding new_queue set_timer kill_timer notify_exit
Reach-Conserved here = record { whole = Perm.rfl; in_order = λ e. refl }
Reach-Conserved (later r (turn now i lt)) = turned-Conserved now i _ (Reach-Conserved r)
Reach-Conserved (later r (post task)) = posting-Conserved task _ (Reach-Conserved r)
Reach-Conserved (later r (post_front task)) = fronting-Conserved task _ (Reach-Conserved r)
Reach-Conserved (later r (set now id elapse on_timer arg)) =
    let c = Reach-Conserved r in record { whole = c.whole; in_order = c.in_order }
Reach-Conserved (later r (kill id)) =
    let c = Reach-Conserved r in record { whole = c.whole; in_order = c.in_order }
Reach-Conserved (later r exit) =
    let c = Reach-Conserved r in record { whole = c.whole; in_order = c.in_order }

-- No task is lost and none is taken twice: in every interleaving of any number of workers, what they
-- have taken and what waits is what was posted, at the back or at the front.
pub Reach-taken :
    {n : ℕ} {s : System}
    → Reach n init s
    → Perm (s.taken ++ s.queue.task_queue.tasks) (s.posted ++ s.fronted)
Reach-taken r = (Reach-Conserved r).whole

-- As long as nothing is posted at the front, the workers take the tasks in the order of the posts.
pub Reach-in_order :
    {n : ℕ} {s : System}
    → Reach n init s
    → s.fronted ≡ []
    → s.taken ++ s.queue.task_queue.tasks ≡ s.posted
Reach-in_order r e = (Reach-Conserved r).in_order e
