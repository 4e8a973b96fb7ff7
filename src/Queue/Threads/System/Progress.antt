-- ===== src/Queue/Threads/System/Progress.antt =====
-- What the workers are bound to do: take tasks while the queue is open, and end when it is closed.
use net_lib_wrapper.Prelude.{
  ℕ, zero, suc, ◌<◌, ◌≡◌, ◌≢◌, ◌⊎◌, inl, inr, refl, ◌∙◌, true, false, List, [], ◌∷◌, ◌++◌,
  append-nil, append_assoc, ◌==◌, Bool-cases, Option-cases, arith,
}
use net_lib_wrapper.Queue.Tasks.{pop, empty}
use net_lib_wrapper.Queue.Timers.{peek}
use net_lib_wrapper.Queue.Threads.{
  CallBack, ThreadQueue, post_task, post_front_task, set_timer, kill_timer, notify_exit, Pc,
  at_start, waiting, in_timer, in_task, ended, after_timer, after_wait, loop_head, after_task,
  resume,
}
use net_lib_wrapper.Queue.Threads.System.{
  System, update, begun, turned, posting, fronting, Step, turn, post, post_front, set, kill, exit,
  Reach, here, later, all_turned,
}

-- With the flag up, a worker that gets the mutex ends and touches nothing.
resume-exit :
    (now : ℕ) (p : Pc) (q : ThreadQueue) → q.exit_flag ≡ true → resume now p q ≡ (ended, q)
unfolding resume loop_head after_task after_wait after_timer
resume-exit now at_start q e = rw (e)
resume-exit now waiting q e = rw (e)
resume-exit now (in_timer id arg) q e = rw (e)
resume-exit now (in_task task) q e = rw (e)
resume-exit now ended q e = refl

update_same : (f : ℕ → Pc) (i : ℕ) (p : Pc) → update f i p i ≡ p
update_same f i p = ground arith

-- `s` is closed; since then no task was taken, and each worker stands where it stood or has ended.
record Closed (s t : System) : Type 0 where
  closed : t.queue.exit_flag ≡ true
  untaken : t.taken ≡ s.taken
  stands : (i : ℕ) → (t.pc i ≡ s.pc i) ⊎ (t.pc i ≡ ended)

turned-Closed : (now i : ℕ) (s t : System) → Closed s t → Closed s (turned now i t)
unfolding turned
turned-Closed now i s t c =
    let done = resume-exit now (t.pc i) t.queue c.closed in
    record {
      closed = rw (done) c.closed;
      untaken = rw (done, append-nil t.taken) c.untaken;
      stands = λ j. rw (done) (ground (arith, c.stands j));
    }

kept-Closed :
    (s t u : System)
    → Closed s t
    → u.queue.exit_flag ≡ true
    → u.taken ≡ t.taken
    → u.pc ≡ t.pc
    → Closed s u
kept-Closed s t u c e k p = record {
  closed = e;
  untaken = k ∙ c.untaken;
  stands = λ i. rw (p) (c.stands i);
}

Step-Closed : {n : ℕ} {s t u : System} → Closed s t → Step n t u → Closed s u
unfolding set_timer kill_timer notify_exit posting fronting post_task post_front_task
Step-Closed c (turn now i lt) = turned-Closed now i _ _ c
Step-Closed c (post task) = kept-Closed _ _ _ c c.closed refl refl
Step-Closed c (post_front task) = kept-Closed _ _ _ c c.closed refl refl
Step-Closed c (set now id elapse on_timer arg) = kept-Closed _ _ _ c c.closed refl refl
Step-Closed c (kill id) = kept-Closed _ _ _ c c.closed refl refl
Step-Closed c exit = kept-Closed _ _ _ c refl refl refl

Reach-Closed : {n : ℕ} {s t : System} → s.queue.exit_flag ≡ true → Reach n s t → Closed s t
Reach-Closed e here = record { closed = e; untaken = refl; stands = λ i. inl refl }
Reach-Closed e (later r st) = Step-Closed (Reach-Closed e r) st

-- Once `notify_exit` has raised the flag, no worker takes a task or calls a timer: in all that
-- follows, each worker stands where it stood, in the callback that it runs or in its wait, or it has
-- ended.
pub Reach-exit :
    {n : ℕ} {s t : System} (i : ℕ)
    → s.queue.exit_flag ≡ true
    → Reach n s t
    → (t.taken ≡ s.taken) × ((t.pc i ≡ s.pc i) ⊎ (t.pc i ≡ ended))
Reach-exit i e r = let c = Reach-Closed e r in (c.untaken, c.stands i)

all_turned-flag :
    (n now : ℕ) (s : System)
    → s.queue.exit_flag ≡ true
    → (all_turned n now s).queue.exit_flag ≡ true
unfolding all_turned turned
all_turned-flag zero now s e = e
all_turned-flag (suc n) now s e =
    let t = all_turned n now s in
    let more = all_turned-flag n now s e in rw (resume-exit now (t.pc n) t.queue more) more

-- With the flag up, a turn of each of `n` workers ends them all, wherever they stood, so that
-- TaskThread::end can join them.
pub all_turned-ended :
    (n now i : ℕ) (s : System)
    → s.queue.exit_flag ≡ true
    → i < n
    → (all_turned n now s).pc i ≡ ended
unfolding all_turned turned
all_turned-ended zero now i s e h = absurd (omega arith)
all_turned-ended (suc n) now i s e h =
    let t = all_turned n now s in
    let done = resume-exit now (t.pc n) t.queue (all_turned-flag n now s e) in
    elim (Bool-cases (i == n)) [
      | inl q ↦ rw (done, q) refl
      | inr q ↦ rw (done, q) (all_turned-ended n now i s e (ground arith))
    ]

-- A turn with the flag down and a task waiting: the worker takes it, or calls a timer first.
abbrev Starts : CallBack → List CallBack → Pc × ThreadQueue → Type 0
Starts task rest r =
    ((r.0 ≡ in_task task) × (r.1.task_queue.tasks ≡ rest))
    ⊎ ((id arg : ℕ) × (r.0 ≡ in_timer id arg)
        × (r.1.task_queue.tasks ≡ task ∷ rest)
        × (r.1.exit_flag ≡ false))

after_timer-task :
    (task : CallBack) (rest : List CallBack) (q : ThreadQueue)
    → q.exit_flag ≡ false
    → q.task_queue.tasks ≡ task ∷ rest
    → ((after_timer q).0 ≡ in_task task) × ((after_timer q).1.task_queue.tasks ≡ rest)
unfolding after_timer pop
after_timer-task task rest q e t = ground arith

after_wait-Starts :
    (now : ℕ) (task : CallBack) (rest : List CallBack) (q : ThreadQueue)
    → q.exit_flag ≡ false
    → q.task_queue.tasks ≡ task ∷ rest
    → Starts task rest (after_wait now q)
unfolding after_wait
after_wait-Starts now task rest q e t = elim (Option-cases (peek now q.timer_queue).0) [
  | inl p ↦ rw (e, p) (inl (after_timer-task task rest q e t))
  | inr (u, p) ↦ rw (e, p) (inr (u.mui_id, u.func_arg, refl, t, e))
]

loop_head_open :
    (now : ℕ) (task : CallBack) (rest : List CallBack) (q : ThreadQueue)
    → q.exit_flag ≡ false
    → q.task_queue.tasks ≡ task ∷ rest
    → loop_head now q ≡ after_wait now q
unfolding loop_head empty
loop_head_open now task rest q e t = ground arith

after_task_open :
    (now : ℕ) (q : ThreadQueue) → q.exit_flag ≡ false → after_task now q ≡ loop_head now q
unfolding after_task
after_task_open now q e = ground arith

loop_head-Starts :
    (now : ℕ) (task : CallBack) (rest : List CallBack) (q : ThreadQueue)
    → q.exit_flag ≡ false
    → q.task_queue.tasks ≡ task ∷ rest
    → Starts task rest (loop_head now q)
loop_head-Starts now task rest q e t =
    rw (loop_head_open now task rest q e t) (after_wait-Starts now task rest q e t)

resume-Starts :
    (now : ℕ) (task : CallBack) (rest : List CallBack) (p : Pc) (q : ThreadQueue)
    → q.exit_flag ≡ false
    → q.task_queue.tasks ≡ task ∷ rest
    → p ≢ ended
    → Starts task rest (resume now p q)
unfolding resume
resume-Starts now task rest at_start q e t h = loop_head-Starts now task rest q e t
resume-Starts now task rest waiting q e t h = after_wait-Starts now task rest q e t
resume-Starts now task rest (in_timer id arg) q e t h = inl (after_timer-task task rest q e t)
resume-Starts now task rest (in_task _) q e t h =
    rw (after_task_open now q e) (loop_head-Starts now task rest q e t)
resume-Starts now task rest ended q e t h = absurd (h refl)

-- While the flag is down, two turns of a worker that has not ended, with no step of another worker
-- or of the program between them, take the first task that waits, whatever timers are due: a turn
-- calls one timer at most.
pub turned-taken :
    (now now' i : ℕ) (s : System) (task : CallBack) (rest : List CallBack)
    → s.queue.exit_flag ≡ false
    → s.queue.task_queue.tasks ≡ task ∷ rest
    → s.pc i ≢ ended
    → (more : List CallBack) × ((turned now' i (turned now i s)).taken ≡ s.taken ++ (task ∷ more))
unfolding turned resume
turned-taken now now' i s task rest e t h =
    let q = (resume now (s.pc i) s.queue).1 in
    elim (resume-Starts now task rest (s.pc i) s.queue e t h) [
      | inl (p, _) ↦ (
        begun (resume now' (in_task task) q).0,
        rw (p, update_same s.pc i (in_task task))
            (append_assoc s.taken (task ∷ []) (begun (resume now' (in_task task) q).0)),
      )
      | inr (id, arg, p, t', e') ↦ (
        [],
        rw
            (
              p,
              update_same s.pc i (in_timer id arg),
              append-nil s.taken,
              (after_timer-task task rest q e' t').0,
            )
            refl,
      )
    ]
