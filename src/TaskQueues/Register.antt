-- ===== src/TaskQueues/Register.antt =====
-- `RegisterTask`: what a queue offers afterwards, and which loop is woken.
use environment_check.Prelude.{
  ℕ, ◌+◌, ◌%◌, ◌^◌, ◌≡◌, refl, ap, ◌∙◌, none, some, true, false, List, [], ◌∷◌, Perm, contains,
  Bool-cases, inl, inr, if◌then◌else◌,
}
use environment_check.Outcome.{returns, fails, out_of_range}
use environment_check.DelayedTask.{DelayedTask, Closure, TimePoint, TaskSourceGrade}
use environment_check.TaskSource.{register, eligible}
use environment_check.TaskSource.Contents.{
  offers, register-IsValid, register-eligible, task_queue_id-register,
}
use environment_check.TaskQueues.Entries.{Entries, TaskQueueEntry, update, is_subsumed}
use environment_check.TaskQueues.State.{MessageLoopTaskQueues, register_task, sign_extend}
use environment_check.TaskQueues.Consistent.{IsConsistent, offered}
use environment_check.TaskQueues.Links.{
  HasLinksOf, update-KeepsLinks, update-IsConsistent, update_self,
}
use environment_check.TaskQueues.Offered.{Shift, offered_own, offered_owned}
use environment_check.TaskQueues.Wakes.{WakesFor, woken, wake_if_pending-WakesFor}

-- The task that `RegisterTask` makes, and the loop that runs the tasks of a queue.
abbrev pub new_task : MessageLoopTaskQueues → Closure → TimePoint → TaskSourceGrade → DelayedTask
new_task s task target_time grade = record {
  order = sign_extend s.order;
  task = task;
  target_time = target_time;
  task_source_grade = grade;
}

abbrev pub loop_of : ℕ → TaskQueueEntry → ℕ
loop_of q e = if is_subsumed e then e.subsumed_by else q

abbrev pub with_task : TaskQueueEntry → DelayedTask → TaskQueueEntry
with_task e t = record e { task_source = register t e.task_source }

abbrev pub registered :
    MessageLoopTaskQueues → ℕ → TaskQueueEntry → DelayedTask → MessageLoopTaskQueues
registered s q e t = record s {
  queue_entries = update s.queue_entries q (some (with_task e t));
  order = (s.order + 1) % 2 ^ 32;
}

-- A queue that owns another is not subsumed.
pub owner_free :
    {m : Entries} (r p : ℕ) (o : TaskQueueEntry)
    → IsConsistent m
    → m r ≡ some o
    → contains p o.owner_of ≡ true
    → is_subsumed o ≡ false
owner_free r p o v h c = elim (Bool-cases (is_subsumed o)) [
  | inl u ↦ cc (ap (contains p) ((v.at r o h).exclusive u))
  | inr u ↦ u
]

module _ (s : MessageLoopTaskQueues) (v : IsConsistent s.queue_entries) (q : ℕ) (e : TaskQueueEntry)
    (h : s.queue_entries q ≡ some e) (t : DelayedTask) where
  same_links : HasLinksOf e (with_task e t)
  same_links = record { same_owned = refl; same_owner = refl }

  pub registered-IsConsistent : IsConsistent (registered s q e t).queue_entries
  registered-IsConsistent =
      update-IsConsistent v q e (with_task e t) h same_links
        (register-IsValid t e.task_source (v.at q e h).source)
        (task_queue_id-register t e.task_source ∙ (v.at q e h).source_id)

  loop_entry : (f : TaskQueueEntry) × ((registered s q e t).queue_entries (loop_of q e) ≡ some f)
  loop_entry = elim (Bool-cases (is_subsumed e)) [
    | inl u ↦
        let (o, ho, _) = (v.at q e h).owner u in
        let (f, hf, _) = update-KeepsLinks v q e (with_task e t) h same_links e.subsumed_by o ho in
        (f, rw u hf)
    | inr u ↦ (with_task e t, rw u (update_self s.queue_entries q _))
  ]

  abbrev M : Entries
  M = (registered s q e t).queue_entries

  loop-Shift :
      (b : List DelayedTask)
      → Shift [] b (eligible (register t e.task_source)) (eligible e.task_source)
      → Shift [] b (offered M (loop_of q e)) (offered s.queue_entries (loop_of q e))
  loop-Shift b shift = elim (Bool-cases (is_subsumed e)) [
    | inl u ↦
        let (o, ho, c) = (v.at q e h).owner u in
        rw u (
          offered_owned s.queue_entries q e (with_task e t) h [] b shift v same_links e.subsumed_by
            o ho (owner_free e.subsumed_by q o v ho c) c)
    | inr u ↦ rw u (offered_own s.queue_entries q e (with_task e t) h [] b shift v same_links u)
  ]

  -- The loop offers the new task, if the heap of its grade is on offer, and besides what it offered.
  pub registered-offered : Perm (offered M (loop_of q e)) (
      if offers e.task_source t.task_source_grade
      then t ∷ offered s.queue_entries (loop_of q e)
      else offered s.queue_entries (loop_of q e))
  registered-offered = elim (Bool-cases (offers e.task_source t.task_source_grade)) [
    | inl b ↦ rw b (loop-Shift (t ∷ []) (rw b at (register-eligible t e.task_source)))
    | inr b ↦ rw b (loop-Shift [] (rw b at (register-eligible t e.task_source)))
  ]

abbrev pub Registers :
    MessageLoopTaskQueues → ℕ → TaskQueueEntry → Closure → TimePoint → TaskSourceGrade → Type 0
Registers s q e task target_time grade =
    let t = new_task s task target_time grade in
    let s' = registered s q e t in
    (f : TaskQueueEntry) × (ws : List (ℕ × TimePoint)) × (register_task q task target_time grade s
      ≡ (returns tt, woken s' ws))
    × (s'.queue_entries (loop_of q e) ≡ some f)
    × Perm (offered s'.queue_entries (loop_of q e)) (
        if offers e.task_source grade
        then t ∷ offered s.queue_entries (loop_of q e)
        else offered s.queue_entries (loop_of q e))
    × WakesFor s'.queue_entries (loop_of q e) f ws
    × IsConsistent s'.queue_entries

-- `RegisterTask` with a queue that exists returns. The task carries the next order number; it joins
-- what is offered by the loop that runs the queue, its owner if it is subsumed, exactly if the heap
-- of its grade is not paused. That loop is then woken for the earliest of its tasks, if it has one,
-- and no other loop is; the links stay consistent.
pub register_task-offered :
    (s : MessageLoopTaskQueues) (q : ℕ) (e : TaskQueueEntry) (task : Closure)
    (target_time : TimePoint) (grade : TaskSourceGrade)
    → IsConsistent s.queue_entries
    → s.queue_entries q ≡ some e
    → Registers s q e task target_time grade
unfolding register_task
register_task-offered s q e task target_time grade v h =
    let t = new_task s task target_time grade in
    let (f, hf) = loop_entry s v q e h t in
    let (ws, eq, wakes) =
      wake_if_pending-WakesFor (registered s q e t) (loop_of q e) f hf
        (registered-IsConsistent s v q e h t) in
    (f, ws, rw h eq, hf, registered-offered s v q e h t, wakes, registered-IsConsistent s v q e h t)

-- With a queue that does not exist it throws, and all that it changed is the order number.
pub register_task-missing :
    (s : MessageLoopTaskQueues) (q : ℕ) (task : Closure) (target_time : TimePoint)
    (grade : TaskSourceGrade)
    → s.queue_entries q ≡ none
    → register_task q task target_time grade s
      ≡ (fails out_of_range, record s { order = (s.order + 1) % 2 ^ 32 })
unfolding register_task
register_task-missing s q task target_time grade h = rw h
