-- ===== src/ConcurrentMessageLoop/LeftBehind.antt =====
-- What `Terminate` leaves in the queue of tasks.
use mathlib.Core.List.{append-nil, append_assoc}
use mathlib.Core.Path.{subst}
use environment_check.Prelude.{
  set_at, ℕ, zero, suc, ◌+◌, ◌<◌, ◌≤◌, ◌≡◌, refl, sym, ap, ◌∙◌, none, some, Bool, true, false, List,
  [], ◌∷◌, ◌++◌, ◌==◌, ==_iff, Bool-cases, inl, inr, arith, length, length-append,
}
use environment_check.DelayedTask.{Closure}
use environment_check.ConcurrentMessageLoop.{
  ConcurrentMessageLoop, Pool, Worker, waiting, running, ended, Event, ran_on_caller, sent,
  terminated, took, called, turned, notified_one, slept, woke, notifies, sleeps, wakes, Step, posts,
  runs_on_caller, sends, terminates, takes, calls, turns, Steps, start, then_step, post_task,
  terminate, post_task_to_all_workers, or_empty, front, rest_of, with_task, after_turn,
}
use environment_check.ConcurrentMessageLoop.Taking.{left, take_work_lem, front-rest_of}
use environment_check.ConcurrentMessageLoop.Account.{runs_on_caller_lem, work}
use environment_check.ConcurrentMessageLoop.Balance.{collect, collect-snoc, taken_in}

-- Whether a worker may yet take from the queue after `Terminate`.
abbrev chance : Worker → ℕ
chance waiting = 1
chance (running cs false) = 1
chance (running cs true) = 0
chance ended = 0

abbrev chances : ℕ → (ℕ → Worker) → ℕ
chances zero ws = 0
chances (suc n) ws = chance (ws n) + chances n ws

chance_le : (x : Worker) → chance x ≤ 1
chance_le waiting = omega arith
chance_le (running cs true) = omega arith
chance_le (running cs false) = omega arith
chance_le ended = omega arith

chances_le : (n : ℕ) (ws : ℕ → Worker) → chances n ws ≤ n
chances_le zero ws = omega arith
chances_le (suc n) ws = omega (arith, chance_le (ws n), chances_le n ws)

chances_beyond :
    (n w : ℕ) (x : Worker) (ws : ℕ → Worker) → n ≤ w → chances n (set_at w x ws) ≡ chances n ws
chances_beyond zero w x ws b = refl
chances_beyond (suc n) w x ws b =
    let other : (n == w) ≡ false = ground (arith, b) in
    rw (other, chances_beyond n w x ws (omega (arith, b)))

chances_set :
    (n w : ℕ) (x : Worker) (ws : ℕ → Worker)
    → w < n
    → chances n (set_at w x ws) + chance (ws w) ≡ chances n ws + chance x
chances_set zero w x ws b = absurd (omega (arith, b))
chances_set (suc n) w x ws b = elim (Bool-cases (n == w)) [
  | inl y ↦
      let n≡w = (==_iff n w).0 y in rw (y, n≡w, chances_beyond w w x ws (omega arith)) (omega arith)
  | inr z ↦
      let below : w < n = ground (arith, b) in rw z (omega (arith, chances_set n w x ws below))
]

-- What the steps since `p` have left of the queue of a terminated loop.
record Stopped (p : Pool) (es : List Event) (q : Pool) : Type 0 where
  down : q.loop.shutdown ≡ true
  same_count : q.loop.worker_count ≡ p.loop.worker_count
  queue : p.loop.tasks ≡ collect taken_in es ++ q.loop.tasks
  few :
      length (collect taken_in es) + chances q.loop.worker_count q.workers
      ≤ chances p.loop.worker_count p.workers

-- Nothing of this depends on who is asleep.
asleep-Stopped :
    {p : Pool} {es : List Event} {q : Pool} (asleep : ℕ → Bool) (n : ℕ)
    → Stopped p es q
    → Stopped p es (record q { asleep = asleep; notifications = n })
asleep-Stopped asleep n s = record {
  down = s.down;
  same_count = s.same_count;
  queue = s.queue;
  few = s.few;
}

at_most_one : (task : Closure) → length (with_task task []) ≤ 1
at_most_one none = omega arith
at_most_one (some c) = omega arith

module _ {p : Pool} {es : List Event} {q : Pool} (s : Stopped p es q) where
  -- A step that takes nothing from the queue.
  idle_queue :
      (e : Event) (xs : List ℕ)
      → taken_in e ≡ []
      → xs ≡ q.loop.tasks
      → p.loop.tasks ≡ collect taken_in (es ++ e ∷ []) ++ xs
  idle_queue e xs h same =
      s.queue ∙ rw (collect-snoc taken_in es e, h, append-nil (collect taken_in es), same)

  idle_few :
      (e : Event) (ws : ℕ → Worker)
      → taken_in e ≡ []
      → chances q.loop.worker_count ws ≤ chances q.loop.worker_count q.workers
      → length (collect taken_in (es ++ e ∷ [])) + chances q.loop.worker_count ws
        ≤ chances p.loop.worker_count p.workers
  idle_few e ws h less =
      rw (collect-snoc taken_in es e, h, append-nil (collect taken_in es))
        (omega (arith, s.few, less))

  -- A step of a worker that keeps or loses its chance.
  moved :
      (w : ℕ) (x : Worker)
      → w < q.loop.worker_count
      → chance x ≤ chance (q.workers w)
      → chances q.loop.worker_count (set_at w x q.workers) ≤ chances q.loop.worker_count q.workers
  moved w x b less = omega (arith, less, chances_set q.loop.worker_count w x q.workers b)

  idle-Stopped :
      (e : Event) (ws : ℕ → Worker)
      → taken_in e ≡ []
      → chances q.loop.worker_count ws ≤ chances q.loop.worker_count q.workers
      → Stopped p (es ++ e ∷ []) (record q { workers = ws })
  idle-Stopped e ws h less = record {
    down = s.down;
    same_count = s.same_count;
    queue = idle_queue e q.loop.tasks h refl;
    few = idle_few e ws h less;
  }

  module _ (w : ℕ) (b : w < q.loop.worker_count) where
    abbrev task : Closure
    task = front q.loop.tasks

    abbrev cs : List ℕ
    cs = or_empty (q.loop.thread_tasks w)

    abbrev taken : List ℕ
    taken = with_task task []

    takes-Stopped :
        q.workers w ≡ waiting
        → Stopped p (es ++ took w task cs ∷ []) (record q {
          loop = left w q.loop;
          workers = set_at w (running (with_task task cs) q.loop.shutdown) q.workers;
        })
    takes-Stopped h = record {
      down = s.down;
      same_count = s.same_count;
      queue =
          s.queue
          ∙ ap (λ xs. collect taken_in es ++ xs) (front-rest_of q.loop.tasks)
          ∙ sym (append_assoc (collect taken_in es) taken (rest_of q.loop.tasks))
          ∙ ap (λ xs. xs ++ rest_of q.loop.tasks) (sym (collect-snoc taken_in es (took w task cs)));
      few =
          rw
            (
              collect-snoc taken_in es (took w task cs),
              length-append (collect taken_in es) taken,
              s.down,
            )
            (omega (
              arith,
              s.few,
              ap chance h,
              at_most_one task,
              chances_set q.loop.worker_count w (running (with_task task cs) true) q.workers b,
            ));
    }

called_chance :
    (c : ℕ) (cs : List ℕ) (stop : Bool) → chance (running cs stop) ≤ chance (running (c ∷ cs) stop)
called_chance c cs true = omega arith
called_chance c cs false = omega arith

turned_chance : (stop : Bool) → chance (after_turn stop) ≤ chance (running [] stop)
turned_chance true = omega arith
turned_chance false = omega arith

Step-Stopped :
    {p : Pool} {es : List Event} {q r : Pool} {e : Event}
    → Stopped p es q
    → Step q e r
    → Stopped p (es ++ e ∷ []) r
unfolding post_task post_task_to_all_workers terminate
Step-Stopped {q = q} s (posts c l h) = cc (ap (λ x. x.0) (simp s.down at h))
Step-Stopped {p} {es = es} {q} s (runs_on_caller c d l h) =
    subst (λ l. Stopped p (es ++ ran_on_caller d ∷ []) (record q { loop = l }))
      (runs_on_caller_lem c d q.loop l h)
      (idle-Stopped s (ran_on_caller d) q.workers refl (omega arith))
Step-Stopped {q = q} s (sends c) = record {
  down = s.down;
  same_count = s.same_count;
  queue = idle_queue s (sent c) q.loop.tasks refl refl;
  few = idle_few s (sent c) q.workers refl (omega arith);
}
Step-Stopped {q = q} s terminates = record {
  down = refl;
  same_count = s.same_count;
  queue = idle_queue s terminated q.loop.tasks refl refl;
  few = idle_few s terminated q.workers refl (omega arith);
}
Step-Stopped {q = q} s (notifies v n h one) =
    asleep-Stopped (set_at v false q.asleep) n
      (idle-Stopped s notified_one q.workers refl (omega arith))
Step-Stopped {q = q} s (sleeps w b h awake m) =
    asleep-Stopped (set_at w true q.asleep) q.notifications
      (idle-Stopped s (slept w) q.workers refl (omega arith))
Step-Stopped {q = q} s (wakes w h) =
    asleep-Stopped (set_at w false q.asleep) q.notifications
      (idle-Stopped s (woke w) q.workers refl (omega arith))
Step-Stopped {p} {es = es} {q} s (takes w job batch stop l b h awake m r) =
    subst
      (λ (x : (Closure × List ℕ × Bool) × ConcurrentMessageLoop).
        Stopped p (es ++ took w x.0.0 x.0.1 ∷ []) (record q {
          loop = x.1;
          workers = set_at w (running (with_task x.0.0 x.0.1) x.0.2) q.workers;
        }))
      (ap (work (job, batch, stop)) (sym (take_work_lem w q.loop) ∙ r)) (takes-Stopped s w b h)
Step-Stopped {q = q} s (calls w c cs stop b h) =
    idle-Stopped s (called w c) (set_at w (running cs stop) q.workers) refl
      (moved s w (running cs stop) b (rw h (called_chance c cs stop)))
Step-Stopped {q = q} s (turns w stop b h) =
    idle-Stopped s (turned w) (set_at w (after_turn stop) q.workers) refl
      (moved s w (after_turn stop) b (rw h (turned_chance stop)))

Steps-Stopped :
    {p q : Pool} {es : List Event} → p.loop.shutdown ≡ true → Steps p es q → Stopped p es q
Steps-Stopped down start = record {
  down = down;
  same_count = refl;
  queue = refl;
  few = omega arith;
}
Steps-Stopped down (then_step es e q r steps step) = Step-Stopped (Steps-Stopped down steps) step

-- After `Terminate`, whatever steps follow: what the workers take from the queue is the front of
-- what stood there, and they take no more tasks than there are workers. The rest stays in the queue
-- and no worker calls it.
pub stopped_takes_few :
    (p q : Pool) (es : List Event)
    → p.loop.shutdown ≡ true
    → Steps p es q
    → (p.loop.tasks ≡ collect taken_in es ++ q.loop.tasks)
      × (length (collect taken_in es) ≤ p.loop.worker_count)
stopped_takes_few p q es down steps =
    let s = Steps-Stopped down steps in
    (s.queue, omega (arith, s.few, chances_le p.loop.worker_count p.workers))
