-- ===== src/ConcurrentMessageLoop/Stopping.antt =====
-- What happens after `Terminate`: no worker sleeps on, and all can come to their end.
use mathlib.Core.List.{append-nil, append_assoc}
use mathlib.Core.Path.{subst}
use environment_check.Prelude.{
  set_at, ℕ, ◌<◌, ◌≡◌, refl, sym, ap, ◌∙◌, Bool, true, false, List, [], ◌∷◌, ◌++◌, ◌==◌, ==_iff,
  arith, All, All-append, Bool-cases, inl, inr,
}
use environment_check.Outcome.{Outcome, returns}
use environment_check.DelayedTask.{Closure}
use environment_check.ConcurrentMessageLoop.{
  ConcurrentMessageLoop, Pool, Worker, waiting, running, ended, Event, took, called, turned, Step,
  takes, calls, turns, Steps, start, then_step, or_empty, front, with_task, after_turn, may_wake,
  posts, runs_on_caller, sends, terminates, notifies, sleeps, wakes, new_pool,
  post_task_to_all_workers,
}
use environment_check.ConcurrentMessageLoop.Taking.{left, take_work_lem}
use environment_check.ConcurrentMessageLoop.Account.{posts_lem, runs_on_caller_lem}

set_same {ℓ} : {A : Type ℓ} (w : ℕ) (a : A) (f : ℕ → A) → set_at w a f w ≡ a
set_same w a f = rw ((==_iff w w).1 refl)

pub Steps-append :
    {p q r : Pool} {es fs : List Event} → Steps p es q → Steps q fs r → Steps p (es ++ fs) r
Steps-append {p} {q} {es = es} first start = subst (λ ds. Steps p ds q) (sym (append-nil es)) first
Steps-append {p} {es = es} first (then_step fs e q r steps step) =
    subst (λ ds. Steps p ds r) (append_assoc es fs (e ∷ []))
      (then_step (es ++ fs) e q r (Steps-append first steps) step)

one-Step : {p q : Pool} (e : Event) → Step p e q → Steps p (e ∷ []) q
one-Step {p} {q} e step = then_step [] e p q start step

-- Whether an event is a step of the worker `w`.
abbrev pub is_of : ℕ → Event → Bool
is_of w (took v task cs) = w == v
is_of w (called v c) = w == v
is_of w (turned v) = w == v
is_of w _ = false

abbrev pub AreOf : ℕ → List Event → Type 0
AreOf w es = All (λ e. is_of w e ≡ true) es

of_self : (w : ℕ) → (w == w) ≡ true
of_self w = (==_iff w w).1 refl

-- A history of steps of the worker `w` that leads to a state where it stands at `x`, and leaves the loop alone.
abbrev Leads : Pool → ℕ → Worker → Type 0
Leads p w x =
    (es : List Event) × (q : Pool) × Steps p es q
    × AreOf w es
    × (q.workers w ≡ x)
    × (q.loop ≡ p.loop)
    × (q.asleep ≡ p.asleep)

run_out :
    (p : Pool) (w : ℕ) (cs : List ℕ) (stop : Bool)
    → w < p.loop.worker_count
    → p.workers w ≡ running cs stop
    → Leads p w (after_turn stop)
run_out p w [] stop b h = (
  turned w ∷ [],
  record p { workers = set_at w (after_turn stop) p.workers },
  one-Step (turned w) (turns w stop b h),
  (of_self w, tt),
  set_same w (after_turn stop) p.workers,
  refl,
  refl,
)
run_out p w (c ∷ cs) stop b h =
    let next : Pool = record p { workers = set_at w (running cs stop) p.workers } in
    let (es, q, steps, own, at, same, same_asleep) =
      run_out next w cs stop b (set_same w (running cs stop) p.workers) in
    (
      called w c ∷ [] ++ es,
      q,
      Steps-append (one-Step (called w c) (calls w c cs stop b h)) steps,
      (of_self w, own),
      at,
      same,
      same_asleep,
    )

abbrev Ends : Pool → ℕ → Type 0
Ends p w = (es : List Event) × (q : Pool) × Steps p es q × AreOf w es × (q.workers w ≡ ended)

Ends-waiting :
    (p : Pool) (w : ℕ)
    → p.loop.shutdown ≡ true
    → w < p.loop.worker_count
    → p.workers w ≡ waiting
    → p.asleep w ≡ false
    → Ends p w
unfolding may_wake
Ends-waiting p w down b h up =
    let task = front p.loop.tasks in
    let cs = or_empty (p.loop.thread_tasks w) in
    let next : Pool = record p {
      loop = left w p.loop;
      workers = set_at w (running (with_task task cs) true) p.workers;
    } in
    let awake : may_wake w p.loop ≡ true = ground (arith, down) in
    let took_it =
      takes w task cs true (left w p.loop) b h up awake
        (take_work_lem w p.loop ∙ ap (λ d. (returns (task, cs, d), left w p.loop)) down) in
    let (es, q, steps, own, at, _, _) =
      run_out next w (with_task task cs) true b
        (set_same w (running (with_task task cs) true) p.workers) in
    (
      took w task cs ∷ [] ++ es,
      q,
      Steps-append (one-Step (took w task cs) took_it) steps,
      (of_self w, own),
      at,
    )

Ends-running :
    (p : Pool) (w : ℕ) (stop : Bool) (cs : List ℕ)
    → p.loop.shutdown ≡ true
    → w < p.loop.worker_count
    → p.workers w ≡ running cs stop
    → p.asleep w ≡ false
    → Ends p w
Ends-running p w true cs down b h up =
    let (es, q, steps, own, at, _, _) = run_out p w cs true b h in (es, q, steps, own, at)
Ends-running p w false cs down b h up =
    let (es, q, steps, own, at, same, same_asleep) = run_out p w cs false b h in
    let (fs, r, steps', own', at') =
      Ends-waiting q w (ap (λ (l : ConcurrentMessageLoop). l.shutdown) same ∙ down)
        (subst (λ (l : ConcurrentMessageLoop). w < l.worker_count) (sym same) b) at
        (ap (λ (f : ℕ → Bool). f w) same_asleep ∙ up) in
    (es ++ fs, r, Steps-append steps steps', All-append (λ e. is_of w e ≡ true) es fs own own', at')

-- Once the loop is terminated no worker is asleep.
NoneLeft : Pool → Type 0
NoneLeft p = p.loop.shutdown ≡ true → (w : ℕ) → p.asleep w ≡ false

woken_stays : (v w : ℕ) (asleep : ℕ → Bool) → asleep w ≡ false → set_at v false asleep w ≡ false
woken_stays v w asleep h = elim (Bool-cases (w == v)) [ inl y ↦ rw y refl | inr n ↦ rw n h ]

Step-NoneLeft : {p q : Pool} {e : Event} → NoneLeft p → Step p e q → NoneLeft q
unfolding NoneLeft post_task_to_all_workers may_wake
Step-NoneLeft {p} a (posts c l h) down w =
    a (ap (λ (l : ConcurrentMessageLoop). l.shutdown) (posts_lem c p.loop l h) ∙ down) w
Step-NoneLeft {p} a (runs_on_caller c d l h) down w =
    a (ap (λ (l : ConcurrentMessageLoop). l.shutdown) (runs_on_caller_lem c d p.loop l h) ∙ down) w
Step-NoneLeft a (sends c) down w = refl
Step-NoneLeft a terminates down w = refl
Step-NoneLeft {p} a (notifies v n h one) down w = woken_stays v w p.asleep (a down w)
Step-NoneLeft {p} a (sleeps v b h up m) down w = absurd (ground (arith, m, down))
Step-NoneLeft {p} a (wakes v h) down w = woken_stays v w p.asleep (a down w)
Step-NoneLeft {p} a (takes v task cs stop l b h up m r) down w =
    let kept : (left v p.loop).shutdown ≡ l.shutdown =
      ap (λ (x : Outcome (Closure × List ℕ × Bool) × ConcurrentMessageLoop). x.1.shutdown)
        (sym (take_work_lem v p.loop) ∙ r) in
    a (kept ∙ down) w
Step-NoneLeft a (calls v c cs stop b h) down w = a down w
Step-NoneLeft a (turns v stop b h) down w = a down w

Steps-NoneLeft : {p q : Pool} {es : List Event} → NoneLeft p → Steps p es q → NoneLeft q
Steps-NoneLeft a start = a
Steps-NoneLeft a (then_step es e q r steps step) = Step-NoneLeft (Steps-NoneLeft a steps) step

-- After any steps of a new pool, in any interleaving, where the loop is terminated: no worker is
-- asleep, so none needs a notification that may not come, and each worker, wherever it stands, can
-- come to the end of `WorkerMain` by the steps that it makes itself.
pub worker-Ends :
    (n : ℕ) (ds : List Event) (p : Pool) (w : ℕ)
    → Steps (new_pool n) ds p
    → p.loop.shutdown ≡ true
    → w < p.loop.worker_count
    → (p.asleep w ≡ false)
      × (es : List Event) × (q : Pool) × Steps p es q
      × AreOf w es
      × (q.workers w ≡ ended)
unfolding NoneLeft
worker-Ends n ds p w steps down b =
    let (es, q, own_steps, own, at) = by_worker (p.workers w) refl in
    (up, es, q, own_steps, own, at)
  where
    up : p.asleep w ≡ false
    up = Steps-NoneLeft (λ _ v. refl) steps down w

    by_worker : (x : Worker) → p.workers w ≡ x → Ends p w
    by_worker waiting h = Ends-waiting p w down b h up
    by_worker (running cs stop) h = Ends-running p w stop cs down b h up
    by_worker ended h = ([], p, start, tt, h)
