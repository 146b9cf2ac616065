-- ===== src/ConcurrentMessageLoop/Account.antt =====
-- Where each closure is that was given to a `ConcurrentMessageLoop`.
use mathlib.Core.Path.{subst}
use environment_check.Prelude.{
  set_at, ℕ, suc, true, false, ◌≡◌, refl, sym, ap, ◌∙◌, none, some, Bool, List, [], ◌∷◌, ◌++◌,
  Bool-cases, inl, inr, if◌then◌else◌,
}
use environment_check.Outcome.{Outcome, returns, fails}
use environment_check.DelayedTask.{Closure}
use environment_check.ConcurrentMessageLoop.{
  ConcurrentMessageLoop, Pool, running, Event, posted, ran_on_caller, took, notified_one, slept,
  woke, Step, posts, notifies, sleeps, wakes, none_asleep, runs_on_caller, sends, terminates, takes,
  calls, turns, Steps, start, then_step, new_pool, new_concurrent_loop, post_task, with_task,
}
use environment_check.ConcurrentMessageLoop.Taking.{take_work_lem}
use environment_check.ConcurrentMessageLoop.Balance.{
  Account, posts-Account, idle-Account, asleep-Account, sends-Account, terminates-Account,
  takes-Account, calls-Account, turns-Account,
}

-- What the equations of a step say of the state after it.
pub posts_lem :
    (c : ℕ) (l l' : ConcurrentMessageLoop)
    → post_task (some c) l ≡ (none, l')
    → record l { tasks = l.tasks ++ c ∷ [] } ≡ l'
unfolding post_task
posts_lem c l l' h = elim (Bool-cases l.shutdown) [
  | inl y ↦ cc (ap (λ x. x.0) (simp y at h))
  | inr n ↦
      let live : post_task (some c) l ≡ (none, record l { tasks = l.tasks ++ c ∷ [] }) =
        ap (λ b. if b then (some c, l) else (none, record l { tasks = l.tasks ++ c ∷ [] })) n in
      ap (λ x. x.1) (sym live ∙ h)
]

pub runs_on_caller_lem :
    (c d : ℕ) (l l' : ConcurrentMessageLoop) → post_task (some c) l ≡ (some d, l') → l ≡ l'
unfolding post_task
runs_on_caller_lem c d l l' h = elim (Bool-cases l.shutdown) [
  | inl y ↦ ap (λ x. x.1) (simp y at h)
  | inr n ↦ cc (ap (λ x. x.0) (simp n at h))
]

abbrev pub work {ℓ} : {A L : Type ℓ} → A → Outcome A × L → A × L
work a (returns b, l) = (b, l)
work a (fails f, l) = (a, l)

Step-Account :
    {es : List Event} {p q : Pool} {e : Event}
    → Account es p
    → Step p e q
    → Account (es ++ e ∷ []) q
Step-Account {es} {p} a (posts c l h) = asleep-Account p.asleep (suc p.notifications) (
    subst (λ l. Account (es ++ posted c ∷ []) (record p { loop = l })) (posts_lem c p.loop l h)
      (posts-Account a c))
Step-Account {es} {p} a (runs_on_caller c d l h) =
    subst (λ l. Account (es ++ ran_on_caller d ∷ []) (record p { loop = l }))
      (runs_on_caller_lem c d p.loop l h)
      (idle-Account a (ran_on_caller d) refl refl refl (λ _. refl) (λ _. refl) (λ _. refl))
Step-Account {p} a (sends c) = asleep-Account none_asleep p.notifications (sends-Account a c)
Step-Account {p} a terminates = asleep-Account none_asleep p.notifications (terminates-Account a)
Step-Account {p} a (notifies v n h one) =
    asleep-Account (set_at v false p.asleep) n
      (idle-Account a notified_one refl refl refl (λ _. refl) (λ _. refl) (λ _. refl))
Step-Account {p} a (sleeps w b h awake m) =
    asleep-Account (set_at w true p.asleep) p.notifications
      (idle-Account a (slept w) refl refl refl (λ _. refl) (λ _. refl) (λ _. refl))
Step-Account {p} a (wakes w h) =
    asleep-Account (set_at w false p.asleep) p.notifications
      (idle-Account a (woke w) refl refl refl (λ _. refl) (λ _. refl) (λ _. refl))
Step-Account {es} {p} a (takes w job batch stop l b h awake m r) =
    subst
      (λ (x : (Closure × List ℕ × Bool) × ConcurrentMessageLoop).
        Account (es ++ took w x.0.0 x.0.1 ∷ []) (record p {
          loop = x.1;
          workers = set_at w (running (with_task x.0.0 x.0.1) x.0.2) p.workers;
        }))
      (ap (work (job, batch, stop)) (sym (take_work_lem w p.loop) ∙ r)) (takes-Account a w h)
Step-Account a (calls w c cs stop b h) = calls-Account a w stop c cs h
Step-Account a (turns w stop b h) = turns-Account a w stop h

new_pool-Account : (n : ℕ) → Account [] (new_pool n)
unfolding new_concurrent_loop
new_pool-Account n = record {
  queue = refl;
  sendings = λ w b. refl;
  callings = λ w. refl;
  ids = refl;
}

Steps-keep : {p q : Pool} {es : List Event} → Account [] p → Steps p es q → Account es q
Steps-keep a start = a
Steps-keep a (then_step es e q r steps step) = Step-Account (Steps-keep a steps) step

-- After any steps of a new pool, in any interleaving of its workers and the threads that use it:
-- what was posted is what the workers took, in the same order, and what stands in the queue; what
-- was sent to all workers is, for each, what it received, in the same order, and what is kept for
-- it; and what a worker took is what it called, in the same order, and what it has yet to call.
pub Steps-Account : (n : ℕ) (es : List Event) (p : Pool) → Steps (new_pool n) es p → Account es p
Steps-Account n es p steps = Steps-keep (new_pool-Account n) steps
