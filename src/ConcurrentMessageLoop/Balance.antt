-- ===== src/ConcurrentMessageLoop/Balance.antt =====
-- The account of the closures that were given to a `ConcurrentMessageLoop`, and how a step moves it.
use mathlib.Core.List.{append-nil, append_assoc}
use environment_check.Prelude.{
  set_at, ℕ, ◌<◌, ◌≡◌, refl, sym, ap, ◌∙◌, some, Bool, true, false, List, [], ◌∷◌, ◌++◌, ◌==◌,
  ==_iff, Bool-cases, inl, inr, arith, if◌then◌else◌,
}
use environment_check.DelayedTask.{Closure}
use environment_check.ConcurrentMessageLoop.{
  Pool, Worker, waiting, running, Event, posted, sent, terminated, took, called, turned, ids_from,
  terminate, post_task_to_all_workers, emplace_each, or_empty, front, with_task, after_turn,
}
use environment_check.ConcurrentMessageLoop.Taking.{left, left-kept, emplace_lem, front-rest_of}

-- The closures that the events name, in order.
abbrev pub collect : (Event → List ℕ) → List Event → List ℕ
collect f [] = []
collect f (e ∷ es) = f e ++ collect f es

pub collect-snoc :
    (f : Event → List ℕ) (es : List Event) (e : Event)
    → collect f (es ++ e ∷ []) ≡ collect f es ++ f e
collect-snoc f [] e = append-nil (f e)
collect-snoc f (d ∷ es) e =
    ap (λ xs. f d ++ xs) (collect-snoc f es e) ∙ sym (append_assoc (f d) (collect f es) (f e))

abbrev pub posted_in : Event → List ℕ
posted_in (posted c) = c ∷ []
posted_in _ = []

abbrev pub taken_in : Event → List ℕ
taken_in (took w task cs) = with_task task []
taken_in _ = []

abbrev pub sent_in : Event → List ℕ
sent_in (sent c) = c ∷ []
sent_in _ = []

abbrev pub received_by : ℕ → Event → List ℕ
received_by w (took v task cs) = if w == v then cs else []
received_by w _ = []

abbrev pub taken_by : ℕ → Event → List ℕ
taken_by w (took v task cs) = if w == v then with_task task cs else []
taken_by w _ = []

abbrev pub called_by : ℕ → Event → List ℕ
called_by w (called v c) = if w == v then c ∷ [] else []
called_by w _ = []

abbrev pub in_flight : Worker → List ℕ
in_flight (running cs stop) = cs
in_flight _ = []

-- What was posted was taken in the same order, or stands in the queue; what was sent to all workers
-- was received by each in the same order, or is kept for it; what a worker took it called in that
-- order, or is to call.
pub record Account (es : List Event) (p : Pool) : Type 0 where
  pub queue : collect posted_in es ≡ collect taken_in es ++ p.loop.tasks
  pub sendings :
      (w : ℕ)
      → w < p.loop.worker_count
      → collect sent_in es ≡ collect (received_by w) es ++ or_empty (p.loop.thread_tasks w)
  pub callings :
      (w : ℕ) → collect (taken_by w) es ≡ collect (called_by w) es ++ in_flight (p.workers w)
  pub ids : p.loop.worker_thread_ids ≡ ids_from 0 p.loop.worker_count

-- The account does not read who is asleep.
pub asleep-Account :
    {es : List Event} {p : Pool} (asleep : ℕ → Bool) (n : ℕ)
    → Account es p
    → Account es (record p { asleep = asleep; notifications = n })
asleep-Account asleep n a = record {
  queue = a.queue;
  sendings = a.sendings;
  callings = a.callings;
  ids = a.ids;
}

-- A further event: what it adds on both sides agrees.
advance :
    (f g : Event → List ℕ) (es : List Event) (e : Event) (xs ys : List ℕ)
    → collect f es ≡ collect g es ++ xs
    → xs ++ f e ≡ g e ++ ys
    → collect f (es ++ e ∷ []) ≡ collect g (es ++ e ∷ []) ++ ys
advance f g es e xs ys h k =
    collect-snoc f es e
    ∙ ap (λ zs. zs ++ f e) h
    ∙ append_assoc (collect g es) xs (f e)
    ∙ ap (λ zs. collect g es ++ zs) k
    ∙ sym (append_assoc (collect g es) (g e) ys)
    ∙ ap (λ zs. zs ++ ys) (sym (collect-snoc g es e))

none_after : (stop : Bool) → [] ≡ in_flight (after_turn stop)
none_after true = refl
none_after false = refl

module _ {es : List Event} {p : Pool} (a : Account es p) where
  -- An event that is none of the collected kinds.
  idle_queue :
      (e : Event) (xs : List ℕ)
      → posted_in e ≡ []
      → taken_in e ≡ []
      → p.loop.tasks ≡ xs
      → collect posted_in (es ++ e ∷ []) ≡ collect taken_in (es ++ e ∷ []) ++ xs
  idle_queue e xs h k eq =
      advance posted_in taken_in es e p.loop.tasks xs a.queue
        (rw (h, k) (append-nil p.loop.tasks ∙ eq))

  idle_sendings :
      (e : Event) (w : ℕ)
      → sent_in e ≡ []
      → received_by w e ≡ []
      → w < p.loop.worker_count
      → collect sent_in (es ++ e ∷ [])
        ≡ collect (received_by w) (es ++ e ∷ []) ++ or_empty (p.loop.thread_tasks w)
  idle_sendings e w h k b =
      advance sent_in (received_by w) es e _ _ (a.sendings w b) (rw (h, k) (append-nil _))

  idle_callings :
      (e : Event) (w : ℕ)
      → taken_by w e ≡ []
      → called_by w e ≡ []
      → collect (taken_by w) (es ++ e ∷ [])
        ≡ collect (called_by w) (es ++ e ∷ []) ++ in_flight (p.workers w)
  idle_callings e w h k =
      advance (taken_by w) (called_by w) es e _ _ (a.callings w) (rw (h, k) (append-nil _))

  at_worker :
      (v w : ℕ) (x : Worker)
      → (v == w) ≡ true
      → p.workers w ≡ x
      → in_flight (p.workers v) ≡ in_flight x
  at_worker v w x y h = ap (λ i. in_flight (p.workers i)) ((==_iff v w).0 y) ∙ ap in_flight h

  pub posts-Account :
      (c : ℕ)
      → Account
          (es ++ posted c ∷ [])
          (record p { loop = record p.loop { tasks = p.loop.tasks ++ c ∷ [] } })
  posts-Account c = record {
    queue = advance posted_in taken_in es (posted c) _ _ a.queue refl;
    sendings = λ w b. idle_sendings (posted c) w refl refl b;
    callings = λ w. idle_callings (posted c) w refl refl;
    ids = a.ids;
  }

  -- An event of none of the collected kinds.
  pub idle-Account :
      (e : Event)
      → posted_in e ≡ []
      → taken_in e ≡ []
      → sent_in e ≡ []
      → ((w : ℕ) → received_by w e ≡ [])
      → ((w : ℕ) → taken_by w e ≡ [])
      → ((w : ℕ) → called_by w e ≡ [])
      → Account (es ++ e ∷ []) p
  idle-Account e h1 h2 h3 h4 h5 h6 = record {
    queue = idle_queue e _ h1 h2 refl;
    sendings = λ w b. idle_sendings e w h3 (h4 w) b;
    callings = λ w. idle_callings e w (h5 w) (h6 w);
    ids = a.ids;
  }

  pub sends-Account :
      (c : ℕ)
      → Account (es ++ sent c ∷ []) (record p { loop = post_task_to_all_workers (some c) p.loop })
  unfolding post_task_to_all_workers
  sends-Account c = record {
    queue = idle_queue (sent c) _ refl refl refl;
    sendings = λ w b. advance sent_in (received_by w) es (sent c) _ _ (a.sendings w b) (
        sym (
          ap (λ ids. or_empty (emplace_each c ids p.loop.thread_tasks w)) a.ids
          ∙ emplace_lem c 0 p.loop.worker_count w p.loop.thread_tasks (omega arith)
              (omega (arith, b))));
    callings = λ w. idle_callings (sent c) w refl refl;
    ids = a.ids;
  }

  pub terminates-Account : Account (es ++ terminated ∷ []) (record p { loop = terminate p.loop })
  unfolding terminate
  terminates-Account = record {
    queue = idle_queue terminated _ refl refl refl;
    sendings = λ w b. idle_sendings terminated w refl refl b;
    callings = λ w. idle_callings terminated w refl refl;
    ids = a.ids;
  }

  module _ (w : ℕ) (h : p.workers w ≡ waiting) where
    abbrev task : Closure
    task = front p.loop.tasks

    abbrev cs : List ℕ
    cs = or_empty (p.loop.thread_tasks w)

    pub takes-Account : Account (es ++ took w task cs ∷ []) (record p {
      loop = left w p.loop;
      workers = set_at w (running (with_task task cs) p.loop.shutdown) p.workers;
    })
    takes-Account = record {
      queue =
          advance posted_in taken_in es (took w task cs) _ _ a.queue
            (append-nil p.loop.tasks ∙ front-rest_of p.loop.tasks);
      sendings = λ v b. advance sent_in (received_by v) es (took w task cs) _ _ (a.sendings v b) (
          append-nil _ ∙ (elim (Bool-cases (v == w)) [
            | inl y ↦
                rw (left-kept w v p.loop, y)
                  (ap (λ x. or_empty (p.loop.thread_tasks x)) ((==_iff v w).0 y)
                    ∙ sym (append-nil cs))
            | inr n ↦ rw (left-kept w v p.loop, n)
          ]));
      callings = λ v.
          advance (taken_by v) (called_by v) es (took w task cs) _ _ (a.callings v)
            (elim (Bool-cases (v == w)) [
              | inl y ↦ rw y (ap (λ xs. xs ++ with_task task cs) (at_worker v w waiting y h))
              | inr n ↦ rw n (append-nil _)
            ]);
      ids = a.ids;
    }

  module _ (w : ℕ) (stop : Bool) where
    pub calls-Account :
        (c : ℕ) (cs : List ℕ)
        → p.workers w ≡ running (c ∷ cs) stop
        → Account
            (es ++ called w c ∷ [])
            (record p { workers = set_at w (running cs stop) p.workers })
    calls-Account c cs h = record {
      queue = idle_queue (called w c) _ refl refl refl;
      sendings = λ v b. idle_sendings (called w c) v refl refl b;
      callings = λ v. advance (taken_by v) (called_by v) es (called w c) _ _ (a.callings v) (
          append-nil _ ∙ (elim (Bool-cases (v == w)) [
            | inl y ↦ rw y (at_worker v w (running (c ∷ cs) stop) y h)
            | inr n ↦ rw n
          ]));
      ids = a.ids;
    }

    pub turns-Account :
        p.workers w ≡ running [] stop
        → Account
            (es ++ turned w ∷ [])
            (record p { workers = set_at w (after_turn stop) p.workers })
    turns-Account h = record {
      queue = idle_queue (turned w) _ refl refl refl;
      sendings = λ v b. idle_sendings (turned w) v refl refl b;
      callings = λ v. advance (taken_by v) (called_by v) es (turned w) _ _ (a.callings v) (
          append-nil _ ∙ (elim (Bool-cases (v == w)) [
            | inl y ↦ rw y (at_worker v w (running [] stop) y h ∙ none_after stop)
            | inr n ↦ rw n
          ]));
      ids = a.ids;
    }
