-- ===== src/TaskQueues/Disposed.antt =====
-- The map that `Dispose` leaves: a queue is gone together with those that it owned.
use environment_check.Prelude.{
  ℕ, ◌≡◌, ◌≢◌, refl, sym, ap, ◌∙◌, none, some, true, false, List, [], ◌∷◌, ◌⊎◌, ◌==◌, ◌||◌,
  contains, Bool-cases, ==_iff, inl, inr, arith, if◌then◌else◌,
}
use environment_check.Outcome.{returns, fails, check_failed}
use environment_check.TaskQueues.Entries.{Entries, TaskQueueEntry, update, is_subsumed, unmerged}
use environment_check.TaskQueues.State.{MessageLoopTaskQueues, erase_all, dispose}
use environment_check.TaskQueues.Consistent.{IsConsistent, IsOwnedBy, IsOwnerOf, free_not_owned}

pub erase_each : List ℕ → Entries → Entries
erase_each [] m = m
erase_each (x ∷ xs) m = erase_each xs (update m x none)

pub erase_all_lem :
    (xs : List ℕ) (s : MessageLoopTaskQueues)
    → erase_all xs s ≡ (returns tt, record s { queue_entries = erase_each xs s.queue_entries })
unfolding erase_all erase_each
erase_all_lem [] s = refl
erase_all_lem (x ∷ xs) s =
    erase_all_lem xs (record s { queue_entries = update s.queue_entries x none })

erase_each_lem :
    (xs : List ℕ) (m : Entries) (p : ℕ) → erase_each xs m p ≡ (if contains p xs then none else m p)
unfolding erase_each
erase_each_lem [] m p = refl
erase_each_lem (x ∷ xs) m p = erase_each_lem xs (update m x none) p ∙ ground arith

abbrev pub disposed : Entries → ℕ → TaskQueueEntry → Entries
disposed m q e = update (erase_each e.owner_of m) q none

pub disposed_lem :
    (m : Entries) (q : ℕ) (e : TaskQueueEntry) (p : ℕ)
    → disposed m q e p ≡ (if p == q || contains p e.owner_of then none else m p)
disposed_lem m q e p = ground (arith, erase_each_lem e.owner_of m p)

module _ {m : Entries} (v : IsConsistent m) (q : ℕ) (e : TaskQueueEntry) (h : m q ≡ some e)
    (free : is_subsumed e ≡ false) where
  abbrev M : Entries
  M = disposed m q e

  -- What is neither the queue nor owned by it stays.
  stays : (p : ℕ) → (p == q) ≡ false → contains p e.owner_of ≡ false → M p ≡ m p
  stays p n c = disposed_lem m q e p ∙ rw (n, c)

  gone :
      (p : ℕ) (g : TaskQueueEntry)
      → M p ≡ some g
      → ((p == q) ≡ false) × (contains p e.owner_of ≡ false) × (m p ≡ some g)
  gone p g hg = ground (arith, disposed_lem m q e p)

  owned_still : (p x : ℕ) → p ≢ unmerged → (p == q) ≡ false → IsOwnedBy m p x → IsOwnedBy M p x
  owned_still p x u n (k, hk, by) = elim (Bool-cases (contains x e.owner_of)) [
    | inl c ↦
        let (k', hk', by') = (v.at q e h).owned x c in
        let k≡k' : k ≡ k' = cc (hk, hk') in
        cc (n, (==_iff p q).1 (sym by ∙ ap (λ (k : TaskQueueEntry). k.subsumed_by) k≡k' ∙ by'))
    | inr c ↦ (k, stays x (free_not_owned m e h free u (k, hk, by)) c ∙ hk, by)
  ]

  owner_still : (p r : ℕ) → contains p e.owner_of ≡ false → IsOwnerOf m r p → IsOwnerOf M r p
  owner_still p r n (k, hk, c) = elim (Bool-cases (r == q)) [
    | inl y ↦
        let k≡e : k ≡ e = cc (ap m ((==_iff r q).0 y)) in
        cc (ap (λ (k : TaskQueueEntry). contains p k.owner_of) k≡e)
    | inr n' ↦ elim (Bool-cases (contains r e.owner_of)) [
      | inl c' ↦
          let (k', hk', by') = (v.at q e h).owned r c' in
          let k≡k' : k ≡ k' = cc (hk, hk') in
          let sub : is_subsumed k' ≡ true = ground (arith, (v.at q e h).mergeable, by') in
          cc (
            ap (λ (k : TaskQueueEntry). contains p k.owner_of) k≡k',
            ap (contains p) ((v.at r k' hk').exclusive sub),
          )
      | inr n'' ↦ (k, stays r n' n'' ∙ hk, c)
    ]
  ]

  pub disposed-IsConsistent : IsConsistent M
  disposed-IsConsistent = record {
    at = λ p g hg.
        let (n, c, hm) = gone p g hg in
        let s = v.at p g hm in
        record {
          source = s.source;
          source_id = s.source_id;
          mergeable = s.mergeable;
          distinct = s.distinct;
          owned = λ x c'. owned_still p x s.mergeable n (s.owned x c');
          owner = λ c'. owner_still p g.subsumed_by c (s.owner c');
          exclusive = s.exclusive;
        };
  }

abbrev pub Disposes : MessageLoopTaskQueues → ℕ → TaskQueueEntry → Type 0
Disposes s q e =
    ((is_subsumed e ≡ true) × (dispose q s ≡ (fails check_failed, s)))
    ⊎ ((is_subsumed e ≡ false)
        × (s' : MessageLoopTaskQueues) × (dispose q s ≡ (returns tt, s'))
        × ((p : ℕ)
            → s'.queue_entries p
              ≡ (if p == q || contains p e.owner_of then none else s.queue_entries p))
        × IsConsistent s'.queue_entries)

-- `Dispose` of a queue that exists. If it is subsumed the check fails and nothing changes. Else it
-- returns; the queue and all that it owned are gone, every other queue is as it was, and the links
-- stay consistent.
pub dispose_outcome :
    (s : MessageLoopTaskQueues) (q : ℕ) (e : TaskQueueEntry)
    → IsConsistent s.queue_entries
    → s.queue_entries q ≡ some e
    → Disposes s q e
unfolding dispose
dispose_outcome s q e v h = elim (Bool-cases (is_subsumed e)) [
  | inl u ↦ inl (u, rw (h, u))
  | inr u ↦ inr (
    u,
    record s { queue_entries = disposed s.queue_entries q e },
    rw (h, u, erase_all_lem e.owner_of s),
    disposed_lem s.queue_entries q e,
    disposed-IsConsistent v q e h u,
  )
]
