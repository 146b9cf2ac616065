-- ===== src/TaskQueues/Unmerged.antt =====
-- The map that `Unmerge` leaves, and that it is consistent.
use mathlib.Core.Path.{subst}
use environment_check.Prelude.{
  ℕ, ◌≡◌, ◌≢◌, sym, ap, ◌∙◌, some, true, false, [], ◌==◌, contains, Bool-cases, ==_iff, inl, inr,
  arith,
}
use environment_check.TaskQueues.Entries.{
  Entries, TaskQueueEntry, update, erase, is_subsumed, unmerged,
}
use environment_check.TaskQueues.Sets.{contains-erase, erase-IsAscending}
use environment_check.TaskQueues.Consistent.{
  IsConsistent, IsSound, IsOwnedBy, IsOwnerOf, free_not_owned,
}
use environment_check.TaskQueues.Links.{update-cases, update_self}

abbrev pub without_owned : ℕ → TaskQueueEntry → TaskQueueEntry
without_owned subsumed o = record o { owner_of = erase subsumed o.owner_of }

abbrev pub freed : TaskQueueEntry → TaskQueueEntry
freed e = record e { subsumed_by = unmerged }

abbrev pub split : Entries → ℕ → ℕ → TaskQueueEntry → TaskQueueEntry → Entries
split m owner subsumed o e =
    update (update m subsumed (some (freed e))) owner (some (without_owned subsumed o))

module _ {m : Entries} (v : IsConsistent m) (owner subsumed : ℕ) (o e : TaskQueueEntry)
    (ho : m owner ≡ some o) (he : m subsumed ≡ some e) (free_o : is_subsumed o ≡ false)
    (owns : contains subsumed o.owner_of ≡ true) where
  abbrev M : Entries
  M = split m owner subsumed o e

  by_owner : e.subsumed_by ≡ owner
  by_owner =
      let (k, hk, by) = (v.at owner o ho).owned subsumed owns in
      let e≡k : e ≡ k = cc (he, hk) in ap (λ (k : TaskQueueEntry). k.subsumed_by) e≡k ∙ by

  pub was_subsumed : is_subsumed e ≡ true
  was_subsumed = ground (arith, (v.at owner o ho).mergeable, by_owner)

  pub alone : e.owner_of ≡ []
  alone = (v.at subsumed e he).exclusive was_subsumed

  pub distinct_queues : (subsumed == owner) ≡ false
  distinct_queues = free_not_owned m o ho free_o (v.at owner o ho).mergeable (e, he, by_owner)

  at_owner : M owner ≡ some (without_owned subsumed o)
  at_owner = update_self (update m subsumed (some (freed e))) owner _

  at_subsumed : M subsumed ≡ some (freed e)
  at_subsumed = rw distinct_queues (update_self m subsumed _)

  at_other : (x : ℕ) → (x == owner) ≡ false → (x == subsumed) ≡ false → M x ≡ m x
  at_other x n n' = rw (n, n')

  -- What another queue owns, or the owner apart from the one that leaves, is owned still.
  owned_still :
      (p x : ℕ) → p ≢ unmerged → (x == subsumed) ≡ false → IsOwnedBy m p x → IsOwnedBy M p x
  owned_still p x u n w =
      let (k, hk, by) = w in (k, at_other x (free_not_owned m o ho free_o u w) n ∙ hk, by)

  not_leaving : (p x : ℕ) → (p == owner) ≡ false → IsOwnedBy m p x → (x == subsumed) ≡ false
  not_leaving p x n (k, hk, by) = elim (Bool-cases (x == subsumed)) [
    | inl y ↦
        let k≡e : k ≡ e = cc (ap m ((==_iff x subsumed).0 y)) in
        let p≡owner : p ≡ owner =
          sym by ∙ ap (λ (k : TaskQueueEntry). k.subsumed_by) k≡e ∙ by_owner in
        cc (n, (==_iff p owner).1 p≡owner)
    | inr n' ↦ n'
  ]

  owner_still :
      (p : ℕ) (g : TaskQueueEntry)
      → (p == subsumed) ≡ false
      → IsOwnerOf m g.subsumed_by p
      → IsOwnerOf M g.subsumed_by p
  owner_still p g np (k, hk, c) = elim (Bool-cases (g.subsumed_by == subsumed)) [
    | inl y ↦
        let k≡e : k ≡ e = cc (ap m ((==_iff g.subsumed_by subsumed).0 y)) in
        cc (ap (λ (k : TaskQueueEntry). contains p k.owner_of) k≡e, ap (contains p) alone)
    | inr n ↦ elim (Bool-cases (g.subsumed_by == owner)) [
      | inl y ↦
          let k≡o : k ≡ o = cc (ap m ((==_iff g.subsumed_by owner).0 y)) in
          (
            without_owned subsumed o,
            ap M ((==_iff g.subsumed_by owner).0 y) ∙ at_owner,
            ground (
              arith,
              contains-erase p subsumed o.owner_of,
              ap (λ (k : TaskQueueEntry). contains p k.owner_of) k≡o,
            ),
          )
      | inr n' ↦ (k, at_other g.subsumed_by n' n ∙ hk, c)
    ]
  ]

  sound_owner : IsSound M owner (without_owned subsumed o)
  sound_owner =
      let s = v.at owner o ho in
      record {
        source = s.source;
        source_id = s.source_id;
        mergeable = s.mergeable;
        distinct = erase-IsAscending subsumed o.owner_of s.distinct;
        owned = λ x c.
            let n : (x == subsumed) ≡ false =
              ground (arith, contains-erase x subsumed o.owner_of) in
            let c' : contains x o.owner_of ≡ true =
              ground (arith, contains-erase x subsumed o.owner_of) in
            owned_still owner x s.mergeable n (s.owned x c');
        owner = λ c. cc;
        exclusive = λ c. cc;
      }

  sound_subsumed : IsSound M subsumed (freed e)
  sound_subsumed =
      let s = v.at subsumed e he in
      record {
        source = s.source;
        source_id = s.source_id;
        mergeable = s.mergeable;
        distinct = s.distinct;
        owned = λ x c. cc (ap (contains x) alone);
        owner = λ c. cc;
        exclusive = λ c. cc;
      }

  sound_other :
      (p : ℕ) (g : TaskQueueEntry)
      → (p == owner) ≡ false
      → (p == subsumed) ≡ false
      → IsSound m p g
      → IsSound M p g
  sound_other p g n n' s = record {
    source = s.source;
    source_id = s.source_id;
    mergeable = s.mergeable;
    distinct = s.distinct;
    owned = λ x c. owned_still p x s.mergeable (not_leaving p x n (s.owned x c)) (s.owned x c);
    owner = λ c. owner_still p g n' (s.owner c);
    exclusive = s.exclusive;
  }

  pub split-IsConsistent : IsConsistent M
  split-IsConsistent = record {
    at = λ p g hg. elim (update-cases (update m subsumed (some (freed e))) owner _ p g hg) [
      | inl (y, o≡g) ↦ subst (λ p. IsSound M p g) (sym y) (subst (IsSound M owner) o≡g sound_owner)
      | inr (n, hp) ↦ elim (update-cases m subsumed _ p g hp) [
        | inl (y, e≡g) ↦
            subst (λ p. IsSound M p g) (sym y) (subst (IsSound M subsumed) e≡g sound_subsumed)
        | inr (n', hm) ↦ sound_other p g n n' (v.at p g hm)
      ]
    ];
  }
