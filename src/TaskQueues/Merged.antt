-- ===== src/TaskQueues/Merged.antt =====
-- The map that `Merge` leaves, and that it is consistent.
use mathlib.Core.Path.{subst}
use environment_check.Prelude.{
  ℕ, ◌≡◌, ◌≢◌, refl, sym, ap, ◌∙◌, some, true, false, [], ◌==◌, contains, Bool-cases, ==_iff, inl,
  inr, arith,
}
use environment_check.TaskQueues.Entries.{
  Entries, TaskQueueEntry, update, insert, is_subsumed, unmerged,
}
use environment_check.TaskQueues.Sets.{contains-insert, insert-IsAscending}
use environment_check.TaskQueues.Consistent.{
  IsConsistent, IsSound, IsOwnedBy, IsOwnerOf, free_not_owned,
}
use environment_check.TaskQueues.Links.{update-cases, update_self}

abbrev pub with_owned : ℕ → TaskQueueEntry → TaskQueueEntry
with_owned subsumed o = record o { owner_of = insert subsumed o.owner_of }

abbrev pub merged : Entries → ℕ → ℕ → TaskQueueEntry → TaskQueueEntry → Entries
merged m owner subsumed o e =
    update (update m owner (some (with_owned subsumed o))) subsumed
      (some (record e { subsumed_by = owner }))

module _ {m : Entries} (v : IsConsistent m) (owner subsumed : ℕ) (o e : TaskQueueEntry)
    (ho : m owner ≡ some o) (he : m subsumed ≡ some e) (ne : (owner == subsumed) ≡ false)
    (free_o : is_subsumed o ≡ false) (free_e : is_subsumed e ≡ false)
    (alone : e.owner_of ≡ []) where
  abbrev M : Entries
  M = merged m owner subsumed o e

  at_owner : M owner ≡ some (with_owned subsumed o)
  at_owner = rw ne (update_self m owner _)

  at_subsumed : M subsumed ≡ some (record e { subsumed_by = owner })
  at_subsumed = update_self (update m owner (some (with_owned subsumed o))) subsumed _

  at_other : (x : ℕ) → (x == owner) ≡ false → (x == subsumed) ≡ false → M x ≡ m x
  at_other x n n' = rw (n', n)

  -- What a queue owned before, it owns still.
  owned_still : (p x : ℕ) → p ≢ unmerged → IsOwnedBy m p x → IsOwnedBy M p x
  owned_still p x u w =
      let (k, hk, by) = w in
      (k, at_other x (free_not_owned m o ho free_o u w) (free_not_owned m e he free_e u w) ∙ hk, by)

  IsOwnedBy-owner : (x : ℕ) → contains x (insert subsumed o.owner_of) ≡ true → IsOwnedBy M owner x
  IsOwnedBy-owner x c = elim (Bool-cases (x == subsumed)) [
    | inl y ↦ (record e { subsumed_by = owner }, ap M ((==_iff x subsumed).0 y) ∙ at_subsumed, refl)
    | inr n ↦
        let s = v.at owner o ho in
        owned_still owner x s.mergeable
          (s.owned x (ground (arith, contains-insert x subsumed o.owner_of)))
  ]

  owner_still :
      (p : ℕ) (g : TaskQueueEntry) → IsOwnerOf m g.subsumed_by p → IsOwnerOf M g.subsumed_by p
  owner_still p g (k, hk, c) = elim (Bool-cases (g.subsumed_by == subsumed)) [
    | inl y ↦
        let k≡e : k ≡ e = cc (ap m ((==_iff g.subsumed_by subsumed).0 y)) in
        cc (ap (λ (k : TaskQueueEntry). contains p k.owner_of) k≡e, ap (contains p) alone)
    | inr n ↦ elim (Bool-cases (g.subsumed_by == owner)) [
      | inl y ↦
          let k≡o : k ≡ o = cc (ap m ((==_iff g.subsumed_by owner).0 y)) in
          (
            with_owned subsumed o,
            ap M ((==_iff g.subsumed_by owner).0 y) ∙ at_owner,
            ground (
              arith,
              contains-insert p subsumed o.owner_of,
              ap (λ (k : TaskQueueEntry). contains p k.owner_of) k≡o,
            ),
          )
      | inr n' ↦ (k, at_other g.subsumed_by n' n ∙ hk, c)
    ]
  ]

  sound_owner : IsSound M owner (with_owned subsumed o)
  sound_owner =
      let s = v.at owner o ho in
      record {
        source = s.source;
        source_id = s.source_id;
        mergeable = s.mergeable;
        distinct = insert-IsAscending subsumed o.owner_of s.distinct;
        owned = IsOwnedBy-owner;
        owner = λ c. cc;
        exclusive = λ c. cc;
      }

  sound_subsumed : IsSound M subsumed (record e { subsumed_by = owner })
  sound_subsumed =
      let s = v.at subsumed e he in
      record {
        source = s.source;
        source_id = s.source_id;
        mergeable = s.mergeable;
        distinct = s.distinct;
        owned = λ x c. cc (ap (contains x) alone);
        owner = λ c. (
          with_owned subsumed o,
          at_owner,
          ground (arith, contains-insert subsumed subsumed o.owner_of),
        );
        exclusive = λ c. alone;
      }

  sound_other : (p : ℕ) (g : TaskQueueEntry) → IsSound m p g → IsSound M p g
  sound_other p g s = record {
    source = s.source;
    source_id = s.source_id;
    mergeable = s.mergeable;
    distinct = s.distinct;
    owned = λ x c. owned_still p x s.mergeable (s.owned x c);
    owner = λ c. owner_still p g (s.owner c);
    exclusive = s.exclusive;
  }

  pub merged-IsConsistent : IsConsistent M
  merged-IsConsistent = record {
    at = λ p g hg.
        elim (update-cases (update m owner (some (with_owned subsumed o))) subsumed _ p g hg) [
          | inl (y, e≡g) ↦
              subst (λ p. IsSound M p g) (sym y) (subst (IsSound M subsumed) e≡g sound_subsumed)
          | inr (n, hp) ↦ elim (update-cases m owner _ p g hp) [
            | inl (y, o≡g) ↦
                subst (λ p. IsSound M p g) (sym y) (subst (IsSound M owner) o≡g sound_owner)
            | inr (n', hm) ↦ sound_other p g (v.at p g hm)
          ]
        ];
  }
