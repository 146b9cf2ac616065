-- ===== src/TaskQueues/Offered.antt =====
-- How the tasks on offer change when one source changes.
use mathlib.Core.List.{append_assoc, perm_append_comm}
use mathlib.Core.List.Perm
use mathlib.Core.Path.{subst}
use environment_check.Prelude.{
  ℕ, ◌<◌, ◌≡◌, refl, sym, ap, not, ◌∙◌, some, true, false, List, [], ◌∷◌, ◌++◌, Perm, All, ◌==◌,
  contains, Bool-cases, ==_iff, inl, inr, arith,
}
use environment_check.DelayedTask.{DelayedTask}
use environment_check.TaskSource.{eligible}
use environment_check.TaskQueues.Entries.{Entries, TaskQueueEntry, update, is_subsumed, unmerged}
use environment_check.TaskQueues.Consistent.{
  IsConsistent, IsAscending, IsLive, offered, offered_by, offered_by-cons, offered-free,
  owned-IsLive, free_not_owned,
}
use environment_check.TaskQueues.Links.{update_self, update_ne, HasLinksOf}

-- No id that lies above `x` is `x`.
above_not_contains : (x : ℕ) (xs : List ℕ) → All (λ y. x < y) xs → contains x xs ≡ false
above_not_contains x [] h = refl
above_not_contains x (y ∷ xs) h = ground (arith, above_not_contains x xs h.1)

-- `xs` with `a` in front holds what `ys` with `b` in front holds.
abbrev pub Shift :
    List DelayedTask → List DelayedTask → List DelayedTask → List DelayedTask → Type 0
Shift a b xs ys = Perm (a ++ xs) (b ++ ys)

-- A shift of one part of a list is one of the list.
Shift-left : (a b xs ys zs : List DelayedTask) → Shift a b xs ys → Shift a b (xs ++ zs) (ys ++ zs)
Shift-left a b xs ys zs h =
    rw (← append_assoc a xs zs, ← append_assoc b ys zs) (Perm.append_right zs h)

Shift-right : (a b xs ys zs : List DelayedTask) → Shift a b xs ys → Shift a b (zs ++ xs) (zs ++ ys)
Shift-right a b xs ys zs h =
    Perm.trans (rotate a xs zs) (Perm.trans (Perm.append_left zs h) (Perm.symm (rotate b ys zs)))
  where
    rotate : (a xs zs : List DelayedTask) → Perm (a ++ (zs ++ xs)) (zs ++ (a ++ xs))
    rotate a xs zs =
        rw (← append_assoc a zs xs, ← append_assoc zs a xs)
          (Perm.append_right xs (perm_append_comm a zs))

-- A queue that is not subsumed does not own itself.
not_own_owner :
    {m : Entries} (x : ℕ) (e : TaskQueueEntry)
    → IsConsistent m
    → m x ≡ some e
    → is_subsumed e ≡ false
    → contains x e.owner_of ≡ false
not_own_owner {m} x e v h free = elim (Bool-cases (contains x e.owner_of)) [
  | inl c ↦
      let s = v.at x e h in
      cc (free_not_owned m e h free s.mergeable (s.owned x c), (==_iff x x).1 refl)
  | inr c ↦ c
]

module _ (m : Entries) (x : ℕ) (e f : TaskQueueEntry) (h : m x ≡ some e) where
  abbrev N : Entries
  N = update m x (some f)

  untouched :
      (xs : List ℕ) → contains x xs ≡ false → All (IsLive m) xs → offered_by N xs ≡ offered_by m xs
  untouched [] c live = unfold offered_by in refl
  untouched (y ∷ xs) c ((g, hg, _, _), live) =
      let n : (y == x) ≡ false = ground arith in
      let c' : contains x xs ≡ false = ground arith in
      rw (
        offered_by-cons m xs hg,
        offered_by-cons N xs (update_ne m x (some f) y n ∙ hg),
        untouched xs c' live,
      )

  module _ (a b : List DelayedTask)
      (shift : Shift a b (eligible f.task_source) (eligible e.task_source)) where
    touched :
        (xs : List ℕ)
        → contains x xs ≡ true
        → IsAscending xs
        → All (IsLive m) xs
        → Shift a b (offered_by N xs) (offered_by m xs)
    touched [] c up live = cc
    touched (y ∷ xs) c up ((g, hg, _, _), live) = elim (Bool-cases (x == y)) [
      | inl eq ↦
          let x≡y = (==_iff x y).0 eq in
          let g≡e : g ≡ e = cc (ap m x≡y) in
          let c' = above_not_contains x xs (subst (λ z. All (λ w. z < w) xs) (sym x≡y) up.0) in
          rw
            (
              offered_by-cons N xs (ap N (sym x≡y) ∙ update_self m x (some f)),
              offered_by-cons m xs hg,
              untouched xs c' live,
              g≡e,
            )
            (Shift-left a b _ _ (offered_by m xs) shift)
      | inr n ↦
          let n' : (y == x) ≡ false = ground arith in
          let c' : contains x xs ≡ true = ground arith in
          rw (offered_by-cons N xs (update_ne m x (some f) y n' ∙ hg), offered_by-cons m xs hg)
            (Shift-right a b _ _ (eligible g.task_source) (touched xs c' up.1 live))
    ]

    module _ (v : IsConsistent m) (links : HasLinksOf e f) where
      -- A change of a queue's own source is a change of what it offers.
      pub offered_own : is_subsumed e ≡ false → Shift a b (offered N x) (offered m x)
      offered_own free =
          let free' : is_subsumed f ≡ false =
            ap (λ w. not (w == unmerged)) links.same_owner ∙ free in
          let s = v.at x e h in
          let c = not_own_owner x e v h free in
          let now : offered N x ≡ eligible f.task_source ++ offered_by m e.owner_of =
            offered-free N x f (update_self m x (some f)) free'
            ∙ ap (λ l. eligible f.task_source ++ offered_by N l) links.same_owned
            ∙ ap (◌++◌ (eligible f.task_source)) (untouched e.owner_of c (owned-IsLive v s)) in
          rw (now, offered-free m x e h free) (Shift-left a b _ _ (offered_by m e.owner_of) shift)

      -- So is, for its owner, a change of a subsumed queue's source.
      pub offered_owned :
          (q : ℕ) (o : TaskQueueEntry)
          → m q ≡ some o
          → is_subsumed o ≡ false
          → contains x o.owner_of ≡ true
          → Shift a b (offered N q) (offered m q)
      offered_owned q o hq free c =
          let s = v.at q o hq in
          let n' = free_not_owned m o hq free s.mergeable (s.owned x c) in
          let n : (q == x) ≡ false = ground arith in
          rw (offered-free N q o (update_ne m x (some f) q n ∙ hq) free, offered-free m q o hq free)
            (Shift-right a b _ _ (eligible o.task_source)
              (touched o.owner_of c s.distinct (owned-IsLive v s)))
