-- ===== src/TaskQueues/Links.antt =====
-- Changes of the map of entries that leave the links between queues alone, and new entries.
use environment_check.Prelude.{
  ℕ, ◌≡◌, ◌≢◌, refl, sym, ap, ◌∙◌, Option, none, some, false, ◌⊎◌, ◌==◌, contains, Bool-cases,
  ==_iff, inl, inr, arith,
}
use mathlib.Core.Path.{subst}
use environment_check.TaskSource.Contents.{IsValid, new_source-IsValid}
use environment_check.TaskQueues.Entries.{Entries, TaskQueueEntry, new_entry, update, unmerged}
use environment_check.TaskQueues.Consistent.{IsAscending, IsConsistent, IsSound}

module _ (m : Entries) (q : ℕ) (e : Option TaskQueueEntry) where
  pub update_self : update m q e q ≡ e
  update_self = ground arith

  pub update_ne : (j : ℕ) → (j == q) ≡ false → update m q e j ≡ m j
  update_ne j n = rw n

pub update-cases :
    (m : Entries) (q : ℕ) (e : TaskQueueEntry) (p : ℕ) (f : TaskQueueEntry)
    → update m q (some e) p ≡ some f
    → ((p ≡ q) × (e ≡ f)) ⊎ (((p == q) ≡ false) × (m p ≡ some f))
update-cases m q e p f h = elim (Bool-cases (p == q)) [
  | inl y ↦ inl ((==_iff p q).0 y, ground arith)
  | inr n ↦ inr (n, rw n at h)
]

-- `e` may stand for `f` in the links.
pub record HasLinksOf (e f : TaskQueueEntry) : Type 0 where
  pub same_owned : f.owner_of ≡ e.owner_of
  pub same_owner : f.subsumed_by ≡ e.subsumed_by

-- Whatever stands in `m` stands in `n` with the same links.
abbrev pub KeepsLinks : Entries → Entries → Type 0
KeepsLinks m n =
    (x : ℕ) (e : TaskQueueEntry)
    → m x ≡ some e
    → (f : TaskQueueEntry) × (n x ≡ some f) × HasLinksOf e f

IsSound-keeps :
    (m n : Entries) (q : ℕ) (e f : TaskQueueEntry)
    → KeepsLinks m n
    → HasLinksOf e f
    → IsValid f.task_source
    → f.task_source.task_queue_id ≡ q
    → IsSound m q e
    → IsSound n q f
IsSound-keeps m n q e f keep same v i s = record {
  source = v;
  source_id = i;
  mergeable = s.mergeable;
  distinct = subst IsAscending (sym same.same_owned) s.distinct;
  owned = λ x c.
      let (g, h, by) = s.owned x (ap (contains x) (sym same.same_owned) ∙ c) in
      let (g', h', links) = keep x g h in (g', h', links.same_owner ∙ by);
  owner = λ c.
      let (o, h, c') = s.owner (ground arith) in
      let (o', h', links) = keep e.subsumed_by o h in
      (o', ap n same.same_owner ∙ h', ap (contains q) links.same_owned ∙ c');
  exclusive = λ c. same.same_owned ∙ s.exclusive (ground arith);
}

module _ {m : Entries} (v : IsConsistent m) (q : ℕ) (e f : TaskQueueEntry) (h : m q ≡ some e)
    (same : HasLinksOf e f) where
  pub update-KeepsLinks : KeepsLinks m (update m q (some f))
  update-KeepsLinks x g hx = elim (Bool-cases (x == q)) [
    | inl y ↦
        let g≡e : g ≡ e = cc (ap m ((==_iff x q).0 y)) in
        (f, rw y, subst (λ g. HasLinksOf g f) (sym g≡e) same)
    | inr n ↦ (g, rw n hx, record { same_owned = refl; same_owner = refl })
  ]

  -- A new source, other observers or another wakeable keep the map consistent.
  pub update-IsConsistent :
      IsValid f.task_source → f.task_source.task_queue_id ≡ q → IsConsistent (update m q (some f))
  update-IsConsistent valid i = record {
    at = λ p g hg. elim (update-cases m q f p g hg) [
      | inl (y, f≡g) ↦
          subst (λ p. IsSound (update m q (some f)) p g) (sym y)
            (subst (IsSound (update m q (some f)) q) f≡g
              (IsSound-keeps m _ q e f update-KeepsLinks same valid i (v.at q e h)))
      | inr (n, hp) ↦
          let s = v.at p g hp in
          IsSound-keeps m _ p g g update-KeepsLinks
            (record { same_owned = refl; same_owner = refl }) s.source s.source_id s
    ];
  }

-- A fresh id keeps the map consistent.
pub create-IsConsistent :
    {m : Entries} (q : ℕ)
    → IsConsistent m
    → m q ≡ none
    → q ≢ unmerged
    → IsConsistent (update m q (some (new_entry q)))
create-IsConsistent {m} q v free u = record {
  at = λ p g hg. elim (update-cases m q (new_entry q) p g hg) [
    | inl (y, new≡g) ↦
        subst (λ p. IsSound (update m q (some (new_entry q))) p g) (sym y)
          (subst (IsSound (update m q (some (new_entry q))) q) new≡g (record {
            source = new_source-IsValid q;
            source_id = refl;
            mergeable = u;
            distinct = tt;
            owned = λ x c. cc;
            owner = λ c. cc;
            exclusive = λ c. refl;
          }))
    | inr (n, hp) ↦
        let s = v.at p g hp in
        IsSound-keeps m _ p g g keep (record { same_owned = refl; same_owner = refl }) s.source
          s.source_id s
  ];
}
  where
    keep : KeepsLinks m (update m q (some (new_entry q)))
    keep x g hx = elim (Bool-cases (x == q)) [
      | inl y ↦ cc (sym hx ∙ ap m ((==_iff x q).0 y) ∙ free)
      | inr n ↦ (g, rw n hx, record { same_owned = refl; same_owner = refl })
    ]
