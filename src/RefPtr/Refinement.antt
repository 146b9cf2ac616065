-- ===== src/RefPtr/Refinement.antt =====
-- The calls implement assignments of plain pointers, with an object exactly where one refers to it.
use environment_check.Prelude.{
  ℕ, ◌+◌, ◌^◌, ◌<◌, ◌≡◌, refl, sym, ap, ◌∙◌, inl, inr, ==_iff, Option, none, some, true, List,
  length, arith, Bool-cases,
}
use environment_check.Outcome.{Outcome, returns}
use environment_check.RefPtr.{
  Store, pointer_at, set, same_pointer, construct, copy_construct, move_construct, destroy, clear,
  copy_assign, move_assign, swap, adopt_ref, make_ref_counted,
}
use environment_check.RefPtr.References.{
  hit, hit_le, references, references-set, references-le-length, hit-le-references,
  pointer_at-set_copy, set-pointer_at, filled, bound, kept,
}
use environment_check.RefPtr.Counted.{
  counts, gain, lose, Held, Held-of_hit, Held-pointer_at, counted_eq,
}
use environment_check.RefPtr.Heaps.{
  heap_with, live_object, add_ref_to_lem, release_of_lem, adopted_lem,
}

-- The pointers, and a heap in which each object counts the pointers to it and no other object is.
abbrev pub store_of : List (Option ℕ) → Store
store_of vs = record { heap = heap_with (counts vs); pointers = vs }

abbrev store_at : (ℕ → ℕ) → List (Option ℕ) → Store
store_at c vs = record { heap = heap_with c; pointers = vs }

-- The outcome of a call, once the counts are those of the pointers that it leaves.
ends :
    (c : ℕ → ℕ) (vs : List (Option ℕ))
    → ((q : ℕ) → c q ≡ references q vs)
    → ◌≡◌ {A = Outcome (Unit {0}) × Store} (returns tt, store_at c vs) (returns tt, store_of vs)
ends c vs h =
    ap (λ g. (returns tt, record { heap = g; pointers = vs }))
      (counted_eq live_object c (counts vs) h)

same_pointer→eq : (v w : Option ℕ) → same_pointer v w ≡ true → v ≡ w
same_pointer→eq none none h = refl
same_pointer→eq none (some q) h = cc
same_pointer→eq (some p) none h = cc
same_pointer→eq (some p) (some q) h = ap some ((==_iff p q).0 h)

module _ (vs : List (Option ℕ)) (small : length vs + 1 < 2 ^ 64) where
  in_range : (q : ℕ) → references q vs + 1 < 2 ^ 64
  in_range q = omega (arith, references-le-length q vs)

  below : (q : ℕ) → references q vs < 2 ^ 64
  below q = omega (arith, in_range q)

  pub makes_lem :
      (i p : ℕ)
      → i < length vs
      → pointer_at i vs ≡ none
      → references p vs ≡ 0
      → make_ref_counted i p (store_of vs) ≡ (returns tt, store_of (set i (some p) vs))
  unfolding make_ref_counted adopt_ref
  makes_lem i p h e k =
      rw (adopted_lem (counts vs) p k)
        (ends (gain (some p) (counts vs)) (set i (some p) vs) (filled vs i (some p) h e))

  pub constructs_lem :
      (i p : ℕ)
      → i < length vs
      → pointer_at i vs ≡ none
      → 0 < references p vs
      → construct i (some p) (store_of vs) ≡ (returns tt, store_of (set i (some p) vs))
  unfolding construct
  constructs_lem i p h e k =
      rw (add_ref_to_lem (some p) (counts vs) k in_range)
        (ends (gain (some p) (counts vs)) (set i (some p) vs) (filled vs i (some p) h e))

  pub copies_lem :
      (i r : ℕ)
      → i < length vs
      → pointer_at i vs ≡ none
      → copy_construct i r (store_of vs) ≡ (returns tt, store_of (set i (pointer_at r vs) vs))
  unfolding copy_construct
  copies_lem i r h e =
      rw (add_ref_to_lem (pointer_at r vs) (counts vs) (Held-pointer_at r vs) in_range) (
        ends (gain (pointer_at r vs) (counts vs)) (set i (pointer_at r vs) vs)
          (filled vs i (pointer_at r vs) h e))

  pub destroys_lem :
      (i : ℕ) → i < length vs → destroy i (store_of vs) ≡ (returns tt, store_of (set i none vs))
  unfolding destroy
  destroys_lem i h =
      rw (release_of_lem (pointer_at i vs) (counts vs) (Held-pointer_at i vs) below) (
        ends (lose (pointer_at i vs) (counts vs)) (set i none vs)
          (λ q. omega (arith, references-set q i none vs h, hit-le-references q i vs)))

  pub clears_lem :
      (i : ℕ) → i < length vs → clear i (store_of vs) ≡ (returns tt, store_of (set i none vs))
  unfolding clear
  clears_lem i h = rw (release_of_lem (pointer_at i vs) (counts vs) (Held-pointer_at i vs) below) (
      ends (lose (pointer_at i vs) (counts vs)) (set i none vs)
        (λ q. omega (arith, references-set q i none vs h, hit-le-references q i vs)))

  pub moves_lem :
      (i r : ℕ)
      → i < length vs
      → r < length vs
      → pointer_at i vs ≡ none
      → move_construct i r (store_of vs)
        ≡ (returns tt, store_of (set r none (set i (pointer_at r vs) vs)))
  unfolding move_construct
  moves_lem i r h k e = ends (counts vs) (set r none (set i (pointer_at r vs) vs)) (λ q. omega (
    arith,
    references-set q i (pointer_at r vs) vs h,
    references-set q r none (set i (pointer_at r vs) vs) (bound vs i (pointer_at r vs) r k),
    ap (λ o. hit o q) (pointer_at-set_copy i r vs),
    hit-le-references q i vs,
    ap (λ o. hit o q) e,
  ))

  pub swaps_lem :
      (i r : ℕ)
      → i < length vs
      → r < length vs
      → swap i r (store_of vs)
        ≡ (returns tt, store_of (set r (pointer_at i vs) (set i (pointer_at r vs) vs)))
  unfolding swap
  swaps_lem i r h k = ends (counts vs) (set r (pointer_at i vs) (set i (pointer_at r vs) vs)) (λ q.
      omega (
        arith,
        references-set q i (pointer_at r vs) vs h,
        references-set q r (pointer_at i vs) (set i (pointer_at r vs) vs)
            (bound vs i (pointer_at r vs) r k),
        ap (λ o. hit o q) (pointer_at-set_copy i r vs),
        hit-le-references q i vs,
        k,
      ))

  pub move_assigns_lem :
      (i r : ℕ)
      → i < length vs
      → r < length vs
      → move_assign i r (store_of vs)
        ≡ (returns tt, store_of (set i (pointer_at r vs) (set r none vs)))
  unfolding move_assign
  move_assigns_lem i r h k =
      rw
        (release_of_lem (pointer_at i (set r none vs)) (counts vs)
          (Held-of_hit (pointer_at i (set r none vs)) (counts vs) (kept vs i r k)) below)
        (ends (lose (pointer_at i (set r none vs)) (counts vs))
          (set i (pointer_at r vs) (set r none vs))
          (λ q. omega (
            arith,
            kept vs i r k q,
            references-set q r none vs k,
            references-set q i (pointer_at r vs) (set r none vs) (bound vs r none i h),
          )))

  same :
      (i r : ℕ)
      → same_pointer (pointer_at r vs) (pointer_at i vs) ≡ true
      → set i (pointer_at r vs) vs ≡ vs
  same i r e =
      ap (λ v. set i v vs) (same_pointer→eq (pointer_at r vs) (pointer_at i vs) e)
      ∙ set-pointer_at i vs

  still-Held : (i r : ℕ) → Held (pointer_at i vs) (gain (pointer_at r vs) (counts vs))
  still-Held i r =
      Held-of_hit (pointer_at i vs) (gain (pointer_at r vs) (counts vs))
        (λ q. omega (arith, hit-le-references q i vs))

  below_two : (r q : ℕ) → gain (pointer_at r vs) (counts vs) q < 2 ^ 64
  below_two r q = omega (arith, in_range q, hit_le (pointer_at r vs) q)

  pub copy_assigns_lem :
      (i r : ℕ)
      → i < length vs
      → copy_assign i r (store_of vs) ≡ (returns tt, store_of (set i (pointer_at r vs) vs))
  unfolding copy_assign
  copy_assigns_lem i r h = elim (Bool-cases (same_pointer (pointer_at r vs) (pointer_at i vs))) [
    | inl e ↦ rw e (ap (λ ws. (returns tt, store_of ws)) (sym (same i r e)))
    | inr e ↦ rw e (
        rw (add_ref_to_lem (pointer_at r vs) (counts vs) (Held-pointer_at r vs) in_range) (
          rw
            (release_of_lem (pointer_at i vs) (gain (pointer_at r vs) (counts vs)) (still-Held i r)
              (below_two r))
            (ends (lose (pointer_at i vs) (gain (pointer_at r vs) (counts vs)))
              (set i (pointer_at r vs) vs)
              (λ q.
                omega
                  (arith, references-set q i (pointer_at r vs) vs h, hit-le-references q i vs)))))
  ]
