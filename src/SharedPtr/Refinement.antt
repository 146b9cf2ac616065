-- ===== src/SharedPtr/Refinement.antt =====
-- The calls of SharedPtr implement assignments of plain pointers, but for a copy assignment that
-- frees what it copies or copies nothing.
use environment_check.Prelude.{
  ℕ, ◌+◌, ◌-◌, ◌^◌, ◌<◌, ◌≡◌, refl, ap, ◌∙◌, Bool, Option, none, some, true, false, List, ltb,
  ltb→lt, length, arith,
}
use environment_check.Outcome.{Outcome, returns, fails, undefined_behaviour}
use environment_check.RefPtr.{pointer_at, set}
use environment_check.RefPtr.References.{
  hit, references, references-set, references-le-length, hit-le-references, pointer_at-set_copy,
  filled, bound,
}
use environment_check.RefPtr.Counted.{counts, gain, lose, Held, Held-pointer_at, counted_eq}
use environment_check.SharedPtr.{
  Blocks, Store, wrap_shared, copy_construct, move_construct, copy_assign, move_assign, reset,
  ref_if, ref_always, maybe_destroy,
}
use environment_check.SharedPtr.Counts.{
  ref_if_gone, live_count, blocks_with, wrap_lem, ref_if_lem, maybe_destroy_lem,
}

-- The pointers, and a block for each object that one of them points to, with their number.
abbrev pub store_of : List (Option ℕ) → Store
store_of vs = record { blocks = blocks_with (counts vs); pointers = vs }

abbrev store_at : (ℕ → ℕ) → List (Option ℕ) → Store
store_at c vs = record { blocks = blocks_with c; pointers = vs }

ends :
    (c : ℕ → ℕ) (vs : List (Option ℕ))
    → ((q : ℕ) → c q ≡ references q vs)
    → ◌≡◌ {A = Outcome (Unit {0}) × Store} (returns tt, store_at c vs) (returns tt, store_of vs)
ends c vs h =
    ap (λ g. (returns tt, record { blocks = g; pointers = vs }))
      (counted_eq live_count c (counts vs) h)

-- Whether a variable other than `i` points to the object.
abbrev pub is_held_beside : ℕ → Option ℕ → List (Option ℕ) → Bool
is_held_beside i none vs = false
is_held_beside i (some p) vs = ltb (hit (pointer_at i vs) p) (references p vs)

gone : (a b : ℕ) → ltb a b ≡ false → b - a ≡ 0
gone a b h = ground arith

module _ (vs : List (Option ℕ)) (small : length vs + 1 < 2 ^ 64) where
  in_range : (q : ℕ) → references q vs + 1 < 2 ^ 64
  in_range q = omega (arith, references-le-length q vs)

  below : (q : ℕ) → references q vs < 2 ^ 64
  below q = omega (arith, in_range q)

  destroyed :
      (i : ℕ)
      → maybe_destroy (pointer_at i vs) (blocks_with (counts vs))
        ≡ (returns tt, blocks_with (lose (pointer_at i vs) (counts vs)))
  destroyed i = maybe_destroy_lem (counts vs) (pointer_at i vs) (Held-pointer_at i vs) below

  pub wraps_lem :
      (i p : ℕ)
      → i < length vs
      → pointer_at i vs ≡ none
      → references p vs ≡ 0
      → wrap_shared i p (store_of vs) ≡ (returns tt, store_of (set i (some p) vs))
  unfolding wrap_shared
  wraps_lem i p h e k =
      ap (λ g. (returns tt, record { blocks = g; pointers = set i (some p) vs }))
        (wrap_lem (counts vs) p k)
      ∙ ends (gain (some p) (counts vs)) (set i (some p) vs) (filled vs i (some p) h e)

  pub copies_lem :
      (i r : ℕ)
      → i < length vs
      → pointer_at i vs ≡ none
      → copy_construct i r (store_of vs) ≡ (returns tt, store_of (set i (pointer_at r vs) vs))
  unfolding copy_construct
  copies_lem i r h e =
      rw (ref_if_lem (counts vs) (pointer_at r vs) (Held-pointer_at r vs) in_range) (
        ends (gain (pointer_at r vs) (counts vs)) (set i (pointer_at r vs) vs)
          (filled vs i (pointer_at r vs) h e))

  pub resets_lem :
      (i : ℕ) → i < length vs → reset i (store_of vs) ≡ (returns tt, store_of (set i none vs))
  unfolding reset
  resets_lem i h = rw (destroyed i) (
      ends (lose (pointer_at i vs) (counts vs)) (set i none vs)
        (λ q. omega (arith, references-set q i none vs h, hit-le-references q i vs)))

  -- The count after a move from `r` to `i`.
  moved :
      (i r q : ℕ)
      → i < length vs
      → r < length vs
      → references q (set r none (set i (pointer_at r vs) vs)) + hit (pointer_at i vs) q
        ≡ references q vs
  moved i r q h k = omega (
    arith,
    references-set q i (pointer_at r vs) vs h,
    references-set q r none (set i (pointer_at r vs) vs) (bound vs i (pointer_at r vs) r k),
    ap (λ o. hit o q) (pointer_at-set_copy i r vs),
  )

  pub moves_lem :
      (i r : ℕ)
      → i < length vs
      → r < length vs
      → pointer_at i vs ≡ none
      → move_construct i r (store_of vs)
        ≡ (returns tt, store_of (set r none (set i (pointer_at r vs) vs)))
  unfolding move_construct
  moves_lem i r h k e =
      ends (counts vs) (set r none (set i (pointer_at r vs) vs))
        (λ q. omega (arith, moved i r q h k, ap (λ o. hit o q) e))

  pub move_assigns_lem :
      (i r : ℕ)
      → i < length vs
      → r < length vs
      → move_assign i r (store_of vs)
        ≡ (returns tt, store_of (set r none (set i (pointer_at r vs) vs)))
  unfolding move_assign
  move_assigns_lem i r h k = rw (destroyed i) (
      ends (lose (pointer_at i vs) (counts vs)) (set r none (set i (pointer_at r vs) vs))
        (λ q. omega (arith, moved i r q h k)))

  still-Held :
      (i : ℕ) (v : Option ℕ)
      → is_held_beside i v vs ≡ true
      → Held v (lose (pointer_at i vs) (counts vs))
  still-Held i none h = tt
  still-Held i (some p) h = omega (arith, ltb→lt (hit (pointer_at i vs) p) (references p vs) h)

  always :
      (i : ℕ) (v : Option ℕ)
      → is_held_beside i v vs ≡ true
      → (b : Blocks) → ref_always v b ≡ ref_if v b
  unfolding ref_always
  always i none h b = cc
  always i (some p) h b = refl

  always_fails :
      (i : ℕ) (v : Option ℕ)
      → is_held_beside i v vs ≡ false
      → (ref_always v (blocks_with (lose (pointer_at i vs) (counts vs)))).0
        ≡ fails undefined_behaviour
  unfolding ref_always
  always_fails i none h = refl
  always_fails i (some p) h =
      ref_if_gone (lose (pointer_at i vs) (counts vs)) p
        (gone (hit (pointer_at i vs) p) (references p vs) h)

  pub copy_assigns_lem :
      (i r : ℕ)
      → i < length vs
      → is_held_beside i (pointer_at r vs) vs ≡ true
      → copy_assign i r (store_of vs) ≡ (returns tt, store_of (set i (pointer_at r vs) vs))
  unfolding copy_assign
  copy_assigns_lem i r h e =
      rw
        (
          destroyed i,
          always i (pointer_at r vs) e,
          ref_if_lem (lose (pointer_at i vs) (counts vs)) (pointer_at r vs)
              (still-Held i (pointer_at r vs) e) (λ q. omega (arith, in_range q)),
        )
        (ends (gain (pointer_at r vs) (lose (pointer_at i vs) (counts vs)))
          (set i (pointer_at r vs) vs)
          (λ q. omega (arith, references-set q i (pointer_at r vs) vs h, hit-le-references q i vs)))

  pub copy_assigns_fail :
      (i r : ℕ)
      → is_held_beside i (pointer_at r vs) vs ≡ false
      → (copy_assign i r (store_of vs)).0 ≡ fails undefined_behaviour
  unfolding copy_assign
  copy_assigns_fail i r e = rw (destroyed i) (always_fails i (pointer_at r vs) e)
