-- ===== src/WeakPtr/Steps.antt =====
-- Each operation of a weak pointer or a factory.
use environment_check.Prelude.{
  ℕ, ◌+◌, ◌^◌, ◌<◌, ◌≡◌, refl, ap, ◌∙◌, inl, inr, Option, none, some, Bool, true, false, List,
  length, set_at, Bool-cases, is_some, arith,
}
use environment_check.Outcome.{returns}
use environment_check.Exec.{Exec}
use environment_check.RefPtr.{pointer_at, set}
use environment_check.RefPtr.References.{references, hit, hit-le-references, pointer_at-set_self}
use environment_check.RefPtr.Counted.{==_self}
use environment_check.RefPtr.Heaps.{live_object, live_pos}
use environment_check.RefPtr.Refinement.{
  store_of, makes_lem, copies_lem, moves_lem, copy_assigns_lem, move_assigns_lem, clears_lem,
  destroys_lem,
}
use environment_check.WeakPtr.{
  WeakPtrs, destroyed, invalidate, copy_construct_weak, move_construct_weak, copy_assign_weak,
  move_assign_weak, reset, destroy_weak, new_factory, destroy_factory, get_weak_ptr,
}
use environment_check.WeakPtr.Backed.{
  IsBacked, kept-IsBacked, made-IsBacked, destroyed-IsBacked, pointer_at-set_other, differs,
}

abbrev pub code_of : List (Option ℕ) → (ℕ → Bool) → (ℕ → Option ℕ) → WeakPtrs
code_of vs valid ptr = record { flags = store_of vs; is_valid = valid; ptr = ptr }

present : (n : ℕ) → 0 < n → is_some (live_object n) ≡ true
present n h = ap is_some (live_pos n h)

-- A flag that a variable has is there.
pub held :
    (vs : List (Option ℕ)) (i f : ℕ)
    → pointer_at i vs ≡ some f
    → is_some (live_object (references f vs)) ≡ true
held vs i f h =
    let one : hit (pointer_at i vs) f ≡ 1 = rw (h, ==_self f) in
    present (references f vs) (omega (arith, one, hit-le-references f i vs))

-- No check of a destructor fails.
destroyed_lem :
    (vs : List (Option ℕ)) (alive valid : ℕ → Bool) (ptr : ℕ → Option ℕ) (old : Option ℕ)
    → IsBacked vs alive valid
    → destroyed old (code_of vs valid ptr) ≡ (returns tt, code_of vs valid ptr)
destroyed_lem vs alive valid ptr none w = refl
destroyed_lem vs alive valid ptr (some f) w =
    elim (Bool-cases (is_some (live_object (references f vs)))) [
      | inl y ↦ rw y
      | inr n ↦ elim (Bool-cases (valid f)) [
        | inl v ↦ let (j, l, h) = w.backed f v in cc (held vs j f h)
        | inr v ↦ rw (n, v)
      ]
    ]

module _ (vs : List (Option ℕ)) (alive valid : ℕ → Bool) (w : IsBacked vs alive valid) where
  -- A variable that holds nothing is no living factory.
  pub empty_dead : (i : ℕ) → pointer_at i vs ≡ none → alive i ≡ false
  empty_dead i h = elim (Bool-cases (alive i)) [
    | inl y ↦ let (f, g, v) = w.holds i y in cc
    | inr n ↦ n
  ]

  written-IsBacked : (i : ℕ) (v : Option ℕ) → alive i ≡ false → IsBacked (set i v vs) alive valid
  written-IsBacked i v dead =
      kept-IsBacked w (set i v vs) (λ j l. pointer_at-set_other j i v vs (differs alive i j dead l))

  twice-IsBacked :
      (i r : ℕ) (u v : Option ℕ)
      → alive i ≡ false
      → alive r ≡ false
      → IsBacked (set r u (set i v vs)) alive valid
  twice-IsBacked i r u v dead dead' = kept-IsBacked w (set r u (set i v vs)) (λ j l.
      pointer_at-set_other j r u (set i v vs) (differs alive r j dead' l)
      ∙ pointer_at-set_other j i v vs (differs alive i j dead l))

  module _ (ptr : ℕ → Option ℕ) (small : length vs + 1 < 2 ^ 64) where
    -- What an operation leaves, with the flags that are valid.
    abbrev pub Leaves :
        Exec WeakPtrs (Unit {0})
        → List (Option ℕ)
        → (ℕ → Bool)
        → (ℕ → Bool)
        → (ℕ → Option ℕ)
        → Type 0
    Leaves m ws alive' valid' ptr' =
        (m (code_of vs valid ptr) ≡ (returns tt, code_of ws valid' ptr'))
        × IsBacked ws alive' valid'

    pub copied_lem :
        (i r : ℕ)
        → i < length vs
        → pointer_at i vs ≡ none
        → Leaves
            (copy_construct_weak i r)
            (set i (pointer_at r vs) vs)
            alive
            valid
            (set_at i (ptr r) ptr)
    unfolding copy_construct_weak
    copied_lem i r l e =
        (rw (copies_lem vs small i r l e), written-IsBacked i (pointer_at r vs) (empty_dead i e))

    pub moved_lem :
        (i r : ℕ)
        → i < length vs
        → r < length vs
        → pointer_at i vs ≡ none
        → alive r ≡ false
        → Leaves
            (move_construct_weak i r)
            (set r none (set i (pointer_at r vs) vs))
            alive
            valid
            (set_at i (ptr r) ptr)
    unfolding move_construct_weak
    moved_lem i r l k e dead = (
      rw (moves_lem vs small i r l k e),
      twice-IsBacked i r none (pointer_at r vs) (empty_dead i e) dead,
    )

    pub copy_assigned_lem :
        (i r : ℕ)
        → i < length vs
        → alive i ≡ false
        → Leaves
            (copy_assign_weak i r)
            (set i (pointer_at r vs) vs)
            alive
            valid
            (set_at i (ptr r) ptr)
    unfolding copy_assign_weak
    copy_assigned_lem i r l dead =
        let w' = written-IsBacked i (pointer_at r vs) dead in
        (
          rw (copy_assigns_lem vs small i r l) (
              destroyed_lem (set i (pointer_at r vs) vs) alive valid (set_at i (ptr r) ptr)
                (pointer_at i vs) w'),
          w',
        )

    pub move_assigned_lem :
        (i r : ℕ)
        → i < length vs
        → r < length vs
        → alive i ≡ false
        → alive r ≡ false
        → Leaves
            (move_assign_weak i r)
            (set i (pointer_at r vs) (set r none vs))
            alive
            valid
            (set_at i (ptr r) ptr)
    unfolding move_assign_weak
    move_assigned_lem i r l k dead dead' =
        let w' = twice-IsBacked r i (pointer_at r vs) none dead' dead in
        (
          rw (move_assigns_lem vs small i r l k) (
              destroyed_lem (set i (pointer_at r vs) (set r none vs)) alive valid
                (set_at i (ptr r) ptr) (pointer_at i vs) w'),
          w',
        )

    pub reset_lem :
        (i : ℕ) → i < length vs → alive i ≡ false → Leaves (reset i) (set i none vs) alive valid ptr
    unfolding reset
    reset_lem i l dead =
        let w' = written-IsBacked i none dead in
        (
          rw (clears_lem vs small i l)
              (destroyed_lem (set i none vs) alive valid ptr (pointer_at i vs) w'),
          w',
        )

    pub weak_destroyed_lem :
        (i : ℕ)
        → i < length vs
        → alive i ≡ false
        → Leaves (destroy_weak i) (set i none vs) alive valid ptr
    unfolding destroy_weak
    weak_destroyed_lem i l dead =
        let w' = written-IsBacked i none dead in
        (
          rw (destroys_lem vs small i l)
              (destroyed_lem (set i none vs) alive valid ptr (pointer_at i vs) w'),
          w',
        )

    pub factory_made_lem :
        (j p v : ℕ)
        → j < length vs
        → pointer_at j vs ≡ none
        → references p vs ≡ 0
        → Leaves
            (new_factory j p (some v))
            (set j (some p) vs)
            (set_at j true alive)
            (set_at p true valid)
            (set_at j (some v) ptr)
    unfolding new_factory
    factory_made_lem j p v l e fresh = (
      rw (makes_lem vs small j p l e fresh),
      made-IsBacked w j p fresh (empty_dead j e) (pointer_at-set_self j (some p) vs l),
    )

    pub got_lem :
        (i j : ℕ)
        → i < length vs
        → pointer_at i vs ≡ none
        → Leaves (get_weak_ptr i j) (set i (pointer_at j vs) vs) alive valid (set_at i (ptr j) ptr)
    unfolding get_weak_ptr
    got_lem i j l e =
        (rw (copies_lem vs small i j l e), written-IsBacked i (pointer_at j vs) (empty_dead i e))

    pub factory_destroyed_lem :
        (j : ℕ)
        → j < length vs
        → alive j ≡ true
        → (f : ℕ) × (Leaves
            (destroy_factory j)
            (set j none vs)
            (set_at j false alive)
            (set_at f false valid)
            ptr)
    unfolding destroy_factory invalidate
    factory_destroyed_lem j l live =
        let (f, h, v) = w.holds j live in
        let w' = destroyed-IsBacked w j f live h in
        (
          f,
          (
            rw (h, held vs j f h, v, destroys_lem vs small j l)
                (destroyed_lem (set j none vs) (set_at j false alive) (set_at f false valid) ptr
                  (some f) w'),
            w',
          ),
        )
