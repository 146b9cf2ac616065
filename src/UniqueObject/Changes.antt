-- ===== src/UniqueObject/Changes.antt =====
-- What each method does to the account of a value.
use environment_check.Prelude.{
  ℕ, ◌+◌, ◌≤◌, ◌≡◌, refl, ap, ◌∙◌, inl, inr, true, false, not, sym, [], ◌∷◌, ◌++◌, ◌==◌, ◌||◌,
  length, arith, Bool-cases, ==_iff,
}
use environment_check.Outcome.{returns}
use environment_check.UniqueObject.{
  Objects, value_at, set_value, free_if_necessary, reset, release, swap,
}
use environment_check.UniqueObject.Tallies.{
  tally, one, tally-append, tally-set_value, length-set_value, value_at-set_value,
  value_at-set_self, tally-held, another,
}

-- How a value's account changes by a call that takes over `plus` of it and gives up `minus`.
pub record Changes (invalid x plus minus : ℕ) (s s' : Objects) : Type 0 where
  pub account :
      tally x s'.values + tally x s'.freed + minus ≡ tally x s.values + tally x s.freed + plus
  pub held : tally x s'.values + minus ≤ tally x s.values + plus
  pub not_freed : tally invalid s'.freed ≡ tally invalid s.freed

module _ (invalid : ℕ) (s : Objects) where
  abbrev pub IsValid : ℕ → Type 0
  IsValid x = (x == invalid) ≡ false

  none_invalid : (x : ℕ) → IsValid x → one x invalid ≡ 0
  none_invalid x valid = rw valid

  abbrev pub constructed : ℕ → Objects
  constructed v = record s { values = s.values ++ v ∷ [] }

  pub construct-Changes : (v x : ℕ) → IsValid x → Changes invalid x (one x v) 0 s (constructed v)
  construct-Changes v x valid = record {
    account = omega (arith, tally-append x s.values (v ∷ []));
    held = omega (arith, tally-append x s.values (v ∷ []));
    not_freed = refl;
  }

  pub release-Changes :
      (i v : ℕ)
      → value_at i s.values ≡ returns v
      → (s' : Objects) × (release invalid i s ≡ (returns v, s'))
        × ((x : ℕ) → IsValid x → Changes invalid x 0 (one x v) s s')
        × (length s'.values ≡ length s.values)
  unfolding release
  release-Changes i v e = (
    record s { values = set_value i invalid s.values },
    rw e refl,
    λ x valid. record {
      account = omega (arith, none_invalid x valid, tally-set_value x i invalid v s.values e);
      held = omega (arith, none_invalid x valid, tally-set_value x i invalid v s.values e);
      not_freed = refl;
    },
    length-set_value i invalid s.values,
  )

  pub free-Changes :
      (i v : ℕ)
      → value_at i s.values ≡ returns v
      → (s' : Objects) × (free_if_necessary invalid i s ≡ (returns tt, s'))
        × ((x : ℕ) → IsValid x → Changes invalid x 0 0 s s')
        × (value_at i s'.values ≡ returns invalid)
  unfolding free_if_necessary
  free-Changes i v e = elim (Bool-cases (v == invalid)) [
    | inl y ↦ (
      s,
      rw (e, y) refl,
      λ x valid. record { account = refl; held = omega arith; not_freed = refl },
      e ∙ ap returns ((==_iff v invalid).0 y),
    )
    | inr n ↦ (
      record s { values = set_value i invalid s.values; freed = v ∷ s.freed },
      rw (e, n) refl,
      λ x valid. record {
        account = omega (arith, none_invalid x valid, tally-set_value x i invalid v s.values e);
        held = omega (arith, none_invalid x valid, tally-set_value x i invalid v s.values e);
        not_freed = omega (arith, another v invalid n);
      },
      value_at-set_self i invalid v s.values e,
    )
  ]

  pub swap-Changes :
      (i r v w : ℕ)
      → value_at i s.values ≡ returns v
      → value_at r s.values ≡ returns w
      → (s' : Objects) × (swap i r s ≡ (returns tt, s'))
        × ((x : ℕ) → IsValid x → Changes invalid x 0 0 s s')
  unfolding swap
  swap-Changes i r v w e f =
      let here = λ (x : ℕ). tally-set_value x i w v s.values e in
      let there = λ (x : ℕ).
        tally-set_value x r v w (set_value i w s.values) (value_at-set_value i r w s.values f) in
      (
        record s { values = set_value r v (set_value i w s.values) },
        rw (e, f) refl,
        λ x valid. record {
          account = omega (arith, here x, there x);
          held = omega (arith, here x, there x);
          not_freed = refl;
        },
      )

  check_passes :
      (i u v : ℕ)
      → value_at i s.values ≡ returns u
      → (IsValid v → tally v s.values ≡ 0)
      → (u == invalid || not (u == v)) ≡ true
  check_passes i u v e fresh = elim (Bool-cases (u == invalid)) [
    | inl y ↦ rw y refl
    | inr n ↦ elim (Bool-cases (u == v)) [
      | inl same ↦
          let u≡v = (==_iff u v).0 same in
          let held : 1 ≤ tally v s.values = tally-held i v s.values (e ∙ ap returns u≡v) in
          absurd (omega (arith, held, fresh (ap (λ y. y == invalid) (sym u≡v) ∙ n)))
      | inr other ↦ rw (n, other) refl
    ]
  ]

  pub reset-Changes :
      (i u v : ℕ)
      → value_at i s.values ≡ returns u
      → (IsValid v → tally v s.values ≡ 0)
      → (s' : Objects) × (reset invalid i v s ≡ (returns tt, s'))
        × ((x : ℕ) → IsValid x → Changes invalid x (one x v) 0 s s')
  unfolding reset
  reset-Changes i u v e fresh =
      let (s1, freed, changes, empty) = free-Changes i u e in
      (
        record s1 { values = set_value i v s1.values },
        rw (e, check_passes i u v e fresh, freed) refl,
        λ x valid.
            let c = changes x valid in
            let now = tally-set_value x i v invalid s1.values empty in
            record {
              account = omega (arith, none_invalid x valid, now, c.account);
              held = omega (arith, none_invalid x valid, now, c.held);
              not_freed = c.not_freed;
            },
      )

-- What is given up by one object and taken over by another is moved.
pub moved :
    {invalid x k : ℕ} {s s1 s2 : Objects}
    → Changes invalid x 0 k s s1
    → Changes invalid x k 0 s1 s2
    → Changes invalid x 0 0 s s2
moved a b = record {
  account = omega (arith, a.account, b.account);
  held = omega (arith, a.held, b.held);
  not_freed = b.not_freed ∙ a.not_freed;
}
