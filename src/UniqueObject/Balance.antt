-- ===== src/UniqueObject/Balance.antt =====
-- Every value that a program gives to an object has one owner, or was freed, or was given back.
use environment_check.Prelude.{
  ℕ, ◌+◌, ◌≤◌, ◌≡◌, refl, ap, ◌∙◌, inl, inr, Bool, true, false, sym, List, [], ◌∷◌, ◌==◌, ◌&&◌,
  ◌||◌, ltb, length, arith, Bool-cases, ==_iff,
}
use environment_check.Outcome.{returns}
use environment_check.UniqueObject.{
  Objects, value_at, construct, move_construct, move_assign, destroy, Call, constructs, moves,
  releases, destroys, resets, assigns, swaps, Ledger, step, run,
}
use environment_check.UniqueObject.Tallies.{tally, one, value_at-there, one_self}
use environment_check.UniqueObject.Changes.{
  Changes, moved, constructed, construct-Changes, release-Changes, free-Changes, swap-Changes,
  reset-Changes,
}

-- Which calls a program may make: of objects that are there, and it gives an object only a value
-- that no object holds.
abbrev pub is_there : ℕ → Objects → Bool
is_there i s = ltb i (length s.values)

abbrev pub is_free : ℕ → ℕ → Objects → Bool
is_free invalid v s = v == invalid || tally v s.values == 0

abbrev pub is_allowed : ℕ → Call → Objects → Bool
is_allowed invalid (constructs v) s = is_free invalid v s
is_allowed invalid (resets i v) s = is_there i s && is_free invalid v s
is_allowed invalid (moves r) s = is_there r s
is_allowed invalid (releases i) s = is_there i s
is_allowed invalid (destroys i) s = is_there i s
is_allowed invalid (assigns i r) s = is_there i s && is_there r s
is_allowed invalid (swaps i r) s = is_there i s && is_there r s

abbrev pub is_allowed_run : ℕ → List Call → Ledger → Bool
is_allowed_run invalid [] p = true
is_allowed_run invalid (c ∷ cs) p =
    is_allowed invalid c p.objects && is_allowed_run invalid cs (step invalid c p).1

-- At most one object holds `x`, and the program gave `x` to an object as often as it is held, was
-- freed or was given back, together. The invalid value was not freed.
abbrev pub IsOwned : ℕ → ℕ → Ledger → Type 0
IsOwned invalid x p =
    (tally x p.objects.values ≤ 1)
    × (tally x p.objects.values + tally x p.objects.freed + tally x p.released ≡ tally x p.adopted)
    × (tally invalid p.objects.freed ≡ 0)

module _ (invalid : ℕ) (s : Objects)
    (once : (x : ℕ) → (x == invalid) ≡ false → tally x s.values ≤ 1) where
  move_construct-Changes :
      (r w : ℕ)
      → value_at r s.values ≡ returns w
      → (s' : Objects) × (move_construct invalid r s ≡ (returns tt, s'))
        × ((x : ℕ) → (x == invalid) ≡ false → Changes invalid x 0 0 s s')
  unfolding move_construct construct
  move_construct-Changes r w f =
      let (s1, released, gone, _) = release-Changes invalid s r w f in
      (
        constructed invalid s1 w,
        rw released refl,
        λ x valid. moved (gone x valid) (construct-Changes invalid s1 w x valid),
      )

  move_assign-Changes :
      (i r w : ℕ)
      → is_there i s ≡ true
      → value_at r s.values ≡ returns w
      → (s' : Objects) × (move_assign invalid i r s ≡ (returns tt, s'))
        × ((x : ℕ) → (x == invalid) ≡ false → Changes invalid x 0 0 s s')
  unfolding move_assign
  move_assign-Changes i r w there f =
      let (s1, released, gone, long) = release-Changes invalid s r w f in
      let (u, e) = value_at-there i s1.values (ap (λ n. ltb i n) long ∙ there) in
      let (s2, reset_it, come) =
        reset-Changes invalid s1 i u w e
          (λ valid. omega (arith, (gone w valid).held, once w valid, one_self w)) in
      (s2, rw (released, reset_it) refl, λ x valid. moved (gone x valid) (come x valid))

IsSound : ℕ → Ledger → Type 0
IsSound invalid p = (x : ℕ) → (x == invalid) ≡ false → IsOwned invalid x p

module _ (invalid x : ℕ) (p : Ledger) (owned : IsOwned invalid x p) where
  kept :
      (s : Objects)
      → Changes invalid x 0 0 p.objects s
      → IsOwned invalid x (record p { objects = s })
  kept s c = (
    omega (arith, owned.0, c.held),
    omega (arith, owned.1, c.account),
    omega (arith, owned.2, c.not_freed),
  )

  given :
      (s : Objects) (v : ℕ)
      → ((v == invalid) ≡ false → tally v p.objects.values ≡ 0)
      → (x == invalid) ≡ false
      → Changes invalid x (one x v) 0 p.objects s
      → IsOwned invalid x (record p { objects = s; adopted = v ∷ p.adopted })
  given s v fresh valid c = elim (Bool-cases (x == v)) [
    | inl y ↦
        let x≡v = (==_iff x v).0 y in
        let none : tally x p.objects.values ≡ 0 =
          ap (λ z. tally z p.objects.values) x≡v
          ∙ fresh (ap (λ z. z == invalid) (sym x≡v) ∙ valid) in
        let single : one x v ≡ 1 = rw y refl in
        (
          omega (arith, none, single, c.held),
          omega (arith, owned.1, c.account),
          omega (arith, owned.2, c.not_freed),
        )
    | inr n ↦
        let not_it : one x v ≡ 0 = rw n refl in
        (
          omega (arith, owned.0, not_it, c.held),
          omega (arith, owned.1, c.account),
          omega (arith, owned.2, c.not_freed),
        )
  ]

  given_back :
      (s : Objects) (v : ℕ)
      → Changes invalid x 0 (one x v) p.objects s
      → IsOwned invalid x (record p { objects = s; released = v ∷ p.released })
  given_back s v c = (
    omega (arith, owned.0, c.held),
    omega (arith, owned.1, c.account),
    omega (arith, owned.2, c.not_freed),
  )

free_value :
    (invalid v : ℕ) (s : Objects)
    → is_free invalid v s ≡ true
    → (v == invalid) ≡ false
    → tally v s.values ≡ 0
free_value invalid v s h n = (==_iff (tally v s.values) 0).0 (rw n at h)

both : (a b : Bool) → (a && b) ≡ true → (a ≡ true) × (b ≡ true)
both true b h = (refl, h)
both false b h = absurd (ground arith)

module _ (invalid : ℕ) where
  step-IsSound :
      (c : Call) (p : Ledger)
      → IsSound invalid p
      → is_allowed invalid c p.objects ≡ true
      → (p' : Ledger) × (step invalid c p ≡ (returns tt, p')) × IsSound invalid p'
  unfolding step construct destroy IsSound
  step-IsSound (constructs v) p sound ok = (
    record p { objects = constructed invalid p.objects v; adopted = v ∷ p.adopted },
    refl,
    λ x valid.
        given invalid x p (sound x valid) (constructed invalid p.objects v) v
          (free_value invalid v p.objects ok) valid (construct-Changes invalid p.objects v x valid),
  )
  step-IsSound (resets i v) p sound ok =
      let (there, free) = both (is_there i p.objects) (is_free invalid v p.objects) ok in
      let (u, e) = value_at-there i p.objects.values there in
      let fresh = free_value invalid v p.objects free in
      let (s, eq, change) = reset-Changes invalid p.objects i u v e fresh in
      (
        record p { objects = s; adopted = v ∷ p.adopted },
        rw eq refl,
        λ x valid. given invalid x p (sound x valid) s v fresh valid (change x valid),
      )
  step-IsSound (releases i) p sound ok =
      let (v, e) = value_at-there i p.objects.values ok in
      let (s, eq, change, _) = release-Changes invalid p.objects i v e in
      (
        record p { objects = s; released = v ∷ p.released },
        rw eq refl,
        λ x valid. given_back invalid x p (sound x valid) s v (change x valid),
      )
  step-IsSound (moves r) p sound ok =
      let (w, f) = value_at-there r p.objects.values ok in
      let (s, eq, change) =
        move_construct-Changes invalid p.objects (λ x valid. (sound x valid).0) r w f in
      (
        record p { objects = s },
        rw eq refl,
        λ x valid. kept invalid x p (sound x valid) s (change x valid),
      )
  step-IsSound (destroys i) p sound ok =
      let (v, e) = value_at-there i p.objects.values ok in
      let (s, eq, change, _) = free-Changes invalid p.objects i v e in
      (
        record p { objects = s },
        rw eq refl,
        λ x valid. kept invalid x p (sound x valid) s (change x valid),
      )
  step-IsSound (assigns i r) p sound ok =
      let (i_there, r_there) = both (is_there i p.objects) (is_there r p.objects) ok in
      let (w, f) = value_at-there r p.objects.values r_there in
      let (s, eq, change) =
        move_assign-Changes invalid p.objects (λ x valid. (sound x valid).0) i r w i_there f in
      (
        record p { objects = s },
        rw eq refl,
        λ x valid. kept invalid x p (sound x valid) s (change x valid),
      )
  step-IsSound (swaps i r) p sound ok =
      let (i_there, r_there) = both (is_there i p.objects) (is_there r p.objects) ok in
      let (v, e) = value_at-there i p.objects.values i_there in
      let (w, f) = value_at-there r p.objects.values r_there in
      let (s, eq, change) = swap-Changes invalid p.objects i r v w e f in
      (
        record p { objects = s },
        rw eq refl,
        λ x valid. kept invalid x p (sound x valid) s (change x valid),
      )

  run-IsSound :
      (cs : List Call) (p : Ledger)
      → IsSound invalid p
      → is_allowed_run invalid cs p ≡ true
      → (p' : Ledger) × (run invalid cs p ≡ (returns tt, p')) × IsSound invalid p'
  unfolding run
  run-IsSound [] p sound ok = (p, refl, sound)
  run-IsSound (c ∷ cs) p sound ok =
      let (first, others) =
        both (is_allowed invalid c p.objects) (is_allowed_run invalid cs (step invalid c p).1) ok in
      let (q, eq, sound_q) = step-IsSound c p sound first in
      let (p', eq', sound') = run-IsSound cs q sound_q (rw eq at others) in
      (p', rw (eq, eq') refl, sound')

abbrev pub no_objects : Ledger
no_objects = record { objects = record { values = []; freed = [] }; adopted = []; released = [] }

-- A program calls its objects as it is allowed to: it names objects that are there, and gives an
-- object only a value that no object holds. Then every call returns. A value `x` that is not the
-- invalid one is held by one object at most, and the program gave it to an object as often as it is
-- held, was freed or was given back, together: a move leaves it with one owner. The invalid value
-- was never freed.
pub run-IsOwned :
    (invalid x : ℕ) (cs : List Call)
    → (x == invalid) ≡ false
    → is_allowed_run invalid cs no_objects ≡ true
    → (p : Ledger) × (run invalid cs no_objects ≡ (returns tt, p)) × IsOwned invalid x p
unfolding IsSound
run-IsOwned invalid x cs valid ok =
    let (p, eq, sound) = run-IsSound invalid cs no_objects (λ y _. (omega arith, refl, refl)) ok in
    (p, eq, sound x valid)
