-- ===== src/UniqueObject.antt =====
-- app/src/main/cpp/unique_object.h, whose objects unique_fd.h has as file descriptors. The objects
-- of a program are numbered; a value is a number, `invalid` is Traits::InvalidValue.
pub mod Balance
pub mod Changes
pub mod Tallies
use environment_check.Prelude.{
  ℕ, zero, suc, Option, none, some, Bool, true, false, not, List, [], ◌∷◌, ◌++◌, ◌==◌, ◌||◌,
  if◌then◌else◌,
}
use environment_check.Outcome.{Outcome, returns, fails, check, undefined_behaviour}
use environment_check.Exec.{Exec, pure, lift, reads, modify, ◌>>=◌, ◌>>◌}

-- `generic` of each object, and the values that Traits::Free got, last first.
pub record Objects : Type 0 where
  pub values : List ℕ
  pub freed : List ℕ

unfoldable pub value_at : ℕ → List ℕ → Outcome ℕ
value_at i [] = fails undefined_behaviour
value_at zero (v ∷ vs) = returns v
value_at (suc i) (v ∷ vs) = value_at i vs

unfoldable pub set_value : ℕ → ℕ → List ℕ → List ℕ
set_value i v [] = []
set_value zero v (w ∷ vs) = v ∷ vs
set_value (suc i) v (w ∷ vs) = w ∷ set_value i v vs

abbrev pub get : ℕ → Exec Objects ℕ
get i = reads (λ s. value_at i s.values)

abbrev pub put : ℕ → ℕ → Exec Objects (Unit {0})
put i v = modify (λ s. record s { values = set_value i v s.values })

module _ (invalid : ℕ) where
  unfoldable pub free_if_necessary : ℕ → Exec Objects (Unit {0})
  free_if_necessary i = do
    v ← get i
    if v == invalid
        then pure tt
        else modify (λ s. record s { values = set_value i invalid s.values; freed = v ∷ s.freed })

  unfoldable pub reset : ℕ → ℕ → Exec Objects (Unit {0})
  reset i value = do
    v ← get i
    lift (check (v == invalid || not (v == value)))
    free_if_necessary i
    put i value

  unfoldable pub release : ℕ → Exec Objects ℕ
  release i = do old ← get i; put i invalid; pure old

  -- A new object is the last one.
  unfoldable pub construct : ℕ → Exec Objects (Unit {0})
  construct value = modify (λ s. record s { values = s.values ++ value ∷ [] })

  unfoldable pub move_construct : ℕ → Exec Objects (Unit {0})
  unfolding construct
  move_construct r = do v ← release r; construct v

  unfoldable pub move_assign : ℕ → ℕ → Exec Objects (Unit {0})
  move_assign i r = do v ← release r; reset i v

  -- An object that was destroyed holds nothing.
  unfoldable pub destroy : ℕ → Exec Objects (Unit {0})
  destroy i = free_if_necessary i

unfoldable pub swap : ℕ → ℕ → Exec Objects (Unit {0})
swap i r = do v ← get i; w ← get r; put i w; put r v

pub data Call : Type 0 where
  constructs moves releases destroys : ℕ → Call
  resets assigns swaps : ℕ → ℕ → Call

-- The objects of a program. `adopted` are the values that the program gave to an object, with the
-- constructor or `reset`, and `released` those that it got from one, with `release`, last first.
pub record Ledger : Type 0 where
  pub objects : Objects
  pub adopted : List ℕ
  pub released : List ℕ

abbrev pub on_objects : {A : Type 0} → Exec Objects A → Exec Ledger A
on_objects m p = let r = m p.objects in (r.0, record p { objects = r.1 })

abbrev pub gives : ℕ → Exec Ledger (Unit {0})
gives v = modify (λ p. record p { adopted = v ∷ p.adopted })

unfoldable pub step : ℕ → Call → Exec Ledger (Unit {0})
unfolding construct move_construct release destroy reset move_assign swap
step invalid (constructs v) = do on_objects (construct invalid v); gives v
step invalid (resets i v) = do on_objects (reset invalid i v); gives v
step invalid (releases i) = do
  v ← on_objects (release invalid i)
  modify (λ p. record p { released = v ∷ p.released })
step invalid (moves r) = on_objects (move_construct invalid r)
step invalid (destroys i) = on_objects (destroy invalid i)
step invalid (assigns i r) = on_objects (move_assign invalid i r)
step invalid (swaps i r) = on_objects (swap i r)

-- The calls of a program, up to the first that fails.
unfoldable pub run : ℕ → List Call → Exec Ledger (Unit {0})
unfolding step
run invalid [] = pure tt
run invalid (c ∷ cs) = do step invalid c; run invalid cs
