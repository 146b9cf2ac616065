-- ===== src/RefPtr/Allowed.antt =====
-- Which calls on pointers are allowed, and the lengths of what they leave.
use environment_check.Prelude.{
  ℕ, ◌<◌, ◌≡◌, refl, sym, ap, ◌∙◌, Bool, Option, none, some, true, false, List, ltb, ltb→lt,
  is_some, not, and_both, length, ◌&&◌, if◌then◌else◌,
}
use environment_check.RefPtr.{pointer_at, set}
use environment_check.RefPtr.References.{length-set}

-- A variable that exists and holds nothing, into which a pointer can be constructed.
abbrev pub is_empty_at : ℕ → List (Option ℕ) → Bool
is_empty_at i vs = ltb i (length vs) && not (is_some (pointer_at i vs))

abbrev pub given : Bool → List (Option ℕ) → Option (List (Option ℕ))
given b vs = if b then some vs else none

abbrev pub then_steps :
    (List (Option ℕ) → Option (List (Option ℕ)))
    → Option (List (Option ℕ))
    → Option (List (Option ℕ))
then_steps f none = none
then_steps f (some vs) = f vs

pub given-some :
    (b : Bool) (us : List (Option ℕ)) {ws : List (Option ℕ)}
    → given b us ≡ some ws
    → (b ≡ true) × (us ≡ ws)
given-some true us h = (refl, cc)
given-some false us h = cc

pub none_of_not : (v : Option ℕ) → not (is_some v) ≡ true → v ≡ none
none_of_not none h = refl
none_of_not (some p) h = cc

module _ (vs : List (Option ℕ)) where
  pub exists : (i : ℕ) → ltb i (length vs) ≡ true → i < length vs
  exists i h = ltb→lt i (length vs) h

  pub empty : (i : ℕ) → is_empty_at i vs ≡ true → (i < length vs) × (pointer_at i vs ≡ none)
  empty i h =
      let (a, b) = and_both (ltb i (length vs)) (not (is_some (pointer_at i vs))) h in
      (exists i a, none_of_not (pointer_at i vs) b)

pub given-length :
    (b : Bool) (us vs : List (Option ℕ)) {ws : List (Option ℕ)}
    → length us ≡ length vs
    → given b us ≡ some ws
    → length ws ≡ length vs
given-length b us vs e h = sym (ap length (given-some b us h).1) ∙ e

pub set_twice :
    (i r : ℕ) (v w : Option ℕ) (vs : List (Option ℕ)) → length (set r w (set i v vs)) ≡ length vs
set_twice i r v w vs = length-set r w (set i v vs) ∙ length-set i v vs

pub some_inj : {us ws : List (Option ℕ)} → some us ≡ some ws → us ≡ ws
some_inj h = cc

pub some_of_then :
    (f : List (Option ℕ) → Option (List (Option ℕ))) (o : Option (List (Option ℕ)))
    {ws : List (Option ℕ)}
    → then_steps f o ≡ some ws
    → (us : List (Option ℕ)) × (o ≡ some us) × (f us ≡ some ws)
some_of_then f none h = cc
some_of_then f (some us) h = (us, refl, h)
