-- ===== src/RefPtr/Counted.antt =====
-- Maps that have a value for each address by the number of references to it.
use mathlib.Core.Path.{fun_ext}
use environment_check.Prelude.{
  ℕ, ◌+◌, ◌-◌, ◌<◌, ◌≤◌, ◌≡◌, refl, sym, ap, ◌∙◌, inl, inr, ==_iff, Option, none, some, true, false,
  ◌==◌, List, set_at, Bool-cases,
}
use environment_check.RefPtr.{pointer_at}
use environment_check.RefPtr.References.{hit, references, hit-le-references}

abbrev pub counts : List (Option ℕ) → ℕ → ℕ
counts vs q = references q vs

abbrev pub gain : Option ℕ → (ℕ → ℕ) → ℕ → ℕ
gain v c q = c q + hit v q

abbrev pub lose : Option ℕ → (ℕ → ℕ) → ℕ → ℕ
lose v c q = c q - hit v q

-- The object has a reference.
abbrev pub Held : Option ℕ → (ℕ → ℕ) → Type 0
Held none c = Unit {0}
Held (some p) c = 0 < c p

pub ==_self : (p : ℕ) → (p == p) ≡ true
==_self p = (==_iff p p).1 refl

-- A pointer that counts has an object.
pub Held-of_hit : (v : Option ℕ) (c : ℕ → ℕ) → ((q : ℕ) → hit v q ≤ c q) → Held v c
Held-of_hit none c h = tt
Held-of_hit (some p) c h = rw (==_self p) at (h p)

pub Held-pointer_at : (i : ℕ) (vs : List (Option ℕ)) → Held (pointer_at i vs) (counts vs)
Held-pointer_at i vs = Held-of_hit (pointer_at i vs) (counts vs) (λ q. hit-le-references q i vs)

module _ {O : Type 0} (live : ℕ → Option O) where
  abbrev pub map_with : (ℕ → ℕ) → ℕ → Option O
  map_with c q = live (c q)

  pub counted_eq : (c d : ℕ → ℕ) → ((q : ℕ) → c q ≡ d q) → map_with c ≡ map_with d
  counted_eq c d h = fun_ext (λ q. ap live (h q))

  -- A write at one address, where the counts differ there only.
  pub set_counted :
      (p : ℕ) (o : Option O) (c d : ℕ → ℕ)
      → live (d p) ≡ o
      → ((q : ℕ) → (q == p) ≡ false → d q ≡ c q)
      → set_at p o (map_with c) ≡ map_with d
  set_counted p o c d h k = fun_ext λ q. elim (Bool-cases (q == p)) [
    | inl e ↦ rw e (sym h ∙ ap (λ x. live (d x)) (sym ((==_iff q p).0 e)))
    | inr e ↦ rw e (sym (ap live (k q e)))
  ]

pub set_set :
    {O : Type 0} (h : ℕ → Option O) (p : ℕ) (o o' : Option O)
    → set_at p o' (set_at p o h) ≡ set_at p o' h
set_set h p o o' = fun_ext λ q. elim (Bool-cases (q == p)) [ inl e ↦ rw e refl | inr e ↦ rw e refl ]
