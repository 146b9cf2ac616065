-- ===== src/WeakPtr/Backed.antt =====
-- Which flags are valid: those that a living factory holds.
use environment_check.Prelude.{
  ℕ, zero, suc, ◌≡◌, refl, sym, ap, ◌∙◌, ◌⊎◌, inl, inr, Option, none, some, Bool, true, false, List,
  [], ◌∷◌, ◌==◌, ==_iff, set_at, Bool-cases, arith,
}
use environment_check.RefPtr.{pointer_at, set}
use environment_check.RefPtr.References.{references, hit, hit-le-references}
use environment_check.RefPtr.Counted.{==_self}

-- What a variable holds after a write to one.
pub at-set :
    (a i : ℕ) (v : Option ℕ) (vs : List (Option ℕ)) {f : ℕ}
    → pointer_at a (set i v vs) ≡ some f
    → ((a ≡ i) × (v ≡ some f)) ⊎ (((a == i) ≡ false) × (pointer_at a vs ≡ some f))
unfolding pointer_at set
at-set a i v [] h = cc
at-set zero zero v (w ∷ vs) h = inl (refl, h)
at-set zero (suc i) v (w ∷ vs) h = inr (ground arith, h)
at-set (suc a) zero v (w ∷ vs) h = inr (ground arith, h)
at-set (suc a) (suc i) v (w ∷ vs) h = elim (at-set a i v vs h) [
  | inl (e, g) ↦ inl (ap (λ n. suc n) e, g)
  | inr (n, g) ↦ inr (ground (arith, n), g)
]

pub at-emptied :
    (a i : ℕ) (vs : List (Option ℕ)) {f : ℕ}
    → pointer_at a (set i none vs) ≡ some f
    → ((a == i) ≡ false) × (pointer_at a vs ≡ some f)
at-emptied a i vs h = elim (at-set a i none vs h) [ inl (e, g) ↦ cc | inr r ↦ r ]

pub pointer_at-set_other :
    (a i : ℕ) (v : Option ℕ) (vs : List (Option ℕ))
    → (a == i) ≡ false
    → pointer_at a (set i v vs) ≡ pointer_at a vs
unfolding pointer_at set
pointer_at-set_other a i v [] n = refl
pointer_at-set_other zero zero v (w ∷ vs) n = absurd (ground (arith, n))
pointer_at-set_other zero (suc i) v (w ∷ vs) n = refl
pointer_at-set_other (suc a) zero v (w ∷ vs) n = refl
pointer_at-set_other (suc a) (suc i) v (w ∷ vs) n =
    pointer_at-set_other a i v vs (ground (arith, n))

-- An address that no variable has.
pub unheld : (b p : ℕ) (vs : List (Option ℕ)) → references p vs ≡ 0 → pointer_at b vs ≡ some p → ⊥
unheld b p vs fresh h =
    let one : hit (pointer_at b vs) p ≡ 1 = rw (h, ==_self p) in
    omega (arith, fresh, one, hit-le-references p b vs)

-- Variables with the same flag have the same `ptr_`.
abbrev pub Shares : List (Option ℕ) → (ℕ → Option ℕ) → Type 0
Shares vs ptr = (a b f : ℕ) → pointer_at a vs ≡ some f → pointer_at b vs ≡ some f → ptr a ≡ ptr b

pub emptied-Shares :
    (i : ℕ) (vs : List (Option ℕ)) (ptr : ℕ → Option ℕ) → Shares vs ptr → Shares (set i none vs) ptr
emptied-Shares i vs ptr sh a b f g h = sh a b f (at-emptied a i vs g).1 (at-emptied b i vs h).1

-- A write of the flag and the `ptr_` of a variable, where the others have what they had or nothing.
pub copied-Shares :
    (i r : ℕ) (us vs : List (Option ℕ)) (ptr : ℕ → Option ℕ)
    → ((a f : ℕ) → pointer_at a us ≡ some f → pointer_at a vs ≡ some f)
    → Shares vs ptr
    → Shares (set i (pointer_at r vs) us) (set_at i (ptr r) ptr)
copied-Shares i r us vs ptr old sh a b f g h =
    shown (at-set a i (pointer_at r vs) us g) (at-set b i (pointer_at r vs) us h)
  where
    shown :
        ((a ≡ i) × (pointer_at r vs ≡ some f)) ⊎ (((a == i) ≡ false) × (pointer_at a us ≡ some f))
        → ((b ≡ i) × (pointer_at r vs ≡ some f)) ⊎ (((b == i) ≡ false) × (pointer_at b us ≡ some f))
        → set_at i (ptr r) ptr a ≡ set_at i (ptr r) ptr b
    shown (inl (y, e)) (inl (z, e')) = ap (set_at i (ptr r) ptr) (y ∙ sym z)
    shown (inl (y, e)) (inr (n, h')) = rw ((==_iff a i).1 y, n) (sh r b f e (old b f h'))
    shown (inr (n, g')) (inl (z, e)) = rw ((==_iff b i).1 z, n) (sh a r f (old a f g') e)
    shown (inr (n, g')) (inr (n', h')) = rw (n, n') (sh a b f (old a f g') (old b f h'))

-- A new factory.
pub made-Shares :
    (j p : ℕ) (v : Option ℕ) (vs : List (Option ℕ)) (ptr : ℕ → Option ℕ)
    → references p vs ≡ 0
    → Shares vs ptr
    → Shares (set j (some p) vs) (set_at j v ptr)
made-Shares j p v vs ptr fresh sh a b f g h =
    shown (at-set a j (some p) vs g) (at-set b j (some p) vs h)
  where
    shown :
        ((a ≡ j) × (some p ≡ some f)) ⊎ (((a == j) ≡ false) × (pointer_at a vs ≡ some f))
        → ((b ≡ j) × (some p ≡ some f)) ⊎ (((b == j) ≡ false) × (pointer_at b vs ≡ some f))
        → set_at j v ptr a ≡ set_at j v ptr b
    shown (inl (y, e)) (inl (z, e')) = ap (set_at j v ptr) (y ∙ sym z)
    shown (inl (y, e)) (inr (n, h')) = absurd (unheld b p vs fresh (h' ∙ sym e))
    shown (inr (n, g')) (inl (z, e)) = absurd (unheld a p vs fresh (g' ∙ sym e))
    shown (inr (n, g')) (inr (n', h')) = rw (n, n') (sh a b f g' h')

pub record IsBacked (vs : List (Option ℕ)) (alive valid : ℕ → Bool) : Type 0 where
  pub holds : (j : ℕ) → alive j ≡ true → (f : ℕ) × (pointer_at j vs ≡ some f) × (valid f ≡ true)
  pub backed : (f : ℕ) → valid f ≡ true → (j : ℕ) × (alive j ≡ true) × (pointer_at j vs ≡ some f)
  pub apart :
      (j k f : ℕ)
      → alive j ≡ true
      → alive k ≡ true
      → pointer_at j vs ≡ some f
      → pointer_at k vs ≡ some f
      → j ≡ k

pub differs : (alive : ℕ → Bool) (j k : ℕ) → alive j ≡ false → alive k ≡ true → (k == j) ≡ false
differs alive j k dead live = elim (Bool-cases (k == j)) [
  | inl y ↦ cc (ap alive ((==_iff k j).0 y))
  | inr n ↦ n
]

module _ {vs : List (Option ℕ)} {alive valid : ℕ → Bool} (w : IsBacked vs alive valid) where
  -- A change that leaves the living factories alone.
  pub kept-IsBacked :
      (ws : List (Option ℕ))
      → ((j : ℕ) → alive j ≡ true → pointer_at j ws ≡ pointer_at j vs)
      → IsBacked ws alive valid
  kept-IsBacked ws same = record {
    holds = λ j l. let (f, h, v) = w.holds j l in (f, same j l ∙ h, v);
    backed = λ f v. let (j, l, h) = w.backed f v in (j, l, same j l ∙ h);
    apart = λ j k f l m g h. w.apart j k f l m (sym (same j l) ∙ g) (sym (same k m) ∙ h);
  }

  -- A new factory, with its flag at an address that no variable has.
  pub made-IsBacked :
      (j p : ℕ)
      → references p vs ≡ 0
      → alive j ≡ false
      → pointer_at j (set j (some p) vs) ≡ some p
      → IsBacked (set j (some p) vs) (set_at j true alive) (set_at p true valid)
  made-IsBacked j p fresh dead own = record {
    holds = λ k l. elim (Bool-cases (k == j)) [
      | inl y ↦
          (p, ap (λ n. pointer_at n (set j (some p) vs)) ((==_iff k j).0 y) ∙ own, ground arith)
      | inr n ↦
          let (f, h, v) = w.holds k (rw n at l) in
          (f, pointer_at-set_other k j (some p) vs n ∙ h, ground (arith, v))
    ];
    backed = λ f v. elim (Bool-cases (f == p)) [
      | inl y ↦ (j, ground arith, own ∙ ap (λ n. some n) (sym ((==_iff f p).0 y)))
      | inr n ↦
          let (k, l, h) = w.backed f (rw n at v) in
          let other = differs alive j k dead l in
          (k, rw other l, pointer_at-set_other k j (some p) vs other ∙ h)
    ];
    apart = λ a b f l m g h. elim (at-set a j (some p) vs g) [
      | inl (y, e) ↦ elim (at-set b j (some p) vs h) [
        | inl (z, e') ↦ y ∙ sym z
        | inr (n, h') ↦ absurd (unheld b p vs fresh (h' ∙ sym e))
      ]
      | inr (n, g') ↦ elim (at-set b j (some p) vs h) [
        | inl (z, e') ↦ absurd (unheld a p vs fresh (g' ∙ sym e'))
        | inr (n', h') ↦ w.apart a b f (rw n at l) (rw n' at m) g' h'
      ]
    ];
  }

  -- A factory that is alive is destroyed, and its flag is invalidated.
  pub destroyed-IsBacked :
      (j f : ℕ)
      → alive j ≡ true
      → pointer_at j vs ≡ some f
      → IsBacked (set j none vs) (set_at j false alive) (set_at f false valid)
  destroyed-IsBacked j f live own = record {
    holds = λ k l. elim (Bool-cases (k == j)) [
      | inl y ↦ cc (rw y at l)
      | inr n ↦
          let lives = rw n at l in
          let (g, h, v) = w.holds k lives in
          (
            g,
            pointer_at-set_other k j none vs n ∙ h,
            elim (Bool-cases (g == f)) [
              | inl y ↦
                  let same =
                    w.apart k j f lives live (h ∙ ap (λ x. some x) ((==_iff g f).0 y)) own in
                  absurd (ground (arith, n, same))
              | inr n' ↦ rw n' v
            ],
          )
    ];
    backed = λ g v. elim (Bool-cases (g == f)) [
      | inl y ↦ cc (rw y at v)
      | inr n ↦
          let (k, l, h) = w.backed g (rw n at v) in
          elim (Bool-cases (k == j)) [
            | inl y ↦
                let same : some g ≡ some f =
                  sym h ∙ ap (λ x. pointer_at x vs) ((==_iff k j).0 y) ∙ own in
                let e : g ≡ f = cc in absurd (ground (arith, n, e))
            | inr n' ↦ (k, rw n' l, pointer_at-set_other k j none vs n' ∙ h)
          ]
    ];
    apart = λ a b g l m x y.
        let (n, x') = at-emptied a j vs x in
        let (n', y') = at-emptied b j vs y in w.apart a b g (rw n at l) (rw n' at m) x' y';
  }
