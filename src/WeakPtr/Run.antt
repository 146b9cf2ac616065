-- ===== src/WeakPtr/Run.antt =====
-- Every allowed sequence of calls, and what a weak pointer answers after it.
use mathlib.Core.Path.{subst}
use environment_check.Prelude.{
  ℕ, ◌+◌, ◌^◌, ◌<◌, ◌≡◌, refl, ap, ◌⊎◌, inl, inr, Option, none, some, Bool, true, false, List, [],
  ◌∷◌, length, ◌==◌, ◌&&◌, not, ltb, ltb→lt, ==_iff, and_both, set_at, zero, suc, ◌≢◌, Option-cases,
  Bool-cases, arith,
}
use environment_check.Outcome.{returns}
use environment_check.RefPtr.{pointer_at, set}
use environment_check.RefPtr.References.{references, length-set}
use environment_check.RefPtr.Allowed.{is_empty_at, empty, exists, set_twice}
use environment_check.WeakPtr.{
  WeakPtrs, WeakCall, makes_factory, destroys_factory, gets, copies, moves, copy_assigns,
  move_assigns, resets, destroys, weak_step, weak_run, get, has_value,
}
use environment_check.WeakPtr.Meaning.{
  Weak, allowed, is_weak, abstract_weak_step, then_weak, abstract_weak_run,
}
use environment_check.WeakPtr.Backed.{
  IsBacked, Shares, emptied-Shares, copied-Shares, made-Shares, at-emptied,
}
use environment_check.WeakPtr.Steps.{
  code_of, held, copied_lem, moved_lem, copy_assigned_lem, move_assigned_lem, reset_lem,
  weak_destroyed_lem, factory_made_lem, got_lem, factory_destroyed_lem,
}

allowed-some : (b : Bool) (us : Weak) {a : Weak} → allowed b us ≡ some a → (b ≡ true) × (us ≡ a)
allowed-some true us h = (refl, cc)
allowed-some false us h = cc

weak : (i : ℕ) (a : Weak) → is_weak i a ≡ true → (i < length a.flags) × (a.alive i ≡ false)
weak i a h =
    let (l, n) = and_both (ltb i (length a.flags)) (not (a.alive i)) h in
    (ltb→lt i (length a.flags) l, ground (arith, n))

-- The code's state: the flags that are valid are those of living factories.
abbrev Means : Weak → (ℕ → Bool) → Type 0
Means a valid = IsBacked a.flags a.alive valid × Shares a.flags a.ptr

abbrev Steps : WeakCall → Weak → (ℕ → Bool) → Weak → Type 0
Steps c a valid b =
    (valid' : ℕ → Bool) × (weak_step c (code_of a.flags valid a.ptr)
      ≡ (returns tt, code_of b.flags valid' b.ptr))
    × Means b valid'
    × (length b.flags ≡ length a.flags)

by_step :
    (c : WeakCall) (a : Weak) (valid : ℕ → Bool) {u b : Weak}
    → u ≡ b
    → Steps c a valid u
    → Steps c a valid b
by_step c a valid e = subst (λ b. Steps c a valid b) e

copied :
    (a : Weak) (i r : ℕ)
    → Shares a.flags a.ptr
    → Shares (set i (pointer_at r a.flags) a.flags) (set_at i (a.ptr r) a.ptr)
copied a i r sh = copied-Shares i r a.flags a.flags a.ptr (λ n f k. k) sh

step-Means :
    (c : WeakCall) (a : Weak) (valid : ℕ → Bool) {b : Weak}
    → length a.flags + 1 < 2 ^ 64
    → Means a valid
    → abstract_weak_step c a ≡ some b
    → Steps c a valid b
unfolding weak_step abstract_weak_step
step-Means (copies i r) a valid small (w, sh) h =
    let (g, e) = allowed-some (is_empty_at i a.flags && is_weak r a) _ h in
    let (m, _) = and_both (is_empty_at i a.flags) (is_weak r a) g in
    let (l, o) = empty a.flags i m in
    let (eq, w') = copied_lem a.flags a.alive valid w a.ptr small i r l o in
    by_step (copies i r) a valid e
      (valid, eq, (w', copied a i r sh), length-set i (pointer_at r a.flags) a.flags)
step-Means (gets i j) a valid small (w, sh) h =
    let (g, e) = allowed-some (is_empty_at i a.flags && a.alive j) _ h in
    let (m, _) = and_both (is_empty_at i a.flags) (a.alive j) g in
    let (l, o) = empty a.flags i m in
    let (eq, w') = got_lem a.flags a.alive valid w a.ptr small i j l o in
    by_step (gets i j) a valid e
      (valid, eq, (w', copied a i j sh), length-set i (pointer_at j a.flags) a.flags)
step-Means (moves i r) a valid small (w, sh) h =
    let (g, e) = allowed-some (is_empty_at i a.flags && is_weak r a) _ h in
    let (m, n) = and_both (is_empty_at i a.flags) (is_weak r a) g in
    let (l, o) = empty a.flags i m in
    let (k, dead) = weak r a n in
    let us = set i (pointer_at r a.flags) a.flags in
    let (eq, w') = moved_lem a.flags a.alive valid w a.ptr small i r l k o dead in
    by_step (moves i r) a valid e (
      valid,
      eq,
      (w', emptied-Shares r us (set_at i (a.ptr r) a.ptr) (copied a i r sh)),
      set_twice i r (pointer_at r a.flags) none a.flags,
    )
step-Means (copy_assigns i r) a valid small (w, sh) h =
    let (g, e) = allowed-some (is_weak i a && is_weak r a) _ h in
    let (m, _) = and_both (is_weak i a) (is_weak r a) g in
    let (l, dead) = weak i a m in
    let (eq, w') = copy_assigned_lem a.flags a.alive valid w a.ptr small i r l dead in
    by_step (copy_assigns i r) a valid e
      (valid, eq, (w', copied a i r sh), length-set i (pointer_at r a.flags) a.flags)
step-Means (move_assigns i r) a valid small (w, sh) h =
    let (g, e) = allowed-some (is_weak i a && is_weak r a) _ h in
    let (m, n) = and_both (is_weak i a) (is_weak r a) g in
    let (l, dead) = weak i a m in
    let (k, dead') = weak r a n in
    let (eq, w') = move_assigned_lem a.flags a.alive valid w a.ptr small i r l k dead dead' in
    let sh' =
      copied-Shares i r (set r none a.flags) a.flags a.ptr (λ n f q. (at-emptied n r a.flags q).1)
        sh in
    by_step (move_assigns i r) a valid e
      (valid, eq, (w', sh'), set_twice r i none (pointer_at r a.flags) a.flags)
step-Means (resets i) a valid small (w, sh) h =
    let (g, e) = allowed-some (is_weak i a) _ h in
    let (l, dead) = weak i a g in
    let (eq, w') = reset_lem a.flags a.alive valid w a.ptr small i l dead in
    by_step (resets i) a valid e
      (valid, eq, (w', emptied-Shares i a.flags a.ptr sh), length-set i none a.flags)
step-Means (destroys i) a valid small (w, sh) h =
    let (g, e) = allowed-some (is_weak i a) _ h in
    let (l, dead) = weak i a g in
    let (eq, w') = weak_destroyed_lem a.flags a.alive valid w a.ptr small i l dead in
    by_step (destroys i) a valid e
      (valid, eq, (w', emptied-Shares i a.flags a.ptr sh), length-set i none a.flags)
step-Means (makes_factory j p v) a valid small (w, sh) h =
    let (g, e) = allowed-some (is_empty_at j a.flags && references p a.flags == 0) _ h in
    let (m, z) = and_both (is_empty_at j a.flags) (references p a.flags == 0) g in
    let (l, o) = empty a.flags j m in
    let fresh = (==_iff (references p a.flags) 0).0 z in
    let (eq, w') = factory_made_lem a.flags a.alive valid w a.ptr small j p v l o fresh in
    by_step (makes_factory j p v) a valid e (
      set_at p true valid,
      eq,
      (w', made-Shares j p (some v) a.flags a.ptr fresh sh),
      length-set j (some p) a.flags,
    )
step-Means (destroys_factory j) a valid small (w, sh) h =
    let (g, e) = allowed-some (ltb j (length a.flags) && a.alive j) _ h in
    let (l, live) = and_both (ltb j (length a.flags)) (a.alive j) g in
    let (f, (eq, w')) =
      factory_destroyed_lem a.flags a.alive valid w a.ptr small j (exists a.flags j l) live in
    by_step (destroys_factory j) a valid e
      (set_at f false valid, eq, (w', emptied-Shares j a.flags a.ptr sh), length-set j none a.flags)

weak_of_then :
    (f : Weak → Option Weak) (o : Option Weak) {b : Weak}
    → then_weak f o ≡ some b
    → (a : Weak) × (o ≡ some a) × (f a ≡ some b)
weak_of_then f none h = cc
weak_of_then f (some a) h = (a, refl, h)

run-Means :
    (cs : List WeakCall) (a : Weak) (valid : ℕ → Bool) {b : Weak}
    → length a.flags + 1 < 2 ^ 64
    → Means a valid
    → abstract_weak_run cs a ≡ some b
    → (valid' : ℕ → Bool) × (weak_run cs (code_of a.flags valid a.ptr)
        ≡ (returns tt, code_of b.flags valid' b.ptr))
      × Means b valid'
unfolding weak_run abstract_weak_run
run-Means [] a valid small m h =
    subst
      (λ b.
        (valid' : ℕ → Bool) × (weak_run [] (code_of a.flags valid a.ptr)
          ≡ (returns tt, code_of b.flags valid' b.ptr))
        × Means b valid')
      (inj h) (valid, refl, m)
  where
    inj : {u v : Weak} → some u ≡ some v → u ≡ v
    inj e = cc
run-Means (c ∷ cs) a valid small m h =
    let (a', first, rest) = weak_of_then (abstract_weak_run cs) (abstract_weak_step c a) h in
    let (valid', eq, m', same) = step-Means c a valid small m first in
    let (valid'', eq', m'') = run-Means cs a' valid' (omega (arith, same)) m' rest in
    (valid'', rw eq eq', m'')

-- Variables that hold nothing.
abbrev pub blanks : ℕ → List (Option ℕ)
blanks zero = []
blanks (suc n) = none ∷ blanks n

abbrev pub blank : ℕ → Weak
blank n = record { flags = blanks n; alive = λ _. false; ptr = λ _. none }

length-blanks : (n : ℕ) → length (blanks n) ≡ n
length-blanks zero = refl
length-blanks (suc n) = omega (arith, length-blanks n)

pointer_at-blanks : (a n : ℕ) → pointer_at a (blanks n) ≡ none
unfolding pointer_at
pointer_at-blanks a zero = refl
pointer_at-blanks zero (suc n) = refl
pointer_at-blanks (suc a) (suc n) = pointer_at-blanks a n

blank-Means : (n : ℕ) → Means (blank n) (λ _. false)
blank-Means n = (
  record { holds = λ j l. cc; backed = λ f v. cc; apart = λ j k f l m g h. cc },
  λ a b f g h. refl,
)

-- A weak pointer to an object whose factory lives, or to one whose factory is gone.
abbrev pub Answers : Weak → ℕ → WeakPtrs → Type 0
Answers b i s =
    ((pointer_at i b.flags ≡ none) × (get i s ≡ (returns none, s)))
    ⊎ ((f j : ℕ) × (pointer_at i b.flags ≡ some f)
        × (b.alive j ≡ true)
        × (pointer_at j b.flags ≡ some f)
        × (get i s ≡ (returns (b.ptr j), s)))
    ⊎ ((f : ℕ) × (pointer_at i b.flags ≡ some f)
        × ((j : ℕ) → b.alive j ≡ true → pointer_at j b.flags ≢ some f)
        × (get i s ≡ (returns none, s)))

get-Answers :
    (b : Weak) (valid : ℕ → Bool) (i : ℕ)
    → Means b valid
    → Answers b i (code_of b.flags valid b.ptr)
unfolding get has_value
get-Answers b valid i (w, sh) = elim (Option-cases (pointer_at i b.flags)) [
  | inl h ↦ inl (h, rw h)
  | inr (f, h) ↦ elim (Bool-cases (valid f)) [
    | inl v ↦
        let (j, l, g) = w.backed f v in
        inr (
          inl (
            f,
            j,
            h,
            l,
            g,
            rw (h, held b.flags i f h, v)
                (ap (λ o. (returns o, code_of b.flags valid b.ptr)) (sh i j f h g)),
          ))
    | inr v ↦ inr (
        inr (
          f,
          h,
          (λ j l g. let (f', h', v') = w.holds j l in let e : f' ≡ f = cc in cc (ap valid e)),
          rw (h, held b.flags i f h, v),
        ))
  ]
]

-- A program that makes and destroys factories, gets weak pointers from them, and copies, moves,
-- assigns, resets and destroys weak pointers as it is allowed to, with fewer than 2 ^ 64 - 1
-- variables, passes every check and reaches no freed flag. Then `get` of a weak pointer answers
-- with the object of the factory that it came from, if that factory lives, and with null if it is
-- gone.
pub weak_run-Answers :
    (cs : List WeakCall) (n i : ℕ) {b : Weak}
    → n + 1 < 2 ^ 64
    → abstract_weak_run cs (blank n) ≡ some b
    → (s : WeakPtrs) × (weak_run cs (code_of (blanks n) (λ _. false) (λ _. none)) ≡ (returns tt, s))
      × Answers b i s
weak_run-Answers cs n i {b} small h =
    let (valid, eq, m) =
      run-Means cs (blank n) (λ _. false) (omega (arith, length-blanks n)) (blank-Means n) h in
    (code_of b.flags valid b.ptr, eq, get-Answers b valid i m)
