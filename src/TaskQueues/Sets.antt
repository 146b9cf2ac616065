-- ===== src/TaskQueues/Sets.antt =====
-- `insert` and `erase` of a set of queue ids.
use mathlib.Core.Path.{subst}
use environment_check.Prelude.{
  ℕ, ◌<◌, ◌≡◌, refl, sym, ap, ◌∙◌, true, false, List, [], ◌∷◌, ◌==◌, ◌||◌, ◌&&◌, not, All, contains,
  Bool-cases, ==_iff, inl, inr, arith, ltb,
}
use environment_check.TaskQueues.Entries.{insert, erase}
use environment_check.TaskQueues.Consistent.{IsAscending}

pub contains-insert : (x a : ℕ) (xs : List ℕ) → contains x (insert a xs) ≡ (x == a || contains x xs)
unfolding insert
contains-insert x a [] = refl
contains-insert x a (y ∷ xs) = ground (arith, contains-insert x a xs)

pub contains-erase :
    (x a : ℕ) (xs : List ℕ) → contains x (erase a xs) ≡ (not (x == a) && contains x xs)
unfolding erase
contains-erase x a [] = ground arith
contains-erase x a (y ∷ xs) = ground (arith, contains-erase x a xs)

All-insert : (n a : ℕ) (xs : List ℕ) → n < a → All (λ y. n < y) xs → All (λ y. n < y) (insert a xs)
unfolding insert
All-insert n a [] h hs = (h, tt)
All-insert n a (x ∷ xs) h hs = elim (Bool-cases (ltb a x)) [
  | inl l ↦ rw l (h, hs)
  | inr l ↦ elim (Bool-cases (a == x)) [
    | inl y ↦ rw (l, y) hs
    | inr y ↦ rw (l, y) (hs.0, All-insert n a xs h hs.1)
  ]
]

All-below : (n a : ℕ) (xs : List ℕ) → n < a → All (λ y. a < y) xs → All (λ y. n < y) xs
All-below n a [] h hs = tt
All-below n a (x ∷ xs) h hs = (omega arith, All-below n a xs h hs.1)

pub insert-IsAscending : (a : ℕ) (xs : List ℕ) → IsAscending xs → IsAscending (insert a xs)
unfolding insert
insert-IsAscending a [] h = (tt, tt)
insert-IsAscending a (x ∷ xs) h = elim (Bool-cases (ltb a x)) [
  | inl l ↦ let a<x : a < x = ground arith in rw l ((a<x, All-below a x xs a<x h.0), h)
  | inr l ↦ elim (Bool-cases (a == x)) [
    | inl y ↦ rw (l, y) h
    | inr y ↦ rw (l, y) (All-insert x a xs (ground arith) h.0, insert-IsAscending a xs h.1)
  ]
]

All-erase : (n a : ℕ) (xs : List ℕ) → All (λ y. n < y) xs → All (λ y. n < y) (erase a xs)
unfolding erase
All-erase n a [] hs = tt
All-erase n a (x ∷ xs) hs = elim (Bool-cases (a == x)) [
  | inl y ↦ rw y (All-erase n a xs hs.1)
  | inr y ↦ rw y (hs.0, All-erase n a xs hs.1)
]

pub erase-IsAscending : (a : ℕ) (xs : List ℕ) → IsAscending xs → IsAscending (erase a xs)
unfolding erase
erase-IsAscending a [] h = tt
erase-IsAscending a (x ∷ xs) h = elim (Bool-cases (a == x)) [
  | inl y ↦ rw y (erase-IsAscending a xs h.1)
  | inr y ↦ rw y (All-erase x a xs h.0, erase-IsAscending a xs h.1)
]

-- Erasing an id that is not there changes nothing.
erase_absent : (a : ℕ) (xs : List ℕ) → contains a xs ≡ false → erase a xs ≡ xs
unfolding erase
erase_absent a [] c = refl
erase_absent a (x ∷ xs) c = ground (arith, erase_absent a xs)

pub erase-insert : (a : ℕ) (xs : List ℕ) → contains a xs ≡ false → erase a (insert a xs) ≡ xs
unfolding insert erase
erase-insert a [] c = ground arith
erase-insert a (x ∷ xs) c = ground (arith, erase-insert a xs, erase_absent a xs)

above_not_contains : (a : ℕ) (xs : List ℕ) → All (λ y. a < y) xs → contains a xs ≡ false
above_not_contains a [] h = refl
above_not_contains a (y ∷ xs) h = ground (arith, above_not_contains a xs h.1)

insert_below : (a : ℕ) (xs : List ℕ) → All (λ y. a < y) xs → insert a xs ≡ a ∷ xs
unfolding insert
insert_below a [] h = refl
insert_below a (x ∷ xs) h = ground arith

above_of_contains : (n a : ℕ) (xs : List ℕ) → All (λ y. n < y) xs → contains a xs ≡ true → n < a
above_of_contains n a [] h c = cc
above_of_contains n a (x ∷ xs) h c = ground (arith, above_of_contains n a xs h.1)

pub insert-erase :
    (a : ℕ) (xs : List ℕ) → IsAscending xs → contains a xs ≡ true → insert a (erase a xs) ≡ xs
unfolding erase insert
insert-erase a [] up c = cc
insert-erase a (x ∷ xs) up c = elim (Bool-cases (a == x)) [
  | inl y ↦
      let a≡x = (==_iff a x).0 y in
      let above : All (λ w. a < w) xs = subst (λ z. All (λ w. z < w) xs) (sym a≡x) up.0 in
      rw (y, erase_absent a xs (above_not_contains a xs above))
        (insert_below a xs above ∙ ap (λ z. z ∷ xs) a≡x)
  | inr n ↦
      let c' : contains a xs ≡ true = ground arith in
      let x<a = above_of_contains x a xs up.0 c' in
      rw (n, insert) (ground (arith, insert-erase a xs up.1 c'))
]
