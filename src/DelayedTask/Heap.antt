-- ===== src/DelayedTask/Heap.antt =====
-- The heap of tasks: it stays in order, and a push adds exactly its task.
use mathlib.Core.List.Perm
use environment_check.Prelude.{
  ◌+◌, ◌≡◌, false, [], ◌∷◌, Perm, All, All-imp, length, arith, Bool-cases, inl, inr,
}
use environment_check.DelayedTask.{DelayedTask, DelayedTaskQueue, push, ◌>◌}
use environment_check.DelayedTask.Order.{not_greater_trans, not_greater_of_greater}

-- `a` may leave before `b`.
abbrev pub Before : DelayedTask → DelayedTask → Type 0
Before a b = (a > b) ≡ false

-- Each task may leave before all that stand behind it.
abbrev pub IsHeap : DelayedTaskQueue → Type 0
IsHeap [] = Unit
IsHeap (x ∷ xs) = All (Before x) xs × IsHeap xs

pub All-push {ℓ} :
    (P : DelayedTask → Type ℓ) (t : DelayedTask) (xs : DelayedTaskQueue)
    → P t
    → All P xs
    → All P (push t xs)
unfolding push
All-push P t [] h hs = (h, tt)
All-push P t (x ∷ xs) h hs = elim (Bool-cases (x > t)) [
  | inl e ↦ rw e (h, hs)
  | inr e ↦ rw e (hs.0, All-push P t xs h hs.1)
]

pub push-IsHeap : (t : DelayedTask) (xs : DelayedTaskQueue) → IsHeap xs → IsHeap (push t xs)
unfolding push
push-IsHeap t [] h = (tt, tt)
push-IsHeap t (x ∷ xs) h = elim (Bool-cases (x > t)) [
  | inl e ↦
      let p = not_greater_of_greater x t e in
      rw e ((p, All-imp (Before x) (λ y. not_greater_trans t x y p) xs h.0), h)
  | inr e ↦ rw e (All-push (Before x) t xs e h.0, push-IsHeap t xs h.1)
]

pub push-perm : (t : DelayedTask) (xs : DelayedTaskQueue) → Perm (push t xs) (t ∷ xs)
unfolding push
push-perm t [] = Perm.refl _
push-perm t (x ∷ xs) = elim (Bool-cases (x > t)) [
  | inl e ↦ rw e (Perm.refl _)
  | inr e ↦ rw e (Perm.trans (Perm.cons x (push-perm t xs)) (Perm.swap _ _ _))
]

pub length-push : (t : DelayedTask) (xs : DelayedTaskQueue) → length (push t xs) ≡ length xs + 1
unfolding push
length-push t [] = omega arith
length-push t (x ∷ xs) = ground (arith, length-push t xs)
