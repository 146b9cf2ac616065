-- ===== src/SharedPtr/Run.antt =====
-- Every allowed sequence of calls of SharedPtr.
use environment_check.Prelude.{
  ℕ, ◌+◌, ◌^◌, ◌<◌, ◌≡◌, ap, ◌∙◌, inl, inr, Option, none, some, List, [], ◌∷◌, ◌==◌, ◌&&◌, ltb,
  and_both, length, if◌then◌else◌, arith, ==_iff, Bool-cases,
}
use environment_check.Outcome.{returns, fails, undefined_behaviour}
use environment_check.RefPtr.{pointer_at, set}
use environment_check.RefPtr.References.{references, length-set}
use environment_check.RefPtr.Allowed.{
  is_empty_at, given, then_steps, given-some, exists, empty, given-length, set_twice, some_inj,
  some_of_then,
}
use environment_check.SharedPtr.{
  copy_assign, Call, wraps, copies, moves, copy_assigns, move_assigns, resets, step, run,
}
use environment_check.SharedPtr.Refinement.{
  store_of, is_held_beside, wraps_lem, copies_lem, moves_lem, copy_assigns_lem, copy_assigns_fail,
  move_assigns_lem, resets_lem,
}

-- The calls as assignments of plain pointers; `none` where the call is not allowed: a constructor
-- runs on a variable in use, a new object gets the address of one in use, or a copy assignment
-- copies null or an object that no other variable holds.
unfoldable pub meaning_step : Call → List (Option ℕ) → Option (List (Option ℕ))
meaning_step (wraps i p) vs = given (is_empty_at i vs && references p vs == 0) (set i (some p) vs)
meaning_step (copies i r) vs = given (is_empty_at i vs) (set i (pointer_at r vs) vs)
meaning_step (moves i r) vs =
    given (is_empty_at i vs && ltb r (length vs)) (set r none (set i (pointer_at r vs) vs))
meaning_step (copy_assigns i r) vs =
    given (ltb i (length vs) && is_held_beside i (pointer_at r vs) vs) (set i (pointer_at r vs) vs)
meaning_step (move_assigns i r) vs =
    given (ltb i (length vs) && ltb r (length vs)) (set r none (set i (pointer_at r vs) vs))
meaning_step (resets i) vs = given (ltb i (length vs)) (set i none vs)

unfoldable pub meaning_run : List Call → List (Option ℕ) → Option (List (Option ℕ))
meaning_run [] vs = some vs
meaning_run (c ∷ cs) vs = then_steps (meaning_run cs) (meaning_step c vs)

step-meaning_step :
    (c : Call) (vs : List (Option ℕ)) {ws : List (Option ℕ)}
    → length vs + 1 < 2 ^ 64
    → meaning_step c vs ≡ some ws
    → step c (store_of vs) ≡ (returns tt, store_of ws)
unfolding step meaning_step
step-meaning_step (wraps i p) vs b h =
    let (g, e) = given-some (is_empty_at i vs && references p vs == 0) _ h in
    let (m, z) = and_both (is_empty_at i vs) (references p vs == 0) g in
    let (l, o) = empty vs i m in
    wraps_lem vs b i p l o ((==_iff (references p vs) 0).0 z)
    ∙ ap (λ us. (returns tt, store_of us)) e
step-meaning_step (copies i r) vs b h =
    let (g, e) = given-some (is_empty_at i vs) _ h in
    let (l, o) = empty vs i g in copies_lem vs b i r l o ∙ ap (λ us. (returns tt, store_of us)) e
step-meaning_step (moves i r) vs b h =
    let (g, e) = given-some (is_empty_at i vs && ltb r (length vs)) _ h in
    let (m, z) = and_both (is_empty_at i vs) (ltb r (length vs)) g in
    let (l, o) = empty vs i m in
    moves_lem vs b i r l (exists vs r z) o ∙ ap (λ us. (returns tt, store_of us)) e
step-meaning_step (copy_assigns i r) vs b h =
    let (g, e) = given-some (ltb i (length vs) && is_held_beside i (pointer_at r vs) vs) _ h in
    let (l, k) = and_both (ltb i (length vs)) (is_held_beside i (pointer_at r vs) vs) g in
    copy_assigns_lem vs b i r (exists vs i l) k ∙ ap (λ us. (returns tt, store_of us)) e
step-meaning_step (move_assigns i r) vs b h =
    let (g, e) = given-some (ltb i (length vs) && ltb r (length vs)) _ h in
    let (l, k) = and_both (ltb i (length vs)) (ltb r (length vs)) g in
    move_assigns_lem vs b i r (exists vs i l) (exists vs r k)
    ∙ ap (λ us. (returns tt, store_of us)) e
step-meaning_step (resets i) vs b h =
    let (g, e) = given-some (ltb i (length vs)) _ h in
    resets_lem vs b i (exists vs i g) ∙ ap (λ us. (returns tt, store_of us)) e

length-meaning_step :
    (c : Call) (vs : List (Option ℕ)) {ws : List (Option ℕ)}
    → meaning_step c vs ≡ some ws
    → length ws ≡ length vs
unfolding meaning_step
length-meaning_step (wraps i p) vs h = given-length _ _ vs (length-set i (some p) vs) h
length-meaning_step (copies i r) vs h = given-length _ _ vs (length-set i (pointer_at r vs) vs) h
length-meaning_step (moves i r) vs h =
    given-length _ _ vs (set_twice i r (pointer_at r vs) none vs) h
length-meaning_step (copy_assigns i r) vs h =
    given-length _ _ vs (length-set i (pointer_at r vs) vs) h
length-meaning_step (move_assigns i r) vs h =
    given-length _ _ vs (set_twice i r (pointer_at r vs) none vs) h
length-meaning_step (resets i) vs h = given-length _ _ vs (length-set i none vs) h

-- A program that wraps, copies, moves, assigns and resets its pointers as it is allowed to, with
-- fewer than 2 ^ 64 - 1 variables, reaches no freed block. Each variable ends with the pointer that
-- plain assignments give it, and an object is there exactly where some variable points to it, with
-- the number of these variables as its count.
pub run-meaning_run :
    (cs : List Call) (vs : List (Option ℕ)) {ws : List (Option ℕ)}
    → length vs + 1 < 2 ^ 64
    → meaning_run cs vs ≡ some ws
    → run cs (store_of vs) ≡ (returns tt, store_of ws)
unfolding run meaning_run
run-meaning_run [] vs b h = ap (λ us. (returns tt, store_of us)) (some_inj h)
run-meaning_run (c ∷ cs) vs b h =
    let (us, first, rest) = some_of_then (meaning_run cs) (meaning_step c vs) h in
    let same = length-meaning_step c vs first in
    rw (step-meaning_step c vs b first) (run-meaning_run cs us (omega (arith, same)) rest)

-- Where the counts are those of the pointers, a copy assignment returns exactly if a variable other
-- than the one assigned to holds the object. It fails where it copies null, and where a variable
-- that alone holds its object is assigned to itself.
pub copy_assign-is_held_beside :
    (vs : List (Option ℕ)) (i r : ℕ)
    → length vs + 1 < 2 ^ 64
    → i < length vs
    → (copy_assign i r (store_of vs)).0
      ≡ (if is_held_beside i (pointer_at r vs) vs then returns tt else fails undefined_behaviour)
copy_assign-is_held_beside vs i r b h = elim (Bool-cases (is_held_beside i (pointer_at r vs) vs)) [
  | inl e ↦ rw e (ap (λ x. x.0) (copy_assigns_lem vs b i r h e))
  | inr e ↦ rw e (copy_assigns_fail vs b i r e)
]
