-- ===== src/RefPtr/Run.antt =====
-- Every allowed sequence of calls.
use environment_check.Prelude.{
  ℕ, ◌+◌, ◌^◌, ◌<◌, ◌≡◌, ap, ◌∙◌, Option, none, some, List, [], ◌∷◌, ◌==◌, ◌&&◌, ltb, ltb→lt,
  and_both, length, arith, ==_iff,
}
use environment_check.Outcome.{returns}
use environment_check.RefCounted.{has_one_ref}
use environment_check.RefPtr.{
  pointer_at, Call, makes, constructs, copies, moves, copy_assigns, move_assigns, swaps, destroys,
  step, run,
}
use environment_check.RefPtr.References.{references, length-set, hit-le-references}
use environment_check.RefPtr.Heaps.{has_one_ref_lem}
use environment_check.RefPtr.Counted.{Held-of_hit}
use environment_check.RefPtr.Allowed.{
  is_empty_at, given-some, exists, empty, given-length, set_twice, some_inj, some_of_then,
}
use environment_check.RefPtr.Meaning.{abstract_step, abstract_run}
use environment_check.RefPtr.Refinement.{
  store_of, makes_lem, constructs_lem, copies_lem, moves_lem, copy_assigns_lem, move_assigns_lem,
  swaps_lem, destroys_lem,
}

-- Each allowed call does what the assignment of plain pointers does.
step-abstract_step :
    (c : Call) (vs : List (Option ℕ)) {ws : List (Option ℕ)}
    → length vs + 1 < 2 ^ 64
    → abstract_step c vs ≡ some ws
    → step c (store_of vs) ≡ (returns tt, store_of ws)
unfolding step abstract_step
step-abstract_step (copy_assigns i r) vs b h =
    let (g, e) = given-some (ltb i (length vs)) _ h in
    copy_assigns_lem vs b i r (exists vs i g) ∙ ap (λ us. (returns tt, store_of us)) e
step-abstract_step (destroys i) vs b h =
    let (g, e) = given-some (ltb i (length vs)) _ h in
    destroys_lem vs b i (exists vs i g) ∙ ap (λ us. (returns tt, store_of us)) e
step-abstract_step (copies i r) vs b h =
    let (g, e) = given-some (is_empty_at i vs) _ h in
    let (l, o) = empty vs i g in copies_lem vs b i r l o ∙ ap (λ us. (returns tt, store_of us)) e
step-abstract_step (makes i p) vs b h =
    let (g, e) = given-some (is_empty_at i vs && references p vs == 0) _ h in
    let (m, z) = and_both (is_empty_at i vs) (references p vs == 0) g in
    let (l, o) = empty vs i m in
    makes_lem vs b i p l o ((==_iff (references p vs) 0).0 z)
    ∙ ap (λ us. (returns tt, store_of us)) e
step-abstract_step (constructs i p) vs b h =
    let (g, e) = given-some (is_empty_at i vs && ltb 0 (references p vs)) _ h in
    let (m, z) = and_both (is_empty_at i vs) (ltb 0 (references p vs)) g in
    let (l, o) = empty vs i m in
    constructs_lem vs b i p l o (ltb→lt 0 (references p vs) z)
    ∙ ap (λ us. (returns tt, store_of us)) e
step-abstract_step (moves i r) vs b h =
    let (g, e) = given-some (is_empty_at i vs && ltb r (length vs)) _ h in
    let (m, z) = and_both (is_empty_at i vs) (ltb r (length vs)) g in
    let (l, o) = empty vs i m in
    moves_lem vs b i r l (exists vs r z) o ∙ ap (λ us. (returns tt, store_of us)) e
step-abstract_step (move_assigns i r) vs b h =
    let (g, e) = given-some (ltb i (length vs) && ltb r (length vs)) _ h in
    let (l, k) = and_both (ltb i (length vs)) (ltb r (length vs)) g in
    move_assigns_lem vs b i r (exists vs i l) (exists vs r k)
    ∙ ap (λ us. (returns tt, store_of us)) e
step-abstract_step (swaps i r) vs b h =
    let (g, e) = given-some (ltb i (length vs) && ltb r (length vs)) _ h in
    let (l, k) = and_both (ltb i (length vs)) (ltb r (length vs)) g in
    swaps_lem vs b i r (exists vs i l) (exists vs r k) ∙ ap (λ us. (returns tt, store_of us)) e

length-abstract_step :
    (c : Call) (vs : List (Option ℕ)) {ws : List (Option ℕ)}
    → abstract_step c vs ≡ some ws
    → length ws ≡ length vs
unfolding abstract_step
length-abstract_step (makes i p) vs h = given-length _ _ vs (length-set i (some p) vs) h
length-abstract_step (constructs i p) vs h = given-length _ _ vs (length-set i (some p) vs) h
length-abstract_step (copies i r) vs h = given-length _ _ vs (length-set i (pointer_at r vs) vs) h
length-abstract_step (moves i r) vs h =
    given-length _ _ vs (set_twice i r (pointer_at r vs) none vs) h
length-abstract_step (copy_assigns i r) vs h =
    given-length _ _ vs (length-set i (pointer_at r vs) vs) h
length-abstract_step (move_assigns i r) vs h =
    given-length _ _ vs (set_twice r i none (pointer_at r vs) vs) h
length-abstract_step (swaps i r) vs h =
    given-length _ _ vs (set_twice i r (pointer_at r vs) (pointer_at i vs) vs) h
length-abstract_step (destroys i) vs h = given-length _ _ vs (length-set i none vs) h

-- A program that constructs, assigns, swaps and destroys its pointers as it is allowed to, with
-- fewer than 2 ^ 64 - 1 variables, passes every check and reaches no freed object. Each variable
-- ends with the pointer that plain assignments give it, and an object exists exactly where some
-- variable points to it, with the number of these variables as its count.
pub run-abstract_run :
    (cs : List Call) (vs : List (Option ℕ)) {ws : List (Option ℕ)}
    → length vs + 1 < 2 ^ 64
    → abstract_run cs vs ≡ some ws
    → run cs (store_of vs) ≡ (returns tt, store_of ws)
unfolding run abstract_run
run-abstract_run [] vs b h = ap (λ us. (returns tt, store_of us)) (some_inj h)
run-abstract_run (c ∷ cs) vs b h =
    let (us, first, rest) = some_of_then (abstract_run cs) (abstract_step c vs) h in
    let same = length-abstract_step c vs first in
    rw (step-abstract_step c vs b first) (run-abstract_run cs us (omega (arith, same)) rest)

-- After such a program a pointer that is not null points to an object, and HasOneRef answers
-- whether it is the only variable that points there.
has_one_ref-run :
    (cs : List Call) (vs : List (Option ℕ)) {ws : List (Option ℕ)} (i p : ℕ)
    → length vs + 1 < 2 ^ 64
    → abstract_run cs vs ≡ some ws
    → pointer_at i ws ≡ some p
    → (has_one_ref p (run cs (store_of vs)).1.heap).0 ≡ returns (references p ws == 1)
has_one_ref-run cs vs {ws} i p b h e =
    rw (run-abstract_run cs vs b h) (has_one_ref_lem (λ q. references q ws) p held)
  where
    held : 0 < references p ws
    held =
        rw e at
          (Held-of_hit (pointer_at i ws) (λ q. references q ws) (λ q. hit-le-references q i ws))
