-- ===== src/WeakPtr.antt =====
-- app/src/main/cpp/memory/weak_ptr.h, weak_ptr_internal.h and weak_ptr_internal.cc. A weak pointer
-- and a factory are variables with a number; `flags` has their `flag_` members and the flags. The
-- checks of the thread are left out.
pub mod Backed
pub mod Meaning
pub mod Steps
pub mod Run
use environment_check.Prelude.{
  ℕ, Option, none, some, Bool, true, false, List, [], ◌∷◌, is_some, ◌==◌, if◌then◌else◌, set_at,
}
use environment_check.Outcome.{Outcome, returns, fails, check, undefined_behaviour}
use environment_check.Exec.{Exec, pure, lift, reads, modify, ◌>>=◌, ◌>>◌}
use environment_check.RefPtr.{
  Store, pointer_at, copy_construct, move_construct, copy_assign, move_assign, destroy, clear,
  make_ref_counted,
}

-- `is_valid` of a flag by its address, and `ptr_` of each variable.
pub record WeakPtrs : Type 0 where
  pub flags : Store
  pub is_valid : ℕ → Bool
  pub ptr : ℕ → Option ℕ

abbrev pub on_flags : Exec Store (Unit {0}) → Exec WeakPtrs (Unit {0})
on_flags m s = let (r, flags) = m s.flags in (r, record s { flags = flags })

abbrev pub flag_of : ℕ → Exec WeakPtrs (Option ℕ)
flag_of i = reads (λ s. returns (pointer_at i s.flags.pointers))

abbrev pub set_ptr : ℕ → Option ℕ → Exec WeakPtrs (Unit {0})
set_ptr i v = modify (λ s. record s { ptr = set_at i v s.ptr })

abbrev pub ptr_of : ℕ → Exec WeakPtrs (Option ℕ)
ptr_of i = reads (λ s. returns (s.ptr i))

-- A read of `is_valid_` through a pointer.
abbrev pub validity : WeakPtrs → Option ℕ → Outcome Bool
validity s none = fails undefined_behaviour
validity s (some f) =
    if is_some (s.flags.heap f) then returns (s.is_valid f) else fails undefined_behaviour

-- `~WeakPtrFlag`, where the release of a variable's old flag has deleted it.
abbrev pub flag_check : Option ℕ → WeakPtrs → Outcome (Unit {0})
flag_check none s = returns tt
flag_check (some f) s =
    if is_some (s.flags.heap f) then returns tt else check (if s.is_valid f then false else true)

abbrev pub destroyed : Option ℕ → Exec WeakPtrs (Unit {0})
destroyed old = reads (flag_check old)

-- `WeakPtrFlag::Invalidate`.
unfoldable pub invalidate : Option ℕ → Exec WeakPtrs (Unit {0})
invalidate none = lift (fails undefined_behaviour)
invalidate (some f) = do
  valid ← reads (λ s. validity s (some f))
  lift (check valid)
  modify (λ s. record s { is_valid = set_at f false s.is_valid })

unfoldable pub copy_construct_weak : ℕ → ℕ → Exec WeakPtrs (Unit {0})
copy_construct_weak i r = do v ← ptr_of r; set_ptr i v; on_flags (copy_construct i r)

unfoldable pub move_construct_weak : ℕ → ℕ → Exec WeakPtrs (Unit {0})
move_construct_weak i r = do v ← ptr_of r; set_ptr i v; on_flags (move_construct i r)

unfoldable pub destroy_weak : ℕ → Exec WeakPtrs (Unit {0})
destroy_weak i = do old ← flag_of i; on_flags (destroy i); destroyed old

unfoldable pub copy_assign_weak : ℕ → ℕ → Exec WeakPtrs (Unit {0})
copy_assign_weak i r = do
  v ← ptr_of r
  set_ptr i v
  old ← flag_of i
  on_flags (copy_assign i r)
  destroyed old

unfoldable pub move_assign_weak : ℕ → ℕ → Exec WeakPtrs (Unit {0})
move_assign_weak i r = do
  v ← ptr_of r
  set_ptr i v
  old ← flag_of i
  on_flags (move_assign i r)
  destroyed old

-- `flag_ = nullptr`; `ptr_` stays.
unfoldable pub reset : ℕ → Exec WeakPtrs (Unit {0})
reset i = do old ← flag_of i; on_flags (clear i); destroyed old

-- `operator bool`, and `get`.
unfoldable pub has_value : ℕ → Exec WeakPtrs Bool
has_value i = do flag ← flag_of i; if is_some flag then reads (λ s. validity s flag) else pure false

unfoldable pub get : ℕ → Exec WeakPtrs (Option ℕ)
unfolding has_value
get i = do valid ← has_value i; if valid then ptr_of i else pure none

-- `operator*` and `operator->`.
unfoldable pub dereference : ℕ → Exec WeakPtrs (Option ℕ)
unfolding get has_value
dereference i = do valid ← has_value i; lift (check valid); get i

-- `WeakPtrFactory(ptr)`, whose flag gets the address `p`.
unfoldable pub new_factory : ℕ → ℕ → Option ℕ → Exec WeakPtrs (Unit {0})
new_factory j p ptr = do
  set_ptr j ptr
  modify (λ s. record s { is_valid = set_at p true s.is_valid })
  on_flags (make_ref_counted j p)
  lift (check (is_some ptr))

unfoldable pub destroy_factory : ℕ → Exec WeakPtrs (Unit {0})
unfolding invalidate
destroy_factory j = do flag ← flag_of j; invalidate flag; on_flags (destroy j); destroyed flag

-- `GetWeakPtr` of the factory `j`: a clone of its flag moves into the weak pointer `i`.
unfoldable pub get_weak_ptr : ℕ → ℕ → Exec WeakPtrs (Unit {0})
get_weak_ptr i j = do v ← ptr_of j; set_ptr i v; on_flags (copy_construct i j)

pub data WeakCall : Type 0 where
  makes_factory : ℕ → ℕ → ℕ → WeakCall
  destroys_factory : ℕ → WeakCall
  gets copies moves copy_assigns move_assigns : ℕ → ℕ → WeakCall
  resets destroys : ℕ → WeakCall

unfoldable pub weak_step : WeakCall → Exec WeakPtrs (Unit {0})
unfolding new_factory destroy_factory get_weak_ptr copy_construct_weak move_construct_weak
    copy_assign_weak move_assign_weak reset destroy_weak
weak_step (makes_factory j p v) = new_factory j p (some v)
weak_step (destroys_factory j) = destroy_factory j
weak_step (gets i j) = get_weak_ptr i j
weak_step (copies i r) = copy_construct_weak i r
weak_step (moves i r) = move_construct_weak i r
weak_step (copy_assigns i r) = copy_assign_weak i r
weak_step (move_assigns i r) = move_assign_weak i r
weak_step (resets i) = reset i
weak_step (destroys i) = destroy_weak i

unfoldable pub weak_run : List WeakCall → Exec WeakPtrs (Unit {0})
unfolding weak_step
weak_run [] = pure tt
weak_run (c ∷ cs) = do weak_step c; weak_run cs
