-- ===== src/RefPtr.antt =====
-- app/src/main/cpp/memory/ref_ptr.h and ref_ptr_internal.h. The store has the heap and the
-- pointers of a program, each in a variable with a number.
pub mod References
pub mod Counted
pub mod Allowed
pub mod Meaning
pub mod Heaps
pub mod Refinement
pub mod Run
use environment_check.Prelude.{
  ℕ, zero, suc, Option, none, some, Bool, true, false, List, [], ◌∷◌, ◌==◌, if◌then◌else◌, set_at,
}
use environment_check.Outcome.{returns}
use environment_check.Exec.{Exec, pure, reads, modify, ◌>>=◌, ◌>>◌}
use environment_check.RefCounted.{Heap, new_ref_counted, add_ref, release, adopt}

pub record Store : Type 0 where
  pub heap : Heap
  pub pointers : List (Option ℕ)

-- A variable that does not exist reads as null.
unfoldable pub pointer_at : ℕ → List (Option ℕ) → Option ℕ
pointer_at i [] = none
pointer_at zero (v ∷ vs) = v
pointer_at (suc i) (v ∷ vs) = pointer_at i vs

unfoldable pub set : ℕ → Option ℕ → List (Option ℕ) → List (Option ℕ)
set i v [] = []
set zero v (w ∷ vs) = v ∷ vs
set (suc i) v (w ∷ vs) = w ∷ set i v vs

abbrev pub on_heap : Exec Heap (Unit {0}) → Exec Store (Unit {0})
on_heap m s = let (r, h) = m s.heap in (r, record s { heap = h })

-- `if (ptr_) ptr_->AddRef()`, and the same with `Release`.
abbrev pub add_ref_to : Option ℕ → Exec Heap (Unit {0})
add_ref_to none = pure tt
add_ref_to (some p) = add_ref p

abbrev pub release_of : Option ℕ → Exec Heap (Unit {0})
release_of none = pure tt
release_of (some p) = release p

abbrev pub value_of : ℕ → Exec Store (Option ℕ)
value_of i = reads (λ s. returns (pointer_at i s.pointers))

abbrev pub assign : ℕ → Option ℕ → Exec Store (Unit {0})
assign i v = modify (λ s. record s { pointers = set i v s.pointers })

abbrev pub same_pointer : Option ℕ → Option ℕ → Bool
same_pointer none none = true
same_pointer (some p) (some q) = p == q
same_pointer (some p) none = false
same_pointer none (some q) = false

-- `RefPtr(U* p)`.
unfoldable pub construct : ℕ → Option ℕ → Exec Store (Unit {0})
construct i p = do assign i p; on_heap (add_ref_to p)

-- `RefPtr(const RefPtr& r)`, the variable `i` from the variable `r`.
unfoldable pub copy_construct : ℕ → ℕ → Exec Store (Unit {0})
copy_construct i r = do p ← value_of r; assign i p; on_heap (add_ref_to p)

unfoldable pub move_construct : ℕ → ℕ → Exec Store (Unit {0})
move_construct i r = do p ← value_of r; assign i p; assign r none

-- The destructor; the variable holds nothing afterwards.
unfoldable pub destroy : ℕ → Exec Store (Unit {0})
destroy i = do p ← value_of i; on_heap (release_of p); assign i none

unfoldable pub copy_assign : ℕ → ℕ → Exec Store (Unit {0})
copy_assign i r = do
  p ← value_of r
  old ← value_of i
  if same_pointer p old
      then pure tt
      else (do on_heap (add_ref_to p); assign i p; on_heap (release_of old))

-- `RefPtr<T>(std::move(r)).swap(*this)`: a temporary takes the pointer of `r`, swaps it with that
-- of `*this`, and is destroyed.
unfoldable pub move_assign : ℕ → ℕ → Exec Store (Unit {0})
move_assign i r = do
  p ← value_of r
  assign r none
  old ← value_of i
  assign i p
  on_heap (release_of old)

-- `= nullptr`, a move assignment from a temporary that is null.
unfoldable pub clear : ℕ → Exec Store (Unit {0})
clear i = do old ← value_of i; assign i none; on_heap (release_of old)

unfoldable pub swap : ℕ → ℕ → Exec Store (Unit {0})
swap i r = do p ← value_of i; q ← value_of r; assign i q; assign r p

-- An object that is not null gets its first pointer.
unfoldable pub adopt_ref : ℕ → ℕ → Exec Store (Unit {0})
unfolding adopt
adopt_ref i p = do on_heap (adopt p); assign i (some p)

-- `new T` gets the address `p`.
unfoldable pub make_ref_counted : ℕ → ℕ → Exec Store (Unit {0})
unfolding adopt_ref
make_ref_counted i p = do on_heap (modify (set_at p (some new_ref_counted))); adopt_ref i p

-- What a program does with its variables.
pub data Call : Type 0 where
  makes constructs copies moves copy_assigns move_assigns swaps : ℕ → ℕ → Call
  destroys : ℕ → Call

unfoldable pub step : Call → Exec Store (Unit {0})
unfolding make_ref_counted construct copy_construct move_construct copy_assign move_assign swap
    destroy
step (makes i p) = make_ref_counted i p
step (constructs i p) = construct i (some p)
step (copies i r) = copy_construct i r
step (moves i r) = move_construct i r
step (copy_assigns i r) = copy_assign i r
step (move_assigns i r) = move_assign i r
step (swaps i r) = swap i r
step (destroys i) = destroy i

unfoldable pub run : List Call → Exec Store (Unit {0})
unfolding step
run [] = pure tt
run (c ∷ cs) = do step c; run cs
