-- ===== src/SharedPtr.antt =====
-- app/src/main/cpp/memory/shared_ptr.h. A managed pointer and its control block are created and
-- freed together and have one address; the store has the count in each block that exists, and the
-- pointers of a program in numbered variables.
pub mod Counts
pub mod Refinement
pub mod Run
use environment_check.Prelude.{
  ℕ, ◌+◌, ◌-◌, ◌%◌, ◌^◌, Option, none, some, Bool, true, false, List, [], ◌∷◌, ◌==◌, if◌then◌else◌,
  set_at,
}
use environment_check.Outcome.{Outcome, returns, fails, undefined_behaviour}
use environment_check.Exec.{Exec, pure, reads, modify, ◌>>=◌, ◌>>◌}
use environment_check.RefPtr.{pointer_at, set}

abbrev pub Blocks : Type 0
Blocks = ℕ → Option ℕ

pub record Store : Type 0 where
  pub blocks : Blocks
  pub pointers : List (Option ℕ)

abbrev pub count_of : Option ℕ → Outcome ℕ
count_of none = fails undefined_behaviour
count_of (some n) = returns n

abbrev pub load : ℕ → Exec Blocks ℕ
load p = reads (λ b. count_of (b p))

-- `ControlBlock::ref`, with the new count.
unfoldable pub ref : ℕ → Exec Blocks ℕ
ref p = do n ← load p; let n' = (n + 1) % 2 ^ 64; modify (set_at p (some n')); pure n'

unfoldable pub deref : ℕ → Exec Blocks ℕ
deref p = do n ← load p; let n' = (n + 2 ^ 64 - 1) % 2 ^ 64; modify (set_at p (some n')); pure n'

-- `SharedPtr::MaybeDestroy`; the two deletes free the address.
unfoldable pub maybe_destroy : Option ℕ → Exec Blocks (Unit {0})
maybe_destroy none = pure tt
maybe_destroy (some p) = do n ← deref p; if n == 0 then modify (set_at p none) else pure tt

-- `if (ptr_) ctrl_->ref()`.
unfoldable pub ref_if : Option ℕ → Exec Blocks (Unit {0})
ref_if none = pure tt
ref_if (some p) = do n ← ref p; pure tt

-- `ctrl_->ref()`, where `ctrl_` is null beside a null pointer.
unfoldable pub ref_always : Option ℕ → Exec Blocks (Unit {0})
ref_always none b = (fails undefined_behaviour, b)
ref_always (some p) b = ref_if (some p) b

abbrev pub on_blocks : Exec Blocks (Unit {0}) → Exec Store (Unit {0})
on_blocks m s = let (r, b) = m s.blocks in (r, record s { blocks = b })

abbrev pub value_of : ℕ → Exec Store (Option ℕ)
value_of i = reads (λ s. returns (pointer_at i s.pointers))

abbrev pub assign : ℕ → Option ℕ → Exec Store (Unit {0})
assign i v = modify (λ s. record s { pointers = set i v s.pointers })

-- `SharedPtr(U* ptr)` with an object that is not null, at the address `p`.
unfoldable pub wrap_shared : ℕ → ℕ → Exec Store (Unit {0})
wrap_shared i p = do assign i (some p); on_blocks (modify (set_at p (some 1)))

unfoldable pub copy_construct : ℕ → ℕ → Exec Store (Unit {0})
copy_construct i r = do p ← value_of r; assign i p; on_blocks (ref_if p)

unfoldable pub move_construct : ℕ → ℕ → Exec Store (Unit {0})
move_construct i r = do p ← value_of r; assign i p; assign r none

unfoldable pub copy_assign : ℕ → ℕ → Exec Store (Unit {0})
copy_assign i r = do
  old ← value_of i
  on_blocks (maybe_destroy old)
  p ← value_of r
  assign i p
  on_blocks (ref_always p)

unfoldable pub move_assign : ℕ → ℕ → Exec Store (Unit {0})
move_assign i r = do
  old ← value_of i
  on_blocks (maybe_destroy old)
  p ← value_of r
  assign i p
  assign r none

-- `reset`, and the destructor, after which the variable holds nothing.
unfoldable pub reset : ℕ → Exec Store (Unit {0})
reset i = do old ← value_of i; on_blocks (maybe_destroy old); assign i none

abbrev pub use_count_of : Option ℕ → Exec Store ℕ
use_count_of none s = (returns 0, s)
use_count_of (some p) s = (count_of (s.blocks p), s)

unfoldable pub use_count : ℕ → Exec Store ℕ
use_count i = do p ← value_of i; use_count_of p

-- What a program does with its variables.
pub data Call : Type 0 where
  wraps copies moves copy_assigns move_assigns : ℕ → ℕ → Call
  resets : ℕ → Call

unfoldable pub step : Call → Exec Store (Unit {0})
step (wraps i p) = wrap_shared i p
step (copies i r) = copy_construct i r
step (moves i r) = move_construct i r
step (copy_assigns i r) = copy_assign i r
step (move_assigns i r) = move_assign i r
step (resets i) = reset i

unfoldable pub run : List Call → Exec Store (Unit {0})
run [] = pure tt
run (c ∷ cs) = do step c; run cs
