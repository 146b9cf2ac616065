-- ===== src/RefCounted.antt =====
-- app/src/main/cpp/memory/ref_counted_internal.h and ref_counted.h: objects that count their
-- references, in a build that makes the debug checks. The heap has an object for each address
-- that is in use. An access through any other address is undefined behaviour.
use environment_check.Prelude.{
  ℕ, ◌+◌, ◌-◌, ◌%◌, ◌^◌, Option, none, some, Bool, true, false, not, ◌==◌, if◌then◌else◌, set_at,
}
use environment_check.Outcome.{Outcome, returns, fails, undefined_behaviour, check}
use environment_check.Exec.{Exec, pure, lift, reads, modify, ◌>>=◌, ◌>>◌}

-- `ref_count` is a `uint_fast32_t`, which has 64 bits on the 64-bit targets.
pub record RefCounted : Type 0 where
  pub ref_count : ℕ
  pub adoption_required : Bool
  pub destruction_started : Bool

abbrev pub Heap : Type 0
Heap = ℕ → Option RefCounted

abbrev pub object_of : Option RefCounted → Outcome RefCounted
object_of none = fails undefined_behaviour
object_of (some o) = returns o

abbrev pub load : ℕ → Exec Heap RefCounted
load p = reads (λ h. object_of (h p))

abbrev pub store : ℕ → RefCounted → Exec Heap (Unit {0})
store p o = modify (set_at p (some o))

-- The constructor: one reference, to be adopted.
abbrev pub new_ref_counted : RefCounted
new_ref_counted = record { ref_count = 1; adoption_required = true; destruction_started = false }

unfoldable pub add_ref : ℕ → Exec Heap (Unit {0})
add_ref p = do
  o ← load p
  lift (check (not o.adoption_required))
  lift (check (not o.destruction_started))
  store p (record o { ref_count = (o.ref_count + 1) % 2 ^ 64 })

unfoldable pub has_one_ref : ℕ → Exec Heap Bool
has_one_ref p = do o ← load p; pure (o.ref_count == 1)

-- `fetch_sub` returns the count before the subtraction, which wraps around.
unfoldable pub release_base : ℕ → Exec Heap Bool
release_base p = do
  o ← load p
  lift (check (not o.adoption_required))
  lift (check (not o.destruction_started))
  lift (check (not (o.ref_count == 0)))
  let last = o.ref_count == 1
  store p (record o {
    ref_count = (o.ref_count + 2 ^ 64 - 1) % 2 ^ 64;
    destruction_started = if last then true else o.destruction_started;
  })
  pure last

-- `delete`: the checks of the destructor, and the address is free again.
unfoldable pub delete_object : ℕ → Exec Heap (Unit {0})
delete_object p = do
  o ← load p
  lift (check (not o.adoption_required))
  lift (check o.destruction_started)
  modify (set_at p none)

unfoldable pub release : ℕ → Exec Heap (Unit {0})
unfolding release_base delete_object
release p = do last ← release_base p; if last then delete_object p else pure tt

unfoldable pub adopt : ℕ → Exec Heap (Unit {0})
adopt p = do
  o ← load p
  lift (check o.adoption_required)
  store p (record o { adoption_required = false })
