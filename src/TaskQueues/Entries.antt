-- ===== src/TaskQueues/Entries.antt =====
-- `TaskQueueEntry` and the maps and sets of message_loop_task_queues.h.
use environment_check.Prelude.{
  ℕ, ◌-◌, ◌^◌, Option, none, some, Bool, List, [], ◌∷◌, ltb, ◌==◌, not, if◌then◌else◌,
}
use environment_check.Outcome.{Outcome, returns, fails, out_of_range}
use environment_check.DelayedTask.{Closure}
use environment_check.TaskSource.{TaskSource, new_source}

-- `TaskQueueId::kUnmerged`, ULONG_MAX where a `size_t` has 64 bits.
abbrev pub unmerged : ℕ
unmerged = 2 ^ 64 - 1

-- A `Wakeable*` is `none` for null; an observer's key is an `intptr_t`, which is only compared, and
-- stands for its distance from the least one.
pub record TaskQueueEntry : Type 0 where
  pub wakeable : Option ℕ
  pub task_observers : List (ℕ × Closure)
  pub task_source : TaskSource
  pub owner_of : List ℕ
  pub subsumed_by : ℕ
  pub created_for : ℕ

abbrev pub new_entry : ℕ → TaskQueueEntry
new_entry id = record {
  wakeable = none;
  task_observers = [];
  task_source = new_source id;
  owner_of = [];
  subsumed_by = unmerged;
  created_for = id;
}

abbrev pub is_subsumed : TaskQueueEntry → Bool
is_subsumed e = not (e.subsumed_by == unmerged)

-- `std::map<TaskQueueId, std::unique_ptr<TaskQueueEntry>>`; nothing iterates over it.
abbrev pub Entries : Type 0
Entries = ℕ → Option TaskQueueEntry

abbrev or_throw {ℓ} : {A : Type ℓ} → Option A → Outcome A
or_throw none = fails out_of_range
or_throw (some e) = returns e

-- `std::map::at`
abbrev pub at : Entries → ℕ → Outcome TaskQueueEntry
at m q = or_throw (m q)

abbrev pub update {ℓ} : {A : Type ℓ} → (ℕ → Option A) → ℕ → Option A → ℕ → Option A
update m q e j = if j == q then e else m j

-- `std::set<TaskQueueId>`, in ascending order: `insert` and `erase`.
unfoldable pub insert : ℕ → List ℕ → List ℕ
insert a [] = a ∷ []
insert a (x ∷ xs) = if ltb a x then a ∷ x ∷ xs else if a == x then x ∷ xs else x ∷ insert a xs

unfoldable pub erase : ℕ → List ℕ → List ℕ
erase a [] = []
erase a (x ∷ xs) = let rest = erase a xs in if a == x then rest else x ∷ rest

-- `std::map<intptr_t, closure>`, in ascending order of the keys: `operator[] =` and `erase`.
unfoldable pub assign : ℕ → Closure → List (ℕ × Closure) → List (ℕ × Closure)
assign k f [] = (k, f) ∷ []
assign k f ((j, g) ∷ m) =
    if ltb k j then (k, f) ∷ (j, g) ∷ m else if k == j then (k, f) ∷ m else (j, g) ∷ assign k f m

unfoldable pub erase_key : ℕ → List (ℕ × Closure) → List (ℕ × Closure)
erase_key k [] = []
erase_key k ((j, g) ∷ m) = let rest = erase_key k m in if k == j then rest else (j, g) ∷ rest
