-- ===== src/TaskQueues/Merging.antt =====
-- `Merge`, `Unmerge`, `PauseSecondarySource` and `ResumeSecondarySource` of
-- message_loop_task_queues.cc. The warnings that a failed merge logs are not modelled.
use environment_check.Prelude.{ℕ, Bool, true, false, ◌==◌, not, is_nil, contains, if◌then◌else◌}
use environment_check.Exec.{pure, lift, ◌>>=◌, ◌>>◌}
use environment_check.TaskSource.{pause_secondary, resume_secondary}
use environment_check.TaskQueues.Entries.{is_subsumed, unmerged, insert, erase}
use environment_check.TaskQueues.State.{Method, entry, set_entry, wake_if_pending}

-- All checking is OK, set merged state. The entries are read anew, as references are.
unfoldable pub set_merged : ℕ → ℕ → Method Bool
set_merged owner subsumed = do
  o ← entry owner
  set_entry owner (record o { owner_of = insert subsumed o.owner_of })
  e ← entry subsumed
  set_entry subsumed (record e { subsumed_by = owner })
  wake_if_pending owner
  pure true

unfoldable pub merge : ℕ → ℕ → Method Bool
merge owner subsumed = if owner == subsumed then pure true else do
  owner_entry ← entry owner
  subsumed_entry ← entry subsumed
  if contains subsumed owner_entry.owner_of
      then pure true
      else if is_subsumed owner_entry
      then pure false
      else if not (is_nil subsumed_entry.owner_of)
      then pure false
      else if is_subsumed subsumed_entry
      then pure false
      else set_merged owner subsumed

unfoldable pub set_unmerged : ℕ → ℕ → Method Bool
set_unmerged owner subsumed = do
  e ← entry subsumed
  set_entry subsumed (record e { subsumed_by = unmerged })
  o ← entry owner
  set_entry owner (record o { owner_of = erase subsumed o.owner_of })
  wake_if_pending owner
  wake_if_pending subsumed
  pure true

unfoldable pub unmerge : ℕ → ℕ → Method Bool
unmerge owner subsumed = do
  owner_entry ← entry owner
  if is_nil owner_entry.owner_of
      then pure false
      else if is_subsumed owner_entry
      then pure false
      else do
        subsumed_entry ← entry subsumed
        if not (is_subsumed subsumed_entry)
            then pure false
            else if not (contains subsumed owner_entry.owner_of)
            then pure false
            else set_unmerged owner subsumed

unfoldable pub pause_secondary_source : ℕ → Method (Unit {0})
pause_secondary_source q = do
  e ← entry q
  set_entry q (record e { task_source = pause_secondary e.task_source })

unfoldable pub resume_secondary_source : ℕ → Method (Unit {0})
resume_secondary_source q = do
  e ← entry q
  source ← lift (resume_secondary e.task_source)
  set_entry q (record e { task_source = source })
  wake_if_pending q
