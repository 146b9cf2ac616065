-- ===== src/Examples/Tasks.antt =====
-- Two tasks and a source that holds both.
use environment_check.Prelude.{◌≡◌, refl, some, false}
use environment_check.DelayedTask.{DelayedTask, dart_micro_tasks, unspecified, push}
use environment_check.TaskSource.{TaskSource, is_empty, new_source, register}
use environment_check.TaskSource.Contents.{IsValid, new_source-IsValid, register-IsValid}
use environment_check.TaskSource.Top.{Gives, top-Gives}

abbrev early : DelayedTask
early = record { order = 1; task = some 11; target_time = 5; task_source_grade = dart_micro_tasks }

abbrev late : DelayedTask
late = record { order = 0; task = some 10; target_time = 9; task_source_grade = unspecified }

abbrev both : TaskSource
both = register early (register late (new_source 3))

both-IsValid : IsValid both
both-IsValid = register-IsValid early _ (register-IsValid late _ (new_source-IsValid 3))

both_busy : is_empty both ≡ false
unfolding is_empty register push
both_busy = refl

top-Gives_example : (t : DelayedTask) × (s' : TaskSource) × Gives both t s'
top-Gives_example = top-Gives both both-IsValid both_busy
