-- ===== src/Sandbox/Tests.antt =====
-- internal/controlplane/sandbox: the longest life of a session, and of a task.
use legator.Common.{◌≤◌, ◌+◌, refl, [], ◌∷◌, length}
use legator.Sandbox.Session.{
  created, provisioning, ready, running, destroyed, is_listed, is_valid, validate_transition,
  Follow, stop, go, left_of, length_of_life_le,
}
use legator.Sandbox.Task.{
  TaskState, queued, cancelled, is_listed_task, is_valid_task, validate_task_transition, TaskFollow,
  task_left_of, length_of_task_le,
}
use legator.Sandbox.Task as Task

life : Follow created (provisioning ∷ ready ∷ running ∷ destroyed ∷ []) destroyed
unfolding validate_transition is_listed is_valid
life = go provisioning refl (go ready refl (go running refl (go destroyed refl stop)))

length_of_life_le_example :
    length (provisioning ∷ ready ∷ running ∷ destroyed ∷ []) + left_of destroyed ≤ left_of created
length_of_life_le_example = length_of_life_le life

task_life : TaskFollow queued (Task.running ∷ cancelled ∷ []) cancelled
unfolding validate_task_transition is_listed_task is_valid_task
task_life = Task.go Task.running refl (Task.go cancelled refl Task.stop)
