-- ===== src/TaskController/Deletion.antt =====
-- handleDeletion.
use kbrain.Prelude.{if◌then◌else◌}
use kbrain.Prelude.Text.{Text, lit, is_empty}
use kbrain.Api.{AgentTask}
use kbrain.Effects.{
  Libs, ok, err, get_pod, delete_pod, update_task, Program, done, perform, ◌>>=◌, ◌>>◌,
}
use kbrain.TaskController.Outcome.{Outcome, finished, failure}

abbrev pub task_finalizer : Text
task_finalizer = lit "agents.kbrain.io/finalizer"

-- The pod is deleted if it can be read; a failure to read or delete it is ignored.
unfoldable pub clean_up : AgentTask → Program (Unit {0})
clean_up task = if is_empty task.status.pod_name then done tt else (do
  found ← perform (get_pod (record { name = task.status.pod_name; namespace = task.namespace }))
  elim found [ err e ↦ done tt | ok pod ↦ (do perform (delete_pod pod); done tt) ])

module _ (libs : Libs) where
  unfoldable pub drop_finalizer : AgentTask → Program Outcome
  drop_finalizer task = do
    updated ← perform (update_task (libs.remove_finalizer task task_finalizer))
    elim updated [ ok t ↦ done finished | err e ↦ done (failure e) ]

  -- `handleDeletion`.
  unfoldable pub handle_deletion : AgentTask → Program Outcome
  unfolding clean_up drop_finalizer
  handle_deletion task = do clean_up task; drop_finalizer task
