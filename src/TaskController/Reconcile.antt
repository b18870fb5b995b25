-- ===== src/TaskController/Reconcile.antt =====
-- Reconcile: deletion, the finalizer, and the state machine over the phases.
use kbrain.Prelude.{Bool, true, Option, none, some, ◌==◌, if◌then◌else◌}
use kbrain.Api.{AgentTask, AgentTaskPhase, unset, pending, initializing, running, creating_mr, Time}
use kbrain.Effects.{
  Libs, is_not_found, ok, err, Key, get_task, update_task, Program, done, perform, ◌>>=◌,
}
use kbrain.TaskController.Outcome.{Outcome, finished, failure}
use kbrain.TaskController.Pending.{handle_pending}
use kbrain.TaskController.Initializing.{handle_initializing}
use kbrain.TaskController.Running.{handle_running}
use kbrain.TaskController.CreatingMr.{handle_creating_mr}
use kbrain.TaskController.Deletion.{handle_deletion, task_finalizer}

-- `DeletionTimestamp.IsZero()`: the pointer is nil or the time is the zero time.
unfoldable pub is_zero : Option Time → Bool
is_zero none = true
is_zero (some t) = t == 0

module _ (libs : Libs) where
  -- The switch over the phase; the last clause is that of the terminal phases and the default.
  unfoldable pub dispatch : AgentTaskPhase → AgentTask → Program Outcome
  unfolding handle_pending handle_initializing handle_running handle_creating_mr
  dispatch unset task = handle_pending libs task
  dispatch pending task = handle_pending libs task
  dispatch initializing task = handle_initializing libs task
  dispatch running task = handle_running libs task
  dispatch creating_mr task = handle_creating_mr libs task
  dispatch _ task = done finished

  -- The finalizer is ensured, and the state machine makes its step.
  unfoldable pub step : AgentTask → Program Outcome
  unfolding dispatch
  step task =
      if libs.contains_finalizer task task_finalizer then dispatch task.status.phase task else (do
        updated ← perform (update_task (libs.add_finalizer task task_finalizer))
        elim updated [ ok t ↦ dispatch t.status.phase t | err e ↦ done (failure e) ])

  -- `Reconcile`, from the task that was read.
  unfoldable pub reconcile_task : AgentTask → Program Outcome
  unfolding step handle_deletion
  reconcile_task task =
      if is_zero task.deletion_timestamp then step task else handle_deletion libs task

  -- `Reconcile`.
  unfoldable pub reconcile : Key → Program Outcome
  unfolding reconcile_task
  reconcile key = do
    found ← perform (get_task key)
    elim found [
      | ok task ↦ reconcile_task task
      | err e ↦ done (if is_not_found e then finished else failure e)
    ]
