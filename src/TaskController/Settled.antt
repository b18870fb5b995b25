-- ===== src/TaskController/Settled.antt =====
-- Tasks that live and have their finalizer, which Reconcile hands to the handler of their phase.
use kbrain.Prelude.{true, ◌≡◌}
use kbrain.Api.{AgentTask}
use kbrain.Effects.{Libs}
use kbrain.TaskController.Deletion.{task_finalizer}
use kbrain.TaskController.Reconcile.{is_zero}

-- The task is not being deleted and has its finalizer.
pub record IsSettledIn (libs : Libs) (t : AgentTask) : Type 0 where
  pub lives : is_zero t.deletion_timestamp ≡ true
  pub finalized : libs.contains_finalizer t task_finalizer ≡ true
