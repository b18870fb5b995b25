-- ===== src/TaskController/Pending.antt =====
-- handlePending: validation, the pool's slot, and the secret of the API key.
use kbrain.Prelude.{◌*◌, Bool, Option, none, some, ◌++◌, ◌&&◌, not, if◌then◌else◌}
use kbrain.Prelude.Text.{Text, lit, text_eq, is_empty}
use kbrain.Api.{AgentTask, SecretKeyRef, initializing, index}
use kbrain.Effects.{Libs, is_not_found, ok, err, get_secret, Program, done, perform, ◌>>=◌}
use kbrain.TaskController.Outcome.{Outcome, failure, requeue_in, second}
use kbrain.TaskController.Status.{set_phase, set_failed}

-- The annotation by which the pool controller grants a slot.
abbrev pub slot_annotation : Text
slot_annotation = lit "kbrain.io/pool-slot-granted"

-- `task.Annotations["kbrain.io/pool-slot-granted"] == "true"`.
unfoldable pub slot_granted : AgentTask → Bool
slot_granted task = text_eq (index slot_annotation task.annotations) (lit "true")

-- `task.Spec.PoolRef != "" && granted != "true"`.
unfoldable pub waits_for_slot : AgentTask → Bool
unfolding slot_granted
waits_for_slot task = not (is_empty task.spec.pool_ref) && not (slot_granted task)

-- The transition at the end of the handler.
unfoldable pub start : AgentTask → Program Outcome
start task = set_phase task initializing (lit "Validated, creating agent pod")

module _ (libs : Libs) where
  -- The check of a referenced secret, and the transition.
  unfoldable pub check_secret : AgentTask → Option SecretKeyRef → Program Outcome
  unfolding start
  check_secret task none = start task
  check_secret task (some ref) =
      if text_eq task.spec.model_provider (lit "cloud")
      then (do
        found ← perform (get_secret (record { name = ref.name; namespace = task.namespace }))
        elim found [
          | ok s ↦ start task
          | err e ↦
              if is_not_found e
              then set_failed task
                  (lit "API key secret " ++ (libs.quote ref.name ++ lit " not found"))
              else done (failure e)
        ])
      else start task

  -- `handlePending`.
  unfoldable pub handle_pending : AgentTask → Program Outcome
  unfolding check_secret waits_for_slot
  handle_pending task =
      if is_empty task.spec.description
      then set_failed task (lit "description is required")
      else if is_empty task.spec.git.repo_url
      then set_failed task (lit "git.repoURL is required")
      else if is_empty task.spec.git.base_branch
      then set_failed task (lit "git.baseBranch is required")
      else if waits_for_slot task
      then done (requeue_in (15 * second))
      else check_secret task task.spec.api_key_secret_ref
