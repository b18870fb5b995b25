-- ===== src/TaskController/Initializing.antt =====
-- handleInitializing: the pod is adopted if it exists, and built and created otherwise.
use kbrain.Prelude.{◌++◌, some, if◌then◌else◌}
use kbrain.Prelude.Text.{lit}
use kbrain.Api.{AgentTask, Pod, running}
use kbrain.Effects.{
  Libs, error_text, wrap, is_not_found, is_already_exists, ok, err, get_pod, create_pod, now,
  Program, done, perform, or_panic, ◌>>=◌,
}
use kbrain.PodBuilder.Base.{pod_name, work_branch_for}
use kbrain.PodBuilder.Build.{new_pod_builder, build}
use kbrain.TaskController.Outcome.{Outcome, failure}
use kbrain.TaskController.Status.{set_phase, set_failed, with_status}

-- A pod of the task's name is there: it becomes the task's pod.
unfoldable pub adopt_pod : AgentTask → Program Outcome
adopt_pod task =
    set_phase (with_status task (record task.status { pod_name = pod_name task })) running
      (lit "Agent pod is running")

-- The pod was created: `created` is what the server answered.
unfoldable pub pod_created : AgentTask → Pod → Program Outcome
pod_created task created = do
  time ← perform now
  set_phase
      (with_status task (record task.status {
        pod_name = created.name;
        start_time = some time;
        branch_name = work_branch_for task;
      }))
      running (lit "Agent pod created")

unfoldable pub create_agent_pod : AgentTask → Pod → Program Outcome
unfolding adopt_pod pod_created
create_agent_pod task pod = do
  created ← perform (create_pod pod)
  elim created [
    | ok p ↦ pod_created task p
    | err e ↦
        if is_already_exists e then adopt_pod task else done (failure (wrap (lit "creating pod") e))
  ]

module _ (libs : Libs) where
  -- The owner reference, and the creation.
  unfoldable pub create_owned : AgentTask → Pod → Program Outcome
  unfolding create_agent_pod
  create_owned task pod = elim (libs.set_controller_reference task pod) [
    | err e ↦ done (failure (wrap (lit "setting owner reference") e))
    | ok owned ↦ create_agent_pod task owned
  ]

  unfoldable pub build_pod : AgentTask → Program Outcome
  unfolding create_owned
  build_pod task = do
    built ← or_panic (build libs (new_pod_builder task) task)
    elim built [
      | err e ↦ set_failed task (lit "failed to build pod spec: " ++ error_text e)
      | ok pod ↦ create_owned task pod
    ]

  -- `handleInitializing`.
  unfoldable pub handle_initializing : AgentTask → Program Outcome
  unfolding build_pod
  handle_initializing task = do
    existing ← perform (get_pod (record { name = pod_name task; namespace = task.namespace }))
    elim existing [
      | ok p ↦ adopt_pod task
      | err e ↦ if is_not_found e then build_pod task else done (failure e)
    ]
