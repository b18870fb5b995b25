-- ===== src/TaskController/Running.antt =====
-- handleRunning: the pod's phase decides; a pod that is neither done nor failed may time out.
use kbrain.Prelude.{
  Bool, ◌-◌, ◌*◌, ◌^◌, Option, none, some, List, [], ◌∷◌, ◌++◌, leb, if◌then◌else◌,
}
use kbrain.Prelude.Int.{ℤ, pos, negsuc, sub_ℕ, ltb_ℤ}
use kbrain.Prelude.Text.{Text, lit, text_eq, is_empty}
use kbrain.Api.{
  AgentTask, Pod, PodPhase, pod_succeeded, pod_failed, ContainerStatus, creating_mr, Time,
}
use kbrain.Effects.{
  Libs, is_not_found, ok, err, get_pod, delete_pod, now, Program, done, perform, ◌>>=◌, ◌>>◌,
}
use kbrain.GitOps.Strings.{decimal_ℤ}
use kbrain.TaskController.Outcome.{Outcome, failure, requeue_in, second, minute}
use kbrain.TaskController.Status.{set_phase, set_failed, with_status}

-- `getExitCode`.
unfoldable pub get_exit_code : List ContainerStatus → Option ℤ
get_exit_code [] = none
get_exit_code (cs ∷ rest) =
    let other = get_exit_code rest in
    if text_eq cs.name (lit "agent")
    then elim cs.terminated [ none ↦ other | some code ↦ some code ]
    else other

unfoldable pub failure_message : Option ℤ → Text
failure_message none = lit "agent pod failed"
failure_message (some code) = lit "agent pod failed with exit code " ++ decimal_ℤ code

-- The largest and the smallest time.Duration, at which a difference of times saturates.
unfoldable pub clamp_duration : ℤ → ℤ
clamp_duration (pos n) = if leb n (2 ^ 63 - 1) then pos n else pos (2 ^ 63 - 1)
clamp_duration (negsuc n) = if leb n (2 ^ 63 - 1) then negsuc n else negsuc (2 ^ 63 - 1)

-- `time.Since(start)`, read at `time`.
unfoldable pub since : Time → Time → ℤ
unfolding clamp_duration
since time start = clamp_duration (sub_ℕ time start)

module _ (libs : Libs) where
  -- The task's timeout, or half an hour where it does not parse.
  unfoldable pub timeout_of : AgentTask → ℤ
  timeout_of task = elim (libs.parse_duration task.spec.timeout) [
    | none ↦ pos (30 * minute)
    | some d ↦ d
  ]

  unfoldable pub time_out : AgentTask → Pod → Program Outcome
  unfolding timeout_of
  time_out task pod = do
    perform (delete_pod pod)
    set_failed task (lit "task timed out after " ++ libs.show_duration (timeout_of task))

  -- `time.Since(start) > timeout`, read at `time`.
  unfoldable pub is_late : AgentTask → Time → Time → Bool
  unfolding timeout_of since
  is_late task time start = ltb_ℤ (timeout_of task) (since time start)

  -- The timeout check, which needs a start time.
  unfoldable pub check_timeout : AgentTask → Pod → Option Time → Program Outcome
  unfolding time_out
  check_timeout task pod none = done (requeue_in (15 * second))
  check_timeout task pod (some start) = do
    time ← perform now
    if is_late task time start then time_out task pod else done (requeue_in (15 * second))

  -- The switch over the pod's phase.
  unfoldable pub on_pod_phase : PodPhase → AgentTask → Pod → Program Outcome
  unfolding check_timeout
  on_pod_phase pod_succeeded task pod =
      set_phase task creating_mr (lit "Agent completed, creating merge request")
  on_pod_phase pod_failed task pod =
      let code = get_exit_code pod.status.container_statuses in
      set_failed (with_status task (record task.status { exit_code = code })) (failure_message code)
  on_pod_phase _ task pod = check_timeout task pod task.status.start_time

  -- `handleRunning`.
  unfoldable pub handle_running : AgentTask → Program Outcome
  unfolding on_pod_phase
  handle_running task =
      if is_empty task.status.pod_name
      then set_failed task (lit "pod name not set in status")
      else (do
        found ←
            perform (get_pod (record { name = task.status.pod_name; namespace = task.namespace }))
        elim found [
          | ok pod ↦ on_pod_phase pod.status.phase task pod
          | err e ↦
              if is_not_found e
              then set_failed task (lit "agent pod was deleted")
              else done (failure e)
        ])
