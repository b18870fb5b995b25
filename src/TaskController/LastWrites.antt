-- ===== src/TaskController/LastWrites.antt =====
-- What Reconcile does after a status write.
use kbrain.Prelude.{Option, none, some, arith}
use kbrain.Prelude.Text.{Text, lit, text_eq, is_empty}
use kbrain.Api.{
  AgentTask, AgentTaskPhase, unset, pending, initializing, running, creating_mr, failed,
  SecretKeyRef, Pod, PodPhase, pod_succeeded, pod_failed,
}
use kbrain.Effects.{
  Libs, Key, Call, update_task_status, now, Always-call, Always-done, Always-if, Always-result,
  Always-weaken, is_not_found, is_already_exists,
}
use kbrain.Effects.LastWrites.{
  WritesLast, WritesLast-done, WritesLast-write, WritesLast-call, WritesLast-if, WritesLast-result,
  WritesLast-bind, NoStatusWrite, or_panic-NoStatusWrite,
}
use kbrain.GitOps.Client.{PrOptions}
use kbrain.GitOps.Requests.{RequestCall, create_pull_request-calls}
use kbrain.TaskController.Status.{set_phase, set_failed, with_status, or_now}
use kbrain.TaskController.Pending.{check_secret, start, handle_pending, waits_for_slot}
use kbrain.TaskController.Initializing.{
  adopt_pod, pod_created, create_agent_pod, create_owned, build_pod, handle_initializing,
}
use kbrain.TaskController.Running.{time_out, check_timeout, on_pod_phase, handle_running, is_late}
use kbrain.TaskController.CreatingMr.{mr_created, create_mr, handle_creating_mr, request_options}
use kbrain.TaskController.Footprints.Secrets.{resolve_secret_value-calls}
use kbrain.TaskController.Deletion.{task_finalizer, clean_up, drop_finalizer, handle_deletion}
use kbrain.TaskController.Reconcile.{is_zero, dispatch, step, reconcile_task, reconcile}

set_phase-WritesLast :
    (t : AgentTask) (p : AgentTaskPhase) (m : Text) → WritesLast (set_phase t p m)
unfolding set_phase
set_phase-WritesLast t p m = WritesLast-write λ r. ground arith

set_failed-WritesLast : (t : AgentTask) (m : Text) → WritesLast (set_failed t m)
unfolding set_failed
set_failed-WritesLast t m = WritesLast-call now tt λ time.
    set_phase-WritesLast
      (with_status t (record t.status { end_time = or_now t.status.end_time time })) failed m

-- The calls of a request are none of a status write.
RequestCall-NoStatusWrite :
    (libs : Libs) (o : PrOptions) (c : Call) → RequestCall libs o c → NoStatusWrite c
RequestCall-NoStatusWrite libs o (update_task_status u) h = absurd h
RequestCall-NoStatusWrite libs o _ h = tt

module _ (libs : Libs) (t : AgentTask) where
  start-WritesLast : WritesLast (start t)
  unfolding start
  start-WritesLast = set_phase-WritesLast _ _ _

  check_secret-WritesLast : (ref : Option SecretKeyRef) → WritesLast (check_secret libs t ref)
  unfolding check_secret
  check_secret-WritesLast none = start-WritesLast
  check_secret-WritesLast (some ref) =
      WritesLast-if (text_eq t.spec.model_provider (lit "cloud"))
        (WritesLast-call _ tt λ r.
          WritesLast-result r (λ s. start-WritesLast)
            (λ e. WritesLast-if (is_not_found e) (set_failed-WritesLast t _) WritesLast-done))
        start-WritesLast

  handle_pending-WritesLast : WritesLast (handle_pending libs t)
  unfolding handle_pending
  handle_pending-WritesLast =
      WritesLast-if (is_empty t.spec.description) (set_failed-WritesLast t _) (
        WritesLast-if (is_empty t.spec.git.repo_url) (set_failed-WritesLast t _) (
          WritesLast-if (is_empty t.spec.git.base_branch) (set_failed-WritesLast t _) (
            WritesLast-if (waits_for_slot t) WritesLast-done
              (check_secret-WritesLast t.spec.api_key_secret_ref))))

  adopt_pod-WritesLast : WritesLast (adopt_pod t)
  unfolding adopt_pod
  adopt_pod-WritesLast = set_phase-WritesLast _ _ _

  create_agent_pod-WritesLast : (p : Pod) → WritesLast (create_agent_pod t p)
  unfolding create_agent_pod pod_created
  create_agent_pod-WritesLast p = WritesLast-call _ tt λ r.
      WritesLast-result r (λ q. WritesLast-call _ tt λ time. set_phase-WritesLast _ _ _)
        (λ e. WritesLast-if (is_already_exists e) adopt_pod-WritesLast WritesLast-done)

  build_pod-WritesLast : WritesLast (build_pod libs t)
  unfolding build_pod create_owned
  build_pod-WritesLast = WritesLast-bind _ (or_panic-NoStatusWrite _) λ built.
      WritesLast-result built
        (λ p.
          WritesLast-result (libs.set_controller_reference t p)
            (λ owned. create_agent_pod-WritesLast owned) (λ e. WritesLast-done))
        (λ e. set_failed-WritesLast t _)

  handle_initializing-WritesLast : WritesLast (handle_initializing libs t)
  unfolding handle_initializing
  handle_initializing-WritesLast = WritesLast-call _ tt λ r.
      WritesLast-result r (λ p. adopt_pod-WritesLast)
        (λ e. WritesLast-if (is_not_found e) build_pod-WritesLast WritesLast-done)

  check_timeout-WritesLast : (p : Pod) (o : Option _) → WritesLast (check_timeout libs t p o)
  unfolding check_timeout time_out
  check_timeout-WritesLast p none = WritesLast-done
  check_timeout-WritesLast p (some s) = WritesLast-call _ tt λ time.
      WritesLast-if (is_late libs t time s) (WritesLast-call _ tt λ r. set_failed-WritesLast t _)
        WritesLast-done

  on_pod_phase-WritesLast : (q : PodPhase) (p : Pod) → WritesLast (on_pod_phase libs q t p)
  unfolding on_pod_phase
  on_pod_phase-WritesLast pod_succeeded p = set_phase-WritesLast _ _ _
  on_pod_phase-WritesLast pod_failed p = set_failed-WritesLast _ _
  on_pod_phase-WritesLast _ p = check_timeout-WritesLast p t.status.start_time

  handle_running-WritesLast : WritesLast (handle_running libs t)
  unfolding handle_running
  handle_running-WritesLast =
      WritesLast-if (is_empty t.status.pod_name) (set_failed-WritesLast t _) (
        WritesLast-call _ tt λ r.
          WritesLast-result r (λ p. on_pod_phase-WritesLast p.status.phase p)
            (λ e. WritesLast-if (is_not_found e) (set_failed-WritesLast t _) WritesLast-done))

  create_mr-WritesLast : (token : Text) → WritesLast (create_mr libs t token)
  unfolding create_mr mr_created
  create_mr-WritesLast token = WritesLast-bind _ (or_panic-NoStatusWrite _) λ title.
      WritesLast-bind _
        (Always-weaken (RequestCall-NoStatusWrite libs (request_options t token title)) (λ _ _. tt)
          (create_pull_request-calls libs (request_options t token title)))
        λ r.
          WritesLast-result r (λ q. WritesLast-call _ tt λ time. set_phase-WritesLast _ _ _)
            (λ e. set_failed-WritesLast t _)

  handle_creating_mr-WritesLast : WritesLast (handle_creating_mr libs t)
  unfolding handle_creating_mr
  handle_creating_mr-WritesLast =
      WritesLast-bind _
        (resolve_secret_value-calls libs NoStatusWrite t.namespace t.spec.git_credentials_secret_ref
          (λ k e. tt) (λ n. tt))
        λ r.
          WritesLast-result r
            (λ token.
              WritesLast-if (is_empty token) (set_failed-WritesLast t _)
                (create_mr-WritesLast token))
            (λ e. set_failed-WritesLast t _)

  dispatch-WritesLast : (p : AgentTaskPhase) → WritesLast (dispatch libs p t)
  unfolding dispatch
  dispatch-WritesLast unset = handle_pending-WritesLast
  dispatch-WritesLast pending = handle_pending-WritesLast
  dispatch-WritesLast initializing = handle_initializing-WritesLast
  dispatch-WritesLast running = handle_running-WritesLast
  dispatch-WritesLast creating_mr = handle_creating_mr-WritesLast
  dispatch-WritesLast _ = WritesLast-done

  handle_deletion-WritesLast : WritesLast (handle_deletion libs t)
  unfolding handle_deletion clean_up drop_finalizer
  handle_deletion-WritesLast =
      WritesLast-bind _
        (Always-if (is_empty t.status.pod_name) (λ _. Always-done tt)
          (λ _. Always-call tt λ r.
            Always-result r (λ p _. Always-call tt λ d. Always-done tt) (λ e _. Always-done tt)))
        λ u.
          WritesLast-call _ tt
            λ r. WritesLast-result r (λ v. WritesLast-done) (λ e. WritesLast-done)

module _ (libs : Libs) where
  step-WritesLast : (t : AgentTask) → WritesLast (step libs t)
  unfolding step
  step-WritesLast t =
      WritesLast-if (libs.contains_finalizer t task_finalizer)
        (dispatch-WritesLast libs t t.status.phase)
        (WritesLast-call _ tt λ r.
          WritesLast-result r (λ u. dispatch-WritesLast libs u u.status.phase)
            (λ e. WritesLast-done))

  -- On every path of Reconcile, whatever its calls answer, no call follows a status write: a run
  -- writes the status at most once, and nothing is done on the strength of a write that was refused.
  pub reconcile-WritesLast : (key : Key) → WritesLast (reconcile libs key)
  unfolding reconcile reconcile_task
  reconcile-WritesLast key = WritesLast-call _ tt λ r.
      WritesLast-result r
        (λ t.
          WritesLast-if (is_zero t.deletion_timestamp) (step-WritesLast t)
            (handle_deletion-WritesLast libs t))
        (λ e. WritesLast-done)
