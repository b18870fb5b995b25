-- ===== src/TaskController/Panics.antt =====
-- When the handlers of the task controller cannot panic.
use kbrain.Prelude.{true, false, Option, none, some, ◌≡◌, ◌≢◌, ◌⊎◌, inl, inr, Bool-cases, arith}
use kbrain.Prelude.Text.{Text, is_empty, text_eq, lit}
use kbrain.Api.{
  AgentTask, AgentTaskPhase, unset, pending, initializing, running, creating_mr, failed,
  SecretKeyRef, Pod, PodPhase, pod_succeeded, pod_failed, Time,
}
use kbrain.Effects.{
  Libs, is_not_found, is_already_exists, PanicFree, PanicFree-done, PanicFree-call, PanicFree-if,
  PanicFree-result, PanicFree-bind, PanicFree-or_panic,
}
use kbrain.PodBuilder.Ollama.{wants_gpu, gpu_limit}
use kbrain.PodBuilder.Build.{new_pod_builder, build}
use kbrain.PodBuilder.Cases.{build-none_iff}
use kbrain.GitOps.Client.{create_pull_request}
use kbrain.GitOps.Panics.{create_pull_request-PanicFree}
use kbrain.TaskController.Status.{set_phase, set_failed, or_now, with_status}
use kbrain.TaskController.Title.{truncate}
use kbrain.TaskController.Title.Bounds.{truncate_bounds}
use kbrain.TaskController.Pending.{handle_pending, check_secret, waits_for_slot}
use kbrain.TaskController.Initializing.{
  adopt_pod, pod_created, create_agent_pod, create_owned, build_pod, handle_initializing,
}
use kbrain.TaskController.Running.{is_late, check_timeout, time_out, on_pod_phase, handle_running}
use kbrain.TaskController.CreatingMr.{
  resolve_secret_value, mr_created, create_mr, handle_creating_mr, request_options,
}
use kbrain.TaskController.Deletion.{task_finalizer, clean_up, drop_finalizer, handle_deletion}
use kbrain.TaskController.Reconcile.{is_zero, dispatch, step, reconcile_task}

set_phase-PanicFree : (t : AgentTask) (p : AgentTaskPhase) (m : Text) → PanicFree (set_phase t p m)
unfolding set_phase
set_phase-PanicFree t p m =
    PanicFree-call λ r. PanicFree-result r (λ u. PanicFree-done) (λ e. PanicFree-done)

set_failed-PanicFree : (t : AgentTask) (m : Text) → PanicFree (set_failed t m)
unfolding set_failed
set_failed-PanicFree t m = PanicFree-call λ time.
    set_phase-PanicFree
      (with_status t (record t.status { end_time = or_now t.status.end_time time })) failed m

module _ (libs : Libs) where
  check_secret-PanicFree :
      (t : AgentTask) (ref : Option SecretKeyRef) → PanicFree (check_secret libs t ref)
  unfolding check_secret
  check_secret-PanicFree t none = set_phase-PanicFree t _ _
  check_secret-PanicFree t (some ref) =
      PanicFree-if (text_eq t.spec.model_provider (lit "cloud"))
        (PanicFree-call λ r.
          PanicFree-result r (λ s. set_phase-PanicFree t _ _)
            (λ e. PanicFree-if (is_not_found e) (set_failed-PanicFree t _) PanicFree-done))
        (set_phase-PanicFree t _ _)

  handle_pending-PanicFree : (t : AgentTask) → PanicFree (handle_pending libs t)
  unfolding handle_pending
  handle_pending-PanicFree t =
      PanicFree-if (is_empty t.spec.description) (set_failed-PanicFree t _) (
        PanicFree-if (is_empty t.spec.git.repo_url) (set_failed-PanicFree t _) (
          PanicFree-if (is_empty t.spec.git.base_branch) (set_failed-PanicFree t _) (
            PanicFree-if (waits_for_slot t) PanicFree-done
              (check_secret-PanicFree t t.spec.api_key_secret_ref))))

  pod_created-PanicFree : (t : AgentTask) (p : Pod) → PanicFree (pod_created t p)
  unfolding pod_created
  pod_created-PanicFree t p = PanicFree-call λ time. set_phase-PanicFree _ _ _

  create_agent_pod-PanicFree : (t : AgentTask) (p : Pod) → PanicFree (create_agent_pod t p)
  unfolding create_agent_pod adopt_pod
  create_agent_pod-PanicFree t p = PanicFree-call λ r.
      PanicFree-result r (pod_created-PanicFree t)
        (λ e. PanicFree-if (is_already_exists e) (set_phase-PanicFree _ _ _) PanicFree-done)

  build_pod-PanicFree :
      (t : AgentTask) → build libs (new_pod_builder t) t ≢ none → PanicFree (build_pod libs t)
  unfolding build_pod create_owned
  build_pod-PanicFree t n = PanicFree-or_panic (build libs (new_pod_builder t) t) _ n λ r.
      PanicFree-result r
        (λ pod.
          PanicFree-result (libs.set_controller_reference t pod) (create_agent_pod-PanicFree t)
            (λ e. PanicFree-done))
        (λ e. set_failed-PanicFree t _)

  handle_initializing-PanicFree :
      (t : AgentTask)
      → build libs (new_pod_builder t) t ≢ none
      → PanicFree (handle_initializing libs t)
  unfolding handle_initializing adopt_pod
  handle_initializing-PanicFree t n = PanicFree-call λ r.
      PanicFree-result r (λ p. set_phase-PanicFree _ _ _)
        (λ e. PanicFree-if (is_not_found e) (build_pod-PanicFree t n) PanicFree-done)

  check_timeout-PanicFree :
      (t : AgentTask) (p : Pod) (start : Option Time) → PanicFree (check_timeout libs t p start)
  unfolding check_timeout time_out
  check_timeout-PanicFree t p none = PanicFree-done
  check_timeout-PanicFree t p (some start) = PanicFree-call λ time.
      PanicFree-if (is_late libs t time start) (PanicFree-call λ r. set_failed-PanicFree t _)
        PanicFree-done

  on_pod_phase-PanicFree :
      (ph : PodPhase) (t : AgentTask) (p : Pod) → PanicFree (on_pod_phase libs ph t p)
  unfolding on_pod_phase
  on_pod_phase-PanicFree pod_succeeded t p = set_phase-PanicFree t _ _
  on_pod_phase-PanicFree pod_failed t p = set_failed-PanicFree _ _
  on_pod_phase-PanicFree _ t p = check_timeout-PanicFree t p t.status.start_time

  handle_running-PanicFree : (t : AgentTask) → PanicFree (handle_running libs t)
  unfolding handle_running
  handle_running-PanicFree t =
      PanicFree-if (is_empty t.status.pod_name) (set_failed-PanicFree t _) (
        PanicFree-call λ r.
          PanicFree-result r (λ p. on_pod_phase-PanicFree p.status.phase t p)
            (λ e. PanicFree-if (is_not_found e) (set_failed-PanicFree t _) PanicFree-done))

  resolve_secret_value-PanicFree :
      (ns : Text) (ref : Option SecretKeyRef) → PanicFree (resolve_secret_value libs ns ref)
  unfolding resolve_secret_value
  resolve_secret_value-PanicFree ns none = PanicFree-done
  resolve_secret_value-PanicFree ns (some ref) = PanicFree-call λ r.
      PanicFree-result r
        (λ s. PanicFree-if (is_empty ref.key) (PanicFree-call λ n. PanicFree-done) PanicFree-done)
        (λ e. PanicFree-done)

  -- The bound of the title is large enough for the dots.
  title-some : (t : AgentTask) → truncate t.spec.description 60 ≢ none
  title-some t e = cc ((truncate_bounds t.spec.description 60 (omega arith)).2, e)

  create_mr-PanicFree : (t : AgentTask) (token : Text) → PanicFree (create_mr libs t token)
  unfolding create_mr mr_created
  create_mr-PanicFree t token =
      PanicFree-or_panic (truncate t.spec.description 60) _ (title-some t) λ title.
        PanicFree-bind (create_pull_request libs (request_options t token title)) _
          (create_pull_request-PanicFree libs _)
          λ r.
            PanicFree-result r (λ result. PanicFree-call λ time. set_phase-PanicFree _ _ _)
              (λ e. set_failed-PanicFree t _)

  handle_creating_mr-PanicFree : (t : AgentTask) → PanicFree (handle_creating_mr libs t)
  unfolding handle_creating_mr
  handle_creating_mr-PanicFree t =
      PanicFree-bind (resolve_secret_value libs t.namespace t.spec.git_credentials_secret_ref) _
        (resolve_secret_value-PanicFree t.namespace t.spec.git_credentials_secret_ref)
        λ r.
          PanicFree-result r
            (λ token.
              PanicFree-if (is_empty token) (set_failed-PanicFree t _)
                (create_mr-PanicFree t token))
            (λ e. set_failed-PanicFree t _)

  dispatch-PanicFree :
      (p : AgentTaskPhase) (t : AgentTask)
      → build libs (new_pod_builder t) t ≢ none
      → PanicFree (dispatch libs p t)
  unfolding dispatch
  dispatch-PanicFree unset t n = handle_pending-PanicFree t
  dispatch-PanicFree pending t n = handle_pending-PanicFree t
  dispatch-PanicFree initializing t n = handle_initializing-PanicFree t n
  dispatch-PanicFree running t n = handle_running-PanicFree t
  dispatch-PanicFree creating_mr t n = handle_creating_mr-PanicFree t
  dispatch-PanicFree _ t n = PanicFree-done

  handle_deletion-PanicFree : (t : AgentTask) → PanicFree (handle_deletion libs t)
  unfolding handle_deletion clean_up drop_finalizer
  handle_deletion-PanicFree t =
      PanicFree-bind (clean_up t) _
        (PanicFree-if (is_empty t.status.pod_name) PanicFree-done (
          PanicFree-call λ r.
            PanicFree-result r (λ p. PanicFree-call λ d. PanicFree-done) (λ e. PanicFree-done)))
        λ u. PanicFree-call λ r. PanicFree-result r (λ x. PanicFree-done) (λ e. PanicFree-done)

  -- Reconcile of a task that has its finalizer, or is being deleted, panics on no path, whatever is
  -- answered to its calls, if no GPU is asked for or the limit for it is a quantity.
  pub reconcile_task-PanicFree :
      (t : AgentTask)
      → (libs.contains_finalizer t task_finalizer ≡ true) ⊎ (is_zero t.deletion_timestamp ≡ false)
      → (wants_gpu t.spec.ollama_config ≡ false)
        ⊎ (libs.is_quantity (gpu_limit t.spec.resources) ≡ true)
      → PanicFree (reconcile_task libs t)
  unfolding reconcile_task step
  reconcile_task-PanicFree t f q = elim (Bool-cases (is_zero t.deletion_timestamp)) [
    | inr e ↦ rw e (handle_deletion-PanicFree t)
    | inl e ↦ rw (e, has f e) (dispatch-PanicFree t.status.phase t (builds q))
  ]
    where
      has :
          (libs.contains_finalizer t task_finalizer ≡ true) ⊎ (is_zero t.deletion_timestamp ≡ false)
          → is_zero t.deletion_timestamp ≡ true
          → libs.contains_finalizer t task_finalizer ≡ true
      has (inl h) e = h
      has (inr h) e = cc

      builds :
          (wants_gpu t.spec.ollama_config ≡ false)
            ⊎ (libs.is_quantity (gpu_limit t.spec.resources) ≡ true)
          → build libs (new_pod_builder t) t ≢ none
      builds (inl h) n = let (a, b, c) = (build-none_iff libs t).0 n in cc
      builds (inr h) n = let (a, b, c) = (build-none_iff libs t).0 n in cc
