-- ===== src/TaskController/Footprints/Running.antt =====
-- The footprint of handleRunning.
use kbrain.Prelude.{◌≡◌, ◌≢◌, refl, ◌⊎◌, inl, inr, none, some, Option}
use kbrain.Prelude.Text.{lit, is_empty}
use kbrain.Api.{AgentTask, Pod, PodPhase, pod_succeeded, pod_failed, Time, creating_mr}
use kbrain.Effects.{
  Libs, Call, get_pod, delete_pod, update_task_status, now, Always, Always-call, Always-done,
  Always-if, Always-result, Anything, is_not_found,
}
use kbrain.TaskController.Running.{handle_running, on_pod_phase, check_timeout, is_late}
use kbrain.TaskController.Writes.{moved, Fails, Always-set_phase, Always-set_failed}

abbrev pub RunningCall : AgentTask → Call → Type 0
RunningCall t (get_pod k) = k ≡ record { name = t.status.pod_name; namespace = t.namespace }
RunningCall t (delete_pod p) = t.status.start_time ≢ none
RunningCall t now = Unit
RunningCall t (update_task_status u) =
    (u ≡ moved t creating_mr (lit "Agent completed, creating merge request")) ⊎ Fails t u
RunningCall t _ = ⊥

module _ (libs : Libs) (t : AgentTask) where
  check_timeout-RunningCall :
      (p : Pod) (start : Option Time)
      → t.status.start_time ≡ start
      → Always (RunningCall t) Anything (check_timeout libs t p start)
  unfolding check_timeout
  check_timeout-RunningCall p none e = Always-done tt
  check_timeout-RunningCall p (some start) e = Always-call tt λ time.
      Always-if (is_late libs t time start)
        (λ _. Always-call (λ n. cc) λ r. Always-set_failed t _ tt (λ u f. inr f))
        (λ _. Always-done tt)

  on_pod_phase-calls :
      (ph : PodPhase) (p : Pod) → Always (RunningCall t) Anything (on_pod_phase libs ph t p)
  unfolding on_pod_phase
  on_pod_phase-calls pod_succeeded p = Always-set_phase t _ _ (inl refl)
  on_pod_phase-calls pod_failed p = Always-set_failed _ _ tt λ u f. inr (record {
    same_meta = f.same_meta;
    same_spec = f.same_spec;
    phase_failed = f.phase_failed;
    same_pod = f.same_pod;
    same_branch = f.same_branch;
    same_url = f.same_url;
    same_start = f.same_start;
    ended = f.ended;
  })
  on_pod_phase-calls _ p = check_timeout-RunningCall p t.status.start_time refl

  pub handle_running-calls : Always (RunningCall t) Anything (handle_running libs t)
  unfolding handle_running
  handle_running-calls =
      Always-if (is_empty t.status.pod_name) (λ _. Always-set_failed t _ tt (λ u f. inr f))
        λ _. Always-call refl λ r.
          Always-result r (λ p _. on_pod_phase-calls p.status.phase p)
            (λ e _.
              Always-if (is_not_found e) (λ _. Always-set_failed t _ tt (λ u f. inr f))
                (λ _. Always-done tt))
