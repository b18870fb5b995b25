-- ===== src/TaskController/Writes.antt =====
-- The status writes of setPhase and setFailed, and the rules by which a statement about the calls of
-- a handler passes through them.
use kbrain.Prelude.{◌≡◌, refl}
use kbrain.Prelude.Text.{Text}
use kbrain.Api.{AgentTask, AgentTaskPhase, failed, Time}
use kbrain.Effects.{
  Call, update_task_status, now, Always, Always-call, Always-done, Always-result, Anything,
}
use kbrain.TaskController.Status.{set_phase, set_failed, or_now, with_status}

-- u is t with a phase and a message: what setPhase writes.
abbrev pub moved : AgentTask → AgentTaskPhase → Text → AgentTask
moved t p m = with_status t (record t.status { phase = p; message = m })

-- u is t marked as failed: the phase is Failed, the end time is the old one or set now, and of the
-- rest only the message and the exit code may differ.
pub record Fails (t u : AgentTask) : Type 0 where
  pub same_meta : u.meta ≡ t.meta
  pub same_spec : u.spec ≡ t.spec
  pub phase_failed : u.status.phase ≡ failed
  pub same_pod : u.status.pod_name ≡ t.status.pod_name
  pub same_branch : u.status.branch_name ≡ t.status.branch_name
  pub same_url : u.status.merge_request_url ≡ t.status.merge_request_url
  pub same_start : u.status.start_time ≡ t.status.start_time
  pub ended : (e : Time) × (u.status.end_time ≡ or_now t.status.end_time e)

-- What setFailed writes at a time.
abbrev pub failed_at : AgentTask → Time → Text → AgentTask
failed_at t time m =
    with_status t
      (record t.status { phase = failed; message = m; end_time = or_now t.status.end_time time })

module _ {P : Call → Type 0} where
  pub Always-set_phase :
      (t : AgentTask) (p : AgentTaskPhase) (m : Text)
      → P (update_task_status (moved t p m))
      → Always P Anything (set_phase t p m)
  unfolding set_phase
  Always-set_phase t p m h =
      Always-call h λ r. Always-result r (λ x _. Always-done tt) (λ e _. Always-done tt)

  pub Always-set_failed :
      (t : AgentTask) (m : Text)
      → P now
      → ((u : AgentTask) → Fails t u → P (update_task_status u))
      → Always P Anything (set_failed t m)
  unfolding set_failed
  Always-set_failed t m n h = Always-call n λ time.
      Always-set_phase
        (with_status t (record t.status { end_time = or_now t.status.end_time time })) failed m
        (h (failed_at t time m) (record {
          same_meta = refl;
          same_spec = refl;
          phase_failed = refl;
          same_pod = refl;
          same_branch = refl;
          same_url = refl;
          same_start = refl;
          ended = (time, refl);
        }))
