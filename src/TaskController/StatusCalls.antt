-- ===== src/TaskController/StatusCalls.antt =====
-- The calls of setPhase and setFailed, against any server.
use kbrain.Prelude.{[], ◌∷◌, ◌≡◌, refl, ap, if◌then◌else◌}
use kbrain.Prelude.Text.{Text, lit}
use kbrain.Api.{AgentTask, AgentTaskPhase, failed}
use kbrain.Effects.{Result, ok, err, wrap, now, update_task_status, done, Server, calls}
use kbrain.TaskController.Outcome.{finished, failure, requeue_now}
use kbrain.TaskController.Status.{set_phase, set_failed, is_terminal, or_now, with_status}
use kbrain.TaskController.Writes.{moved, failed_at}

module _ {S : Type 0} (v : Server S) where
  pub set_phase-calls :
      (t : AgentTask) (p : AgentTaskPhase) (m : Text) (s : S)
      → calls v (set_phase t p m) s ≡ update_task_status (moved t p m) ∷ []
  unfolding set_phase calls
  set_phase-calls t p m s =
      ap (◌∷◌ (update_task_status (moved t p m)))
        (last (v.answer (update_task_status (moved t p m)) s).0)
    where
      last :
          (r : Result AgentTask)
          → calls v
              (elim r [
                | err e ↦ done (failure (wrap (lit "updating status") e))
                | ok u ↦ done (if is_terminal p then finished else requeue_now)
              ])
              (v.answer (update_task_status (moved t p m)) s).1
            ≡ []
      last (ok u) = refl
      last (err e) = refl

  pub set_failed-calls :
      (t : AgentTask) (m : Text) (s : S)
      → calls v (set_failed t m) s
        ≡ now ∷ update_task_status (failed_at t (v.answer now s).0 m) ∷ []
  unfolding set_failed calls
  set_failed-calls t m s = ap (◌∷◌ now) (
      set_phase-calls
        (with_status t (record t.status { end_time = or_now t.status.end_time (v.answer now s).0 }))
        failed m (v.answer now s).1)
