-- ===== src/TaskController/Lawful.antt =====
-- Reconcile keeps to the lifecycle and to the effects of each phase, whatever the cluster answers.
use kbrain.Prelude.{Bool-cases, if◌then◌else◌, true, false, none, some, ◌≡◌, refl, inl, inr}
use kbrain.Prelude.Text.{is_empty}
use kbrain.Api.{AgentTask, AgentTaskPhase, unset, pending, initializing, running, creating_mr}
use kbrain.Effects.{
  Libs, ok, err, Key, get_task, update_task, Always, Always-weaken, Always-done, Always-call,
  Always-if, Always-result, Anything, is_not_found, done,
}
use kbrain.TaskController.Outcome.{finished, failure}
use kbrain.TaskController.Deletion.{handle_deletion, clean_up, drop_finalizer, task_finalizer}
use kbrain.TaskController.Reconcile.{dispatch, step, reconcile_task, reconcile, is_zero}
use kbrain.TaskController.Footprints.Pending.{handle_pending-calls}
use kbrain.TaskController.Footprints.Initializing.{handle_initializing-calls}
use kbrain.TaskController.Footprints.Running.{handle_running-calls}
use kbrain.TaskController.Footprints.CreatingMr.{handle_creating_mr-calls}
use kbrain.TaskController.Tracking.{
  observe, KeepsTask, Tracks, Tracks-bind, Always-Tracks, Tracks-weaken,
}
use kbrain.TaskController.Lifecycle.{
  begin, validate, while_unset, while_pending, Lawful, FollowsLifecycle, Confined, Gated,
  PendingCall-Lawful, InitializingCall-Lawful, RunningCall-Lawful, CreatingMrCall-Lawful,
}

module _ (libs : Libs) (t : AgentTask) where
  -- Each phase's handler, by the rules of its footprint.
  pub dispatch-calls :
      (p : AgentTaskPhase)
      → t.status.phase ≡ p
      → Always (λ c. Lawful libs t c × KeepsTask c) Anything (dispatch libs p t)
  unfolding dispatch
  dispatch-calls unset e =
      Always-weaken (PendingCall-Lawful libs t (rw e while_unset) (rw e begin)) (λ _ _. tt)
        (handle_pending-calls libs t)
  dispatch-calls pending e =
      Always-weaken (PendingCall-Lawful libs t (rw e while_pending) (rw e validate)) (λ _ _. tt)
        (handle_pending-calls libs t)
  dispatch-calls initializing e =
      Always-weaken (InitializingCall-Lawful libs t e) (λ _ _. tt)
        (handle_initializing-calls libs t)
  dispatch-calls running e =
      Always-weaken (RunningCall-Lawful libs t e) (λ _ _. tt) (handle_running-calls libs t)
  dispatch-calls creating_mr e =
      Always-weaken (CreatingMrCall-Lawful libs t e) (λ _ _. tt) (handle_creating_mr-calls libs t)
  dispatch-calls _ e = Always-done tt

  dispatch-Tracks : Tracks (Lawful libs) (some t) (dispatch libs t.status.phase t)
  dispatch-Tracks =
      Always-Tracks (Lawful libs) t (dispatch libs t.status.phase t)
        (dispatch-calls t.status.phase refl)

module _ (libs : Libs) where
  step-Tracks :
      (t : AgentTask)
      → is_zero t.deletion_timestamp ≡ true
      → Tracks (Lawful libs) (some t) (step libs t)
  unfolding step
  step-Tracks t z = elim (Bool-cases (libs.contains_finalizer t task_finalizer)) [
    | inl e ↦ rw e (dispatch-Tracks libs t)
    | inr e ↦ rw e (
      (tt, inl (z, refl), tt),
      λ r.
          elim r
            as (λ r.
              Tracks (Lawful libs)
                (observe (update_task (libs.add_finalizer t task_finalizer)) r (some t))
                (elim r [ ok t' ↦ dispatch libs t'.status.phase t' | err e ↦ done (failure e) ])) [
                  | ok t' ↦ dispatch-Tracks libs t'
                  | err e' ↦ tt
                ],
    )
  ]

  drop_finalizer-Tracks :
      (t : AgentTask)
      → is_zero t.deletion_timestamp ≡ false
      → Tracks (Lawful libs) (some t) (drop_finalizer libs t)
  unfolding drop_finalizer
  drop_finalizer-Tracks t z = (
    (tt, inr (z, refl), tt),
    λ r.
        elim r
          as (λ r.
            Tracks (Lawful libs)
              (observe (update_task (libs.remove_finalizer t task_finalizer)) r (some t))
              (elim r [ ok t' ↦ done finished | err e ↦ done (failure e) ])) [
                | ok t' ↦ tt
                | err e ↦ tt
              ],
  )

  clean_up-calls :
      (t : AgentTask) {Q : Unit {0} → Type 0}
      → is_zero t.deletion_timestamp ≡ false
      → Q tt
      → Always (λ c. Lawful libs t c × KeepsTask c) Q (clean_up t)
  unfolding clean_up
  clean_up-calls t z q =
      Always-if (is_empty t.status.pod_name) (λ _. Always-done q)
        λ _.
          Always-call ((tt, tt, tt), tt)
            λ r.
              Always-result r (λ p _. Always-call ((tt, inr z, tt), tt) λ _. Always-done q)
                (λ e _. Always-done q)

  deletion-Tracks :
      (t : AgentTask)
      → is_zero t.deletion_timestamp ≡ false
      → Tracks (Lawful libs) (some t) (handle_deletion libs t)
  unfolding handle_deletion
  deletion-Tracks t z =
      Tracks-bind (Lawful libs) t (clean_up t) _ (clean_up-calls t z (drop_finalizer-Tracks t z))

  reconcile_task-Tracks : (t : AgentTask) → Tracks (Lawful libs) (some t) (reconcile_task libs t)
  unfolding reconcile_task
  reconcile_task-Tracks t = elim (Bool-cases (is_zero t.deletion_timestamp)) [
    | inl e ↦ rw e (step-Tracks t e)
    | inr e ↦ rw e (deletion-Tracks t e)
  ]

  reconcile-Tracks : (key : Key) → Tracks (Lawful libs) none (reconcile libs key)
  unfolding reconcile
  reconcile-Tracks key = (
    tt,
    λ r.
        elim r
          as (λ r. Tracks (Lawful libs) (observe (get_task key) r none) (elim r [
            | ok t ↦ reconcile_task libs t
            | err e ↦ done (if is_not_found e then finished else failure e)
          ])) [ ok t ↦ reconcile_task-Tracks t | err e ↦ tt ],
  )

  -- On every path of Reconcile, a status write changes nothing of the metadata and the spec of the
  -- task as it was last answered, and moves its phase along an edge of the lifecycle.
  pub reconcile-FollowsLifecycle : (key : Key) → Tracks FollowsLifecycle none (reconcile libs key)
  reconcile-FollowsLifecycle key =
      Tracks-weaken (λ t c h. h.0) none (reconcile libs key) (reconcile-Tracks key)

  -- On every path of Reconcile, by the task as it was last answered: a pod is created only while
  -- Initializing, and is the pod that the builder built with its owner set; a request is sent only
  -- while CreatingMR, to the host of the task's platform, with a token that is not empty and with the
  -- task's own branches and title; a pod is deleted only while Running with a start time or when the
  -- task is being deleted; and the task is updated only to add the finalizer while it lives or to
  -- remove it when it is being deleted.
  pub reconcile-Confined : (key : Key) → Tracks (Confined libs) none (reconcile libs key)
  reconcile-Confined key =
      Tracks-weaken (λ t c h. h.1) none (reconcile libs key) (reconcile-Tracks key)

  -- On every path of Reconcile, a status write that sets the phase Initializing is made only for a
  -- task, as it was last answered, whose description, repository and base branch are given, and which
  -- names no pool or carries the annotation that grants it a slot.
  pub reconcile-Gated : (key : Key) → Tracks Gated none (reconcile libs key)
  reconcile-Gated key =
      Tracks-weaken (λ t c h. h.2) none (reconcile libs key) (reconcile-Tracks key)
