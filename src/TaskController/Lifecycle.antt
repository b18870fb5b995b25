-- ===== src/TaskController/Lifecycle.antt =====
-- The lifecycle of a task: which phase a status write may set, from the phase of the task in hand.
use kbrain.Prelude.{ap, none, ◌≡◌, ◌≢◌, refl, sym, subst, ◌⊎◌, inl, inr, true, false}
use kbrain.Api.{
  AgentTask, AgentTaskPhase, unset, pending, initializing, running, creating_mr, succeeded, failed,
}
use kbrain.Effects.{
  Libs, Call, get_task, update_task, update_task_status, create_pod, delete_pod, http_do,
}
use kbrain.TaskController.Reconcile.{is_zero}
use kbrain.TaskController.Deletion.{task_finalizer}
use kbrain.TaskController.Writes.{Fails}
use kbrain.TaskController.Footprints.Pending.{PendingCall, Ready}
use kbrain.TaskController.Footprints.Initializing.{InitializingCall, IsAgentPod}
use kbrain.TaskController.Footprints.Running.{RunningCall}
use kbrain.TaskController.Footprints.CreatingMr.{CreatingMrCall, IsTaskRequest}
use kbrain.TaskController.Tracking.{KeepsTask}

-- The phases from which a task may fail.
pub data MayFail : AgentTaskPhase → Type 0 where
  while_unset : MayFail unset
  while_pending : MayFail pending
  while_running : MayFail running
  while_creating_mr : MayFail creating_mr

pub data Edge : AgentTaskPhase → AgentTaskPhase → Type 0 where
  begin : Edge unset initializing
  validate : Edge pending initializing
  launch : Edge initializing running
  complete : Edge running creating_mr
  merge : Edge creating_mr succeeded
  fail : {p : AgentTaskPhase} → MayFail p → Edge p failed

-- The write changes the status only, and moves the phase along an edge.
abbrev pub Moves : AgentTask → AgentTask → Type 0
Moves t u = (u.meta ≡ t.meta) × (u.spec ≡ t.spec) × Edge t.status.phase u.status.phase

-- A status write moves the task along the lifecycle.
abbrev pub FollowsLifecycle : AgentTask → Call → Type 0
FollowsLifecycle t (update_task_status u) = Moves t u
FollowsLifecycle t _ = Unit

-- The other effects belong to a phase: pods are created while Initializing, and are the task's own;
-- requests are sent while CreatingMR, with the task's own options; a pod is deleted while Running
-- with a start time, or when the task is being deleted; and the task itself is updated only to add
-- the finalizer while it lives, or to remove it when it is being deleted.
abbrev pub Confined : Libs → AgentTask → Call → Type 0
Confined libs t (create_pod p) = (t.status.phase ≡ initializing) × IsAgentPod libs t p
Confined libs t (http_do r) = (t.status.phase ≡ creating_mr) × IsTaskRequest libs t r
Confined libs t (delete_pod p) =
    ((t.status.phase ≡ running) × (t.status.start_time ≢ none))
    ⊎ (is_zero t.deletion_timestamp ≡ false)
Confined libs t (update_task u) =
    ((is_zero t.deletion_timestamp ≡ true) × (u ≡ libs.add_finalizer t task_finalizer))
    ⊎ ((is_zero t.deletion_timestamp ≡ false) × (u ≡ libs.remove_finalizer t task_finalizer))
Confined libs t _ = Unit

-- A write that starts the task needs a valid spec and, for a task of a pool, a slot.
abbrev pub Gated : AgentTask → Call → Type 0
Gated t (update_task_status u) = (u.status.phase ≢ initializing) ⊎ Ready t
Gated t _ = Unit

abbrev pub Lawful : Libs → AgentTask → Call → Type 0
Lawful libs t c = FollowsLifecycle t c × Confined libs t c × Gated t c

Fails-Moves : (t u : AgentTask) → MayFail t.status.phase → Fails t u → Moves t u
Fails-Moves t u h f = (f.same_meta, f.same_spec, rw f.phase_failed (fail h))

Moves-eq : (t : AgentTask) {u v : AgentTask} → u ≡ v → Moves t v → Moves t u
Moves-eq t e m = subst (Moves t) (sym e) m

module _ (libs : Libs) (t : AgentTask) where
  pub PendingCall-Lawful :
      MayFail t.status.phase
      → Edge t.status.phase initializing
      → (c : Call) → PendingCall t c
      → Lawful libs t c × KeepsTask c
  PendingCall-Lawful f e (update_task_status u) (inl h) =
      ((Moves-eq t h.1 (refl, refl, e), tt, inr h.0), tt)
  PendingCall-Lawful f e (update_task_status u) (inr h) =
      ((Fails-Moves t u f h, tt, inl (λ n. cc h.phase_failed)), tt)
  PendingCall-Lawful f e (get_task k) h = absurd h
  PendingCall-Lawful f e (update_task u) h = absurd h
  PendingCall-Lawful f e (create_pod p) h = absurd h
  PendingCall-Lawful f e (delete_pod p) h = absurd h
  PendingCall-Lawful f e (http_do r) h = absurd h
  PendingCall-Lawful f e _ h = ((tt, tt, tt), tt)

  pub InitializingCall-Lawful :
      t.status.phase ≡ initializing
      → (c : Call) → InitializingCall libs t c
      → Lawful libs t c × KeepsTask c
  InitializingCall-Lawful e (update_task_status u) (inl h) =
      ((Moves-eq t h (refl, refl, rw e launch), tt, inl (λ n. cc (ap (λ v. v.status.phase) h))), tt)
  InitializingCall-Lawful e (update_task_status u) (inr h) = (
    (Moves-eq t h.2 (refl, refl, rw e launch), tt, inl (λ n. cc (ap (λ v. v.status.phase) h.2))),
    tt,
  )
  InitializingCall-Lawful e (get_task k) h = absurd h
  InitializingCall-Lawful e (update_task u) h = absurd h
  InitializingCall-Lawful e (create_pod p) h = ((tt, (e, h), tt), tt)
  InitializingCall-Lawful e (delete_pod p) h = absurd h
  InitializingCall-Lawful e (http_do r) h = absurd h
  InitializingCall-Lawful e _ h = ((tt, tt, tt), tt)

  pub RunningCall-Lawful :
      t.status.phase ≡ running → (c : Call) → RunningCall t c → Lawful libs t c × KeepsTask c
  RunningCall-Lawful e (update_task_status u) (inl h) = (
    (Moves-eq t h (refl, refl, rw e complete), tt, inl (λ n. cc (ap (λ v. v.status.phase) h))),
    tt,
  )
  RunningCall-Lawful e (update_task_status u) (inr h) =
      ((Fails-Moves t u (rw e while_running) h, tt, inl (λ n. cc h.phase_failed)), tt)
  RunningCall-Lawful e (get_task k) h = absurd h
  RunningCall-Lawful e (update_task u) h = absurd h
  RunningCall-Lawful e (create_pod p) h = absurd h
  RunningCall-Lawful e (delete_pod p) h = ((tt, inl (e, h), tt), tt)
  RunningCall-Lawful e (http_do r) h = absurd h
  RunningCall-Lawful e _ h = ((tt, tt, tt), tt)

  pub CreatingMrCall-Lawful :
      t.status.phase ≡ creating_mr
      → (c : Call) → CreatingMrCall libs t c
      → Lawful libs t c × KeepsTask c
  CreatingMrCall-Lawful e (update_task_status u) (inl h) = (
    (Moves-eq t h.2 (refl, refl, rw e merge), tt, inl (λ n. cc (ap (λ v. v.status.phase) h.2))),
    tt,
  )
  CreatingMrCall-Lawful e (update_task_status u) (inr h) =
      ((Fails-Moves t u (rw e while_creating_mr) h, tt, inl (λ n. cc h.phase_failed)), tt)
  CreatingMrCall-Lawful e (get_task k) h = absurd h
  CreatingMrCall-Lawful e (update_task u) h = absurd h
  CreatingMrCall-Lawful e (create_pod p) h = absurd h
  CreatingMrCall-Lawful e (delete_pod p) h = absurd h
  CreatingMrCall-Lawful e (http_do r) h = ((tt, (e, h), tt), tt)
  CreatingMrCall-Lawful e _ h = ((tt, tt, tt), tt)
