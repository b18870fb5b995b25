-- ===== src/PoolController/Reconcile.antt =====
-- Reconcile of the pool controller.
use kbrain.Prelude.{◌*◌, List, [], ◌∷◌, if◌then◌else◌, length, map}
use kbrain.Prelude.Int.{int32}
use kbrain.Api.{AgentTask, AgentPool, AgentPoolStatus}
use kbrain.Effects.{
  Libs, is_not_found, ok, err, Key, get_pool, update_pool_status, Program, done, perform, ◌>>=◌,
  ◌>>◌,
}
use kbrain.TaskController.Outcome.{Outcome, finished, failure, requeue_in, second}
use kbrain.PoolController.Tasks.{Groups, no_groups, categorize, list_pool_tasks}
use kbrain.PoolController.Slots.{slots_available, chosen, grant_all}

-- The status with what the groups amount to; its conditions stay.
unfoldable pub status_of : AgentPoolStatus → Groups → AgentPoolStatus
status_of st g = record st {
  active_agents = int32 (length g.active);
  queued_tasks = int32 (length g.waiting);
  completed_tasks = int32 (length g.completed);
  failed_tasks = int32 (length g.broken);
  active_task_names = map (λ t. t.name) g.active;
}

-- The return at the end.
unfoldable pub again_if_waiting : List AgentTask → Outcome
again_if_waiting [] = finished
again_if_waiting (t ∷ ts) = requeue_in (10 * second)

-- The status update that ends Reconcile.
unfoldable pub update_status : AgentPool → Groups → Program Outcome
unfolding status_of again_if_waiting
update_status pool g = do
  updated ← perform (update_pool_status (record pool { status = status_of pool.status g }))
  elim updated [ err e ↦ done (failure e) | ok p ↦ done (again_if_waiting g.waiting) ]

module _ (libs : Libs) where
  -- Reconcile, once the tasks are sorted into groups.
  unfoldable pub reconcile_groups : AgentPool → Groups → Program Outcome
  unfolding update_status grant_all
  reconcile_groups pool g = do
    grant_all (chosen libs (slots_available pool.spec.max_concurrency g.active) g.waiting)
    update_status pool g

  -- Reconcile, from the pool that was read.
  unfoldable pub reconcile_pool : AgentPool → Program Outcome
  unfolding reconcile_groups list_pool_tasks
  reconcile_pool pool = do
    listed ← list_pool_tasks libs pool
    elim listed [
      | err e ↦ done (failure e)
      | ok tasks ↦ reconcile_groups pool (categorize tasks no_groups)
    ]

  -- `Reconcile`.
  unfoldable pub reconcile : Key → Program Outcome
  unfolding reconcile_pool
  reconcile key = do
    found ← perform (get_pool key)
    elim found [
      | ok pool ↦ reconcile_pool pool
      | err e ↦ done (if is_not_found e then finished else failure e)
    ]
