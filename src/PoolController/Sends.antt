-- ===== src/PoolController/Sends.antt =====
-- What Reconcile of the pool controller sends to the cluster, against any server.
use kbrain.Prelude.{List, [], ◌∷◌, ◌++◌, map, ◌≡◌, refl, ap}
use kbrain.Api.{AgentTask, AgentPool}
use kbrain.Effects.{
  Libs, Result, ok, err, Key, ListFilter, get_pool, list_tasks, update_task, update_pool_status,
  Program, done, ◌>>=◌, Server, calls,
}
use kbrain.TaskController.Outcome.{failure}
use kbrain.PoolController.Tasks.{
  Groups, no_groups, categorize, keep_own, list_filter, list_pool_tasks,
}
use kbrain.PoolController.Slots.{slots_available, grant, grant_all, chosen}
use kbrain.PoolController.Reconcile.{
  status_of, again_if_waiting, update_status, reconcile_groups, reconcile_pool, reconcile,
}

module _ {S : Type 0} (v : Server S) where
  -- Each task is updated, also after an update that fails, before the program goes on.
  grant_all-calls {ℓ} :
      {B : Type ℓ} (ts : List AgentTask) (m : Program B) (s : S)
      → (s' : S) × (calls v (grant_all ts >>= λ _. m) s
          ≡ map (λ t. update_task (grant t)) ts ++ calls v m s')
  unfolding grant_all calls
  grant_all-calls [] m s = (s, refl)
  grant_all-calls (t ∷ ts) m s =
      let (s', e) = grant_all-calls ts m (v.answer (update_task (grant t)) s).1 in
      (s', ap (◌∷◌ (update_task (grant t))) e)

  update_status-calls :
      (pool : AgentPool) (g : Groups) (s : S)
      → calls v (update_status pool g) s
        ≡ update_pool_status (record pool { status = status_of pool.status g }) ∷ []
  unfolding update_status calls
  update_status-calls pool g s =
      ap (◌∷◌ (update_pool_status (record pool { status = status_of pool.status g }))) (
        last (v.answer (update_pool_status (record pool { status = status_of pool.status g })) s).0)
    where
      last :
          (r : Result AgentPool)
          → calls v
              (elim r [ err e ↦ done (failure e) | ok p ↦ done (again_if_waiting g.waiting) ])
              (v.answer (update_pool_status (record pool { status = status_of pool.status g })) s).1
            ≡ []
      last (ok p) = refl
      last (err e) = refl

  reconcile_groups-calls :
      (libs : Libs) (pool : AgentPool) (g : Groups) (s : S)
      → calls v (reconcile_groups libs pool g) s
        ≡ map
            (λ t. update_task (grant t))
            (chosen libs (slots_available pool.spec.max_concurrency g.active) g.waiting)
          ++ (update_pool_status (record pool { status = status_of pool.status g }) ∷ [])
  unfolding reconcile_groups
  reconcile_groups-calls libs pool g s =
      let slots = slots_available pool.spec.max_concurrency g.active in
      let (s', e) = grant_all-calls (chosen libs slots g.waiting) (update_status pool g) s in
      rw (update_status-calls pool g s') at e

module _ {S : Type 0} (v : Server S) (libs : Libs) where
  -- When the pool is read, its selector, if it has one, parses, and its tasks are listed, Reconcile
  -- makes these calls and no others, whatever the server answers to the later ones: the read, the list,
  -- one update for each chosen task, which marks it as granted, and last the update of the pool's
  -- status to that of the groups of the listed tasks.
  pub reconcile-calls :
      (key : Key) (pool : AgentPool) (f : ListFilter) (tasks : List AgentTask) (s s1 s2 : S)
      → v.answer (get_pool key) s ≡ (ok pool, s1)
      → list_filter libs pool.spec.selector pool.name ≡ ok f
      → v.answer (list_tasks (record { namespace = pool.namespace; filter = f })) s1
        ≡ (ok tasks, s2)
      → let g = categorize (keep_own pool tasks) no_groups in
        calls v (reconcile libs key) s
        ≡ get_pool key
          ∷ list_tasks (record { namespace = pool.namespace; filter = f })
          ∷ (map
                (λ t. update_task (grant t))
                (chosen libs (slots_available pool.spec.max_concurrency g.active) g.waiting)
              ++ (update_pool_status (record pool { status = status_of pool.status g }) ∷ []))
  unfolding reconcile reconcile_pool list_pool_tasks calls
  reconcile-calls key pool f tasks s s1 s2 a b c =
      rw (a, b, c)
        (ap (λ l. get_pool key ∷ list_tasks (record { namespace = pool.namespace; filter = f }) ∷ l)
          (reconcile_groups-calls v libs pool (categorize (keep_own pool tasks) no_groups) s2))
