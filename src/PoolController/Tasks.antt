-- ===== src/PoolController/Tasks.antt =====
-- listPoolTasks, mapTaskToPool, and the loop of Reconcile that sorts tasks by phase.
use kbrain.Prelude.{Bool, true, false, Option, none, some, List, [], ◌∷◌, ◌++◌, ◌||◌, if◌then◌else◌}
use kbrain.Prelude.Text.{Text, lit, text_eq, is_empty}
use kbrain.Api.{
  AgentTask, AgentTaskPhase, unset, pending, initializing, running, pushing_branch, creating_mr,
  succeeded, failed, AgentPool, Dict,
}
use kbrain.Effects.{
  Libs, Result, ok, err, Key, ListFilter, matching_labels, matching_field, list_tasks, Program,
  done, perform, ◌>>=◌,
}

-- The four slices of Reconcile.
pub record Groups : Type 0 where
  pub active : List AgentTask
  pub waiting : List AgentTask
  pub completed : List AgentTask
  pub broken : List AgentTask

abbrev pub no_groups : Groups
no_groups = record { active = []; waiting = []; completed = []; broken = [] }

-- One round of the loop: a task of another phase is in no group.
unfoldable pub place : AgentTaskPhase → AgentTask → Groups → Groups
place running t g = record g { active = g.active ++ t ∷ [] }
place initializing t g = record g { active = g.active ++ t ∷ [] }
place pushing_branch t g = record g { active = g.active ++ t ∷ [] }
place creating_mr t g = record g { active = g.active ++ t ∷ [] }
place unset t g = record g { waiting = g.waiting ++ t ∷ [] }
place pending t g = record g { waiting = g.waiting ++ t ∷ [] }
place succeeded t g = record g { completed = g.completed ++ t ∷ [] }
place failed t g = record g { broken = g.broken ++ t ∷ [] }
place _ t g = g

unfoldable pub categorize : List AgentTask → Groups → Groups
unfolding place
categorize [] g = g
categorize (t ∷ ts) g = categorize ts (place t.status.phase t g)

-- `pool.Spec.Selector != nil`.
unfoldable pub has_selector : AgentPool → Bool
has_selector pool = elim pool.spec.selector [ none ↦ false | some labels ↦ true ]

-- The loop over the listed tasks.
unfoldable pub keep_own : AgentPool → List AgentTask → List AgentTask
unfolding has_selector
keep_own pool [] = []
keep_own pool (t ∷ ts) =
    if has_selector pool || text_eq t.spec.pool_ref pool.name
    then t ∷ keep_own pool ts
    else keep_own pool ts

module _ (libs : Libs) where
  -- The option that follows the namespace.
  unfoldable pub list_filter : Option Dict → Text → Result ListFilter
  list_filter none name = ok (matching_field (lit "spec.poolRef") name)
  list_filter (some labels) name = elim (libs.parse_selector (libs.set_string labels)) [
    | err e ↦ err e
    | ok s ↦ ok (matching_labels s)
  ]

  -- `listPoolTasks`.
  unfoldable pub list_pool_tasks : AgentPool → Program (Result (List AgentTask))
  unfolding list_filter keep_own
  list_pool_tasks pool = elim (list_filter pool.spec.selector pool.name) [
    | err e ↦ done (err e)
    | ok f ↦ do
      listed ← perform (list_tasks (record { namespace = pool.namespace; filter = f }))
      elim listed [ err e ↦ done (err e) | ok tasks ↦ done (ok (keep_own pool tasks)) ]
  ]

-- `mapTaskToPool`; none is an object that is no task.
unfoldable pub map_task_to_pool : Option AgentTask → List Key
map_task_to_pool none = []
map_task_to_pool (some task) =
    if is_empty task.spec.pool_ref
    then []
    else record { name = task.spec.pool_ref; namespace = task.namespace } ∷ []
