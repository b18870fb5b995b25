-- ===== src/System/Late.antt =====
-- A run of the pool controller that works on the tasks as they were: what it lists is some earlier
-- state of the cluster, and a grant is stored only where the task has not changed since, as the
-- resource version of an update ensures. A run whose grants are interleaved with other steps is a
-- sequence of such steps on the same earlier state.
use mathlib.Core.List.{Memᴰ}
use kbrain.Prelude.{◌<◌, List, [], ◌∷◌, ◌++◌, All}
use kbrain.Api.{AgentTask, AgentPool}
use kbrain.Effects.{Libs}
use kbrain.System.Steps.{
  ReplacedBy, Removed, GrantedAmong, WrittenBy, Edited, Fresh, grants_of, Listed,
}

-- All tasks of the states were created before.
abbrev pub NewerThanAll : AgentTask → List (List AgentTask) → Type 0
NewerThanAll t past = All (λ old. All (λ u. u.creation_timestamp < t.creation_timestamp) old) past

module _ (libs : Libs) (pool : AgentPool) where
  -- A step from the last of the states that the cluster has been in.
  pub data LateStep (past : List (List AgentTask)) (ts : List AgentTask)
      : List AgentTask → Type 0 where
    -- the pool controller grants slots, from what it listed in an earlier state
    late_run :
        {us : List AgentTask} (old seen : List AgentTask)
        → Memᴰ old past
        → Listed pool seen old
        → GrantedAmong (grants_of libs pool seen) ts us
        → LateStep past ts us
    task_write : {us : List AgentTask} → ReplacedBy (WrittenBy libs) ts us → LateStep past ts us
    edit : {us : List AgentTask} → ReplacedBy Edited ts us → LateStep past ts us
    delete : {us : List AgentTask} → Removed ts us → LateStep past ts us
    -- a task is created, later than every task that the cluster has held
    create : (t : AgentTask) → Fresh pool t → NewerThanAll t past → LateStep past ts (ts ++ t ∷ [])

  -- The states of the cluster, the last one first, and that one.
  pub data History : List (List AgentTask) → List AgentTask → Type 0 where
    begins : History ([] ∷ []) []
    continues :
        {past : List (List AgentTask)} {ts us : List AgentTask}
        → History past ts
        → LateStep past ts us
        → History (us ∷ past) us
