-- ===== src/System/Histories.antt =====
-- The states that one task goes through, and how many status writes lie between them.
use kbrain.Prelude.{ℕ, suc}
use kbrain.Api.{
  AgentTask, AgentTaskPhase, unset, pending, initializing, running, pushing_branch, creating_mr,
  succeeded, failed,
}
use kbrain.Effects.{Libs}
use kbrain.System.Steps.{WrittenBy, Edited}

-- A history from one state of a task to another, by the number of its status writes. Between them
-- others may edit the task, and writes may be refused, but nobody else sets its phase.
pub data History (libs : Libs) (t : AgentTask) : AgentTask → ℕ → Type 0 where
  begins : History libs t t 0
  writes :
      {u v : AgentTask} {n : ℕ} → History libs t u n → WrittenBy libs u v → History libs t v (suc n)
  edited : {u v : AgentTask} {n : ℕ} → History libs t u n → Edited u v → History libs t v n

-- How far along a task is; a task that has ended is the farthest.
abbrev pub rank : AgentTaskPhase → ℕ
rank unset = 0
rank pending = 0
rank initializing = 1
rank running = 2
rank pushing_branch = 2
rank creating_mr = 3
rank succeeded = 4
rank failed = 4
rank _ = 0
