-- ===== src/System/Stale.antt =====
-- Runs of the pool controller on old copies of the tasks keep the limit.
use mathlib.Core.List.{Memᴰ}
use kbrain.Prelude.{ℕ, ◌<◌, List, All}
use kbrain.Api.{AgentTask, AgentPool}
use kbrain.System.Order.{times}
use kbrain.System.Invariant.{Inv}
use kbrain.System.Ahead.{too_new}

-- A time that some waiting task of an earlier state must not be granted before stays so.
abbrev KeepsAhead : AgentPool → List (List AgentTask) → List AgentTask → Type 0
KeepsAhead pool past ts =
    (old : List AgentTask)
    → Memᴰ old past
    → (n : ℕ) → Memᴰ n (times old)
    → All (λ m. n < m) (too_new pool old)
    → All (λ m. n < m) (too_new pool ts)

-- All states of a history keep the invariant, and a task that was early enough for a slot in one of
-- them is so in the last one.
record Sound (pool : AgentPool) (past : List (List AgentTask)) (ts : List AgentTask) : Type 0 where
  all_inv : (old : List AgentTask) → Memᴰ old past → Inv pool old
  inv : Inv pool ts
  present : Memᴰ ts past
  keeps_ahead : KeepsAhead pool past ts
