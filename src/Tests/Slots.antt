-- ===== src/Tests/Slots.antt =====
-- Instances of the theorems on both controllers together, for pools of two slots and of one.
use mathlib.Core.List.{Memᴰ}
use mathlib.Core.List.Perm
use kbrain.Prelude.{List, [], ◌∷◌, ◌≡◌, refl, inr}
use kbrain.Prelude.Int.{pos}
use kbrain.Prelude.Text.{lit, is_empty, text_eq}
use kbrain.Api.{AgentTask, AgentPool, unset, lookup, index}
use kbrain.TaskController.Pending.{slot_granted}
use kbrain.PoolController.Tasks.{categorize, keep_own, has_selector}
use kbrain.PoolController.Slots.{slots_available, grant, chosen}
use kbrain.PoolController.Groups.{is_waiting}
use kbrain.System.Order.{own-Listed}
use kbrain.System.Steps.{
  Listed, Fresh, Step, pool_runs, arrives, Reach, start, after, Later, grants_of,
}
use kbrain.System.Granting.{limit}
use kbrain.System.Slots.{SlotStep, slots_of}
use kbrain.System.Refinement.{Step-SlotStep}
use kbrain.Tests.Sorting.{sort_by}
use kbrain.Tests.Samples.{sample_libs, sample_libs-SortLaws, pooled, crew}

abbrev task : AgentTask
task = pooled unset 10

task-Fresh : Fresh crew task
unfolding slot_granted index lookup text_eq lit is_waiting
task-Fresh = record { waits = refl; not_granted = refl; of_pool = refl }

abbrev before : List AgentTask
before = task ∷ []

abbrev granted : List AgentTask
granted = grant task ∷ []

one_created : Reach sample_libs crew Later before
one_created = after start (arrives task task-Fresh tt)

before-Listed : Listed crew before before
before-Listed = own-Listed crew before before refl (refl, tt) (Perm.refl _)

one_chosen : grants_of sample_libs crew before ≡ task ∷ []
unfolding chosen slots_available sort_by categorize keep_own has_selector text_eq lit
one_chosen = refl

one_granted : Step sample_libs crew Later before granted
one_granted = pool_runs before before-Listed (inr (rw one_chosen (Memᴰ.head refl), refl), tt)

one_granted_counts : SlotStep (limit crew) (slots_of before) (slots_of granted)
one_granted_counts =
    Step-SlotStep sample_libs sample_libs-SortLaws crew (unfold is_empty lit in refl) refl before
      granted one_created one_granted

abbrev single : AgentPool
single = record crew { spec = record crew.spec { max_concurrency = pos 1 } }

-- A task created in the same second as the other one.
abbrev twin : AgentTask
twin = record task { meta = record task.meta { name = lit "twin" } }
