-- ===== src/Tests/Stale.antt =====
-- A run of the pool controller on the tasks as they were before a second one was created.
use mathlib.Core.List.{Memᴰ}
use mathlib.Core.List.Perm
use kbrain.Prelude.{List, [], ◌∷◌, ◌≡◌, refl}
use kbrain.Prelude.Text.{lit, text_eq}
use kbrain.Api.{AgentTask, AgentPool, unset, pushing_branch}
use kbrain.PoolController.Tasks.{keep_own, has_selector}
use kbrain.PoolController.Slots.{grant}
use kbrain.System.Steps.{grants_of}
use kbrain.Prelude.Int.{pos}
use kbrain.Effects.{Call, MayCall}
use kbrain.TaskController.Reconcile.{dispatch}
use kbrain.System.Stuck.{pushing_branch_blocks}
use kbrain.Tests.Samples.{sample_libs, sample_libs-SortLaws, pooled, crew}

abbrev first : AgentTask
first = pooled unset 10

abbrev second : AgentTask
second = pooled unset 11

abbrev one : List AgentTask
one = first ∷ []

abbrev two : List AgentTask
two = first ∷ second ∷ []

abbrev late : List AgentTask
late = grant first ∷ second ∷ []

-- A pool of one slot whose listed tasks are one in the phase PushingBranch and a new one.
abbrev pushing : AgentTask
pushing = pooled pushing_branch 9

abbrev narrow : AgentPool
narrow = record crew { spec = record crew.spec { max_concurrency = pos 1 } }

pushing-kept : Memᴰ pushing (keep_own narrow (pushing ∷ first ∷ []))
unfolding keep_own has_selector text_eq lit
pushing-kept = Memᴰ.head refl

pushing_branch_blocks_example :
    (grants_of sample_libs narrow (pushing ∷ first ∷ []) ≡ [])
    × ((c : Call) → ¬ MayCall c (dispatch sample_libs pushing_branch pushing))
pushing_branch_blocks_example =
    pushing_branch_blocks sample_libs sample_libs-SortLaws narrow pushing (pushing ∷ first ∷ [])
      refl refl pushing-kept
