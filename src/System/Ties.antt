-- ===== src/System/Ties.antt =====
-- Two tasks that are created at the same time, which the cluster records in whole seconds.
use mathlib.Core.List.{Perm}
use mathlib.Core.List.Perm
use kbrain.Prelude.{◌⊎◌, false, List, [], ◌∷◌, ◌≡◌}
use kbrain.Api.{AgentTask}
use kbrain.Effects.{Libs}
use kbrain.PoolController.Slots.{created_before}

-- `sort.Slice` sees the elements only through the comparisons: of two that are equal, their positions
-- alone decide whether they change places.
abbrev pub TiesByPosition : Libs → Type 0
TiesByPosition libs =
    ((x y : AgentTask)
      → created_before x y ≡ false
      → created_before y x ≡ false
      → libs.sort_slice created_before (x ∷ y ∷ []) ≡ x ∷ y ∷ [])
    ⊎ ((x y : AgentTask)
        → created_before x y ≡ false
        → created_before y x ≡ false
        → libs.sort_slice created_before (x ∷ y ∷ []) ≡ y ∷ x ∷ [])
