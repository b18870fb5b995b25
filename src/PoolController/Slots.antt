-- ===== src/PoolController/Slots.antt =====
-- The free slots of a pool, and the loop that grants them to the tasks that wait longest.
use kbrain.Prelude.{ℕ, Bool, List, [], ◌∷◌, ltb, if◌then◌else◌, length, take}
use kbrain.Prelude.Int.{ℤ, pos, negsuc, pos_part, ◌-ℤ◌}
use kbrain.Prelude.Text.{lit}
use kbrain.Api.{AgentTask, insert}
use kbrain.Effects.{Libs, update_task, Program, done, perform, ◌>>◌}
use kbrain.TaskController.Pending.{slot_annotation}

-- `int(pool.Spec.MaxConcurrency) - len(active)`.
unfoldable pub slots_available : ℤ → List AgentTask → ℤ
unfolding ◌-ℤ◌
slots_available max active = max -ℤ pos (length active)

-- The comparison of the sort.
abbrev pub created_before : AgentTask → AgentTask → Bool
created_before a b = ltb a.creation_timestamp b.creation_timestamp

-- A task with the annotation that grants it a slot.
unfoldable pub grant : AgentTask → AgentTask
grant t = record t {
  meta = record t.meta { annotations = insert slot_annotation (lit "true") t.annotations };
}

-- The loop over the tasks to grant; a failed update is logged, and the loop goes on.
unfoldable pub grant_all : List AgentTask → Program (Unit {0})
unfolding grant
grant_all [] = done tt
grant_all (t ∷ ts) = do perform (update_task (grant t)); grant_all ts

-- `toGrant`, for a positive number of slots.
unfoldable pub to_grant : ℤ → List AgentTask → ℕ
to_grant slots waiting =
    if ltb (length waiting) (pos_part slots) then length waiting else pos_part slots

-- The tasks of the loop: none unless a slot is free, and else the first of the sorted ones.
unfoldable pub chosen : Libs → ℤ → List AgentTask → List AgentTask
unfolding to_grant
chosen libs (negsuc n) waiting = []
chosen libs (pos n) waiting =
    if ltb 0 n then take (to_grant (pos n) waiting) (libs.sort_slice created_before waiting) else []
