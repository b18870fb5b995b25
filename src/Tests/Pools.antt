-- ===== src/Tests/Pools.antt =====
-- Instances of the theorems on the pool controller, and a run of it.
use mathlib.Core.List.{Perm, Memᴰ}
use kbrain.Prelude.{
  ◌-◌, ◌≤◌, min, false, some, List, [], ◌∷◌, ◌++◌, map, ◌≡◌, refl, ◌↔◌, length, All, arith,
}
use kbrain.Prelude.Int.{pos, pos_part}
use kbrain.Prelude.Text.{lit, is_empty}
use kbrain.Api.{AgentTask, unset, pending, running, failed}
use kbrain.Effects.{
  ListFilter, matching_field, Key, get_pool, list_tasks, update_task, update_pool_status, calls,
}
use kbrain.TaskController.Pending.{waits_for_slot}
use kbrain.PoolController.Tasks.{
  no_groups, categorize, has_selector, keep_own, list_filter, map_task_to_pool,
}
use kbrain.PoolController.Slots.{slots_available, grant, chosen}
use kbrain.PoolController.Reconcile.{status_of, reconcile}
use kbrain.PoolController.Groups.{
  select, is_active, is_waiting, is_completed, is_broken, categorize-select, status_of-categorize,
}
use kbrain.PoolController.Membership.{keep_own-members, selector_bypasses_gate}
use kbrain.PoolController.Grants.{passed_over, length-chosen, chosen_fifo}
use kbrain.PoolController.Sends.{reconcile-calls}
use kbrain.Tests.Sorting.{sort_by}
use kbrain.Tests.Samples.{
  sample_libs, sample_libs-SortLaws, in_phase, pooled, crew, labelled_crew, crew_tasks, Cluster,
  cluster_of, sample_server,
}

abbrev busy : List AgentTask
busy = pooled running 3 ∷ []

abbrev queue : List AgentTask
queue = crew_tasks unset pending unset

abbrev mixed : List AgentTask
mixed = crew_tasks running pending failed

abbrev crew_key : Key
crew_key = record { name = lit "crew"; namespace = lit "default" }

abbrev by_pool : ListFilter
by_pool = matching_field (lit "spec.poolRef") (lit "crew")

abbrev crew_cluster : Cluster
crew_cluster = record (cluster_of (in_phase unset)) { tasks = mixed }

-- With one of two slots taken, the oldest of three waiting tasks is chosen.
oldest_chosen : chosen sample_libs (slots_available (pos 2) busy) queue ≡ pooled pending 10 ∷ []
unfolding chosen slots_available sort_by
oldest_chosen = refl

length-chosen_example :
    length (chosen sample_libs (slots_available (pos 2) busy) queue)
    ≡ min (pos_part (pos 2) - length busy) (length queue)
length-chosen_example = length-chosen sample_libs sample_libs-SortLaws (pos 2) busy queue

chosen_fifo_example :
    Perm (chosen sample_libs (pos 1) queue ++ passed_over sample_libs (pos 1) queue) queue
    × All
        (λ t.
          All
            (λ u. t.creation_timestamp ≤ u.creation_timestamp)
            (passed_over sample_libs (pos 1) queue))
        (chosen sample_libs (pos 1) queue)
chosen_fifo_example = chosen_fifo sample_libs sample_libs-SortLaws (pos 1) queue

categorize-select_example :
    let g = categorize mixed no_groups in
    (g.active ≡ select is_active mixed)
    × (g.waiting ≡ select is_waiting mixed)
    × (g.completed ≡ select is_completed mixed)
    × (g.broken ≡ select is_broken mixed)
categorize-select_example = categorize-select mixed

status_of-categorize_example :
    let st = status_of crew.status (categorize mixed no_groups) in
    (st.active_agents ≡ pos (length (select is_active mixed)))
    × (st.queued_tasks ≡ pos (length (select is_waiting mixed)))
    × (st.completed_tasks ≡ pos (length (select is_completed mixed)))
    × (st.failed_tasks ≡ pos (length (select is_broken mixed)))
    × (st.active_task_names ≡ map (λ t. t.name) (select is_active mixed))
    × (st.conditions ≡ [])
status_of-categorize_example = status_of-categorize crew.status mixed (omega arith)

-- A task of the pool, behind one that names no pool.
abbrev listed : List AgentTask
listed = in_phase unset ∷ pooled pending 10 ∷ []

keep_own-members_example :
    Memᴰ (pooled pending 10) (keep_own crew listed)
    ↔ (Memᴰ (pooled pending 10) listed × ((pooled pending 10).spec.pool_ref ≡ crew.name))
keep_own-members_example =
    keep_own-members crew listed (pooled pending 10) (unfold has_selector in refl)

selector_bypasses_gate_example :
    (keep_own labelled_crew (in_phase unset ∷ queue) ≡ in_phase unset ∷ queue)
    × (waits_for_slot (in_phase unset) ≡ false)
    × (map_task_to_pool (some (in_phase unset)) ≡ [])
selector_bypasses_gate_example =
    selector_bypasses_gate labelled_crew queue (in_phase unset) (unfold has_selector in refl)
      (unfold is_empty in refl)

reconcile-calls_example :
    let g = categorize (keep_own crew mixed) no_groups in
    calls sample_server (reconcile sample_libs crew_key) crew_cluster
    ≡ get_pool crew_key
      ∷ list_tasks (record { namespace = lit "default"; filter = by_pool })
      ∷ (map
            (λ t. update_task (grant t))
            (chosen sample_libs (slots_available (pos 2) g.active) g.waiting)
          ++ (update_pool_status (record crew { status = status_of crew.status g }) ∷ []))
reconcile-calls_example =
    reconcile-calls sample_server sample_libs crew_key crew by_pool mixed crew_cluster crew_cluster
      crew_cluster refl (unfold list_filter in refl) refl
