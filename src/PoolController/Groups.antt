-- ===== src/PoolController/Groups.antt =====
-- The groups of Reconcile against a description by phases, and the counts of the pool's status.
use kbrain.Prelude.{
  ◌<◌, ◌≤◌, ◌^◌, Bool, true, false, List, [], ◌∷◌, ◌++◌, map, ◌≡◌, refl, ap, if◌then◌else◌, length,
  append_assoc, append-nil, arith,
}
use kbrain.Prelude.Int.{pos, int32, int32_small}
use kbrain.Api.{
  AgentPoolStatus, AgentTask, AgentTaskPhase, unset, pending, initializing, running, pushing_branch,
  creating_mr, succeeded, failed, other,
}
use kbrain.PoolController.Tasks.{Groups, no_groups, place, categorize}
use kbrain.PoolController.Reconcile.{status_of}

-- The phases in which a task occupies a slot.
unfoldable pub is_active : AgentTaskPhase → Bool
is_active running = true
is_active initializing = true
is_active pushing_branch = true
is_active creating_mr = true
is_active _ = false

unfoldable pub is_waiting : AgentTaskPhase → Bool
is_waiting unset = true
is_waiting pending = true
is_waiting _ = false

unfoldable pub is_completed : AgentTaskPhase → Bool
is_completed succeeded = true
is_completed _ = false

unfoldable pub is_broken : AgentTaskPhase → Bool
is_broken failed = true
is_broken _ = false

-- The tasks of the phases that pass a test, in their order.
unfoldable pub select : (AgentTaskPhase → Bool) → List AgentTask → List AgentTask
select p [] = []
select p (t ∷ ts) = if p t.status.phase then t ∷ select p ts else select p ts

-- What place adds to a group.
added : (AgentTaskPhase → Bool) → AgentTaskPhase → AgentTask → List AgentTask
added p ph t = if p ph then t ∷ [] else []

place_lem :
    (ph : AgentTaskPhase) (t : AgentTask) (g : Groups)
    → place ph t g ≡ record {
      active = g.active ++ added is_active ph t;
      waiting = g.waiting ++ added is_waiting ph t;
      completed = g.completed ++ added is_completed ph t;
      broken = g.broken ++ added is_broken ph t;
    }
unfolding place added is_active is_waiting is_completed is_broken
place_lem unset t g = simp append-nil
place_lem pending t g = simp append-nil
place_lem initializing t g = simp append-nil
place_lem running t g = simp append-nil
place_lem pushing_branch t g = simp append-nil
place_lem creating_mr t g = simp append-nil
place_lem succeeded t g = simp append-nil
place_lem failed t g = simp append-nil
place_lem (other s) t g = simp append-nil

select-cons :
    (p : AgentTaskPhase → Bool) (t : AgentTask) (ts : List AgentTask)
    → select p (t ∷ ts) ≡ added p t.status.phase t ++ select p ts
unfolding select added
select-cons p t ts = ground arith

-- The loop appends to each group the tasks of its phases.
categorize_from :
    (ts : List AgentTask) (g : Groups)
    → categorize ts g ≡ record {
      active = g.active ++ select is_active ts;
      waiting = g.waiting ++ select is_waiting ts;
      completed = g.completed ++ select is_completed ts;
      broken = g.broken ++ select is_broken ts;
    }
unfolding categorize
categorize_from [] g = unfold select in simp append-nil
categorize_from (t ∷ ts) g =
    rw (place_lem t.status.phase t g, categorize_from ts) (simp (select-cons, append_assoc))

-- The groups of a list are the tasks of their phases, in the list's order; a task of any other phase
-- is in none.
pub categorize-select :
    (ts : List AgentTask)
    → let g = categorize ts no_groups in
      (g.active ≡ select is_active ts)
      × (g.waiting ≡ select is_waiting ts)
      × (g.completed ≡ select is_completed ts)
      × (g.broken ≡ select is_broken ts)
categorize-select ts =
    let e = categorize_from ts no_groups in
    (ap (λ g. g.active) e, ap (λ g. g.waiting) e, ap (λ g. g.completed) e, ap (λ g. g.broken) e)

length-select-le :
    (p : AgentTaskPhase → Bool) (ts : List AgentTask) → length (select p ts) ≤ length ts
unfolding select
length-select-le p [] = omega arith
length-select-le p (t ∷ ts) = ground (arith, length-select-le p ts)

int32-select :
    (p : AgentTaskPhase → Bool) (ts us : List AgentTask)
    → us ≡ select p ts
    → length ts < 2 ^ 31
    → int32 (length us) ≡ pos (length (select p ts))
int32-select p ts us e h =
    rw e (int32_small (length (select p ts)) (omega (arith, length-select-le p ts)))

-- The status that Reconcile writes counts the listed tasks by phase, names the active ones and keeps
-- the conditions, and none of its four counts wraps around while fewer than 2^31 tasks are listed.
pub status_of-categorize :
    (old : AgentPoolStatus) (ts : List AgentTask)
    → length ts < 2 ^ 31
    → let st = status_of old (categorize ts no_groups) in
      (st.active_agents ≡ pos (length (select is_active ts)))
      × (st.queued_tasks ≡ pos (length (select is_waiting ts)))
      × (st.completed_tasks ≡ pos (length (select is_completed ts)))
      × (st.failed_tasks ≡ pos (length (select is_broken ts)))
      × (st.active_task_names ≡ map (λ t. t.name) (select is_active ts))
      × (st.conditions ≡ old.conditions)
unfolding status_of
status_of-categorize old ts h =
    let (a, w, c, b) = categorize-select ts in
    (
      int32-select is_active ts _ a h,
      int32-select is_waiting ts _ w h,
      int32-select is_completed ts _ c h,
      int32-select is_broken ts _ b h,
      ap (map (λ t. t.name)) a,
      refl,
    )
