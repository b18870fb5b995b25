-- ===== src/System/Steps.antt =====
-- The tasks of one pool in the cluster, in the order of their creation, and what changes them.
use mathlib.Core.List.{Perm, Memᴰ}
use kbrain.Prelude.{
  Option, none, some, subst, ℕ, ◌≤◌, ◌<◌, true, false, List, [], ◌∷◌, ◌++◌, ◌≡◌, ◌⊎◌, All,
}
use kbrain.Api.{AgentTask, AgentPool, Dict}
use kbrain.Effects.{Libs, update_task_status, MayCall}
use kbrain.TaskController.Pending.{slot_granted}
use kbrain.TaskController.Reconcile.{dispatch}
use kbrain.PoolController.Tasks.{no_groups, categorize, keep_own}
use kbrain.PoolController.Slots.{slots_available, grant, chosen}
use kbrain.PoolController.Groups.{is_waiting}

-- One element is related to its successor, and the others stay.
abbrev pub ReplacedBy : (AgentTask → AgentTask → Type 0) → List AgentTask → List AgentTask → Type 0
ReplacedBy R [] us = ⊥
ReplacedBy R (t ∷ ts) [] = ⊥
ReplacedBy R (t ∷ ts) (u ∷ us) = (R t u × (us ≡ ts)) ⊎ ((u ≡ t) × ReplacedBy R ts us)

-- One element is gone.
abbrev pub Removed : List AgentTask → List AgentTask → Type 0
Removed [] us = ⊥
Removed (t ∷ ts) [] = ts ≡ []
Removed (t ∷ ts) (u ∷ us) = (u ∷ us ≡ ts) ⊎ ((u ≡ t) × Removed ts us)

-- Each element stays, as after an update that fails, or is chosen and granted a slot.
abbrev pub GrantedAmong : List AgentTask → List AgentTask → List AgentTask → Type 0
GrantedAmong C [] [] = Unit
GrantedAmong C [] (u ∷ us) = ⊥
GrantedAmong C (t ∷ ts) [] = ⊥
GrantedAmong C (t ∷ ts) (u ∷ us) = ((u ≡ t) ⊎ (Memᴰ t C × (u ≡ grant t))) × GrantedAmong C ts us

-- A status write that the handler of the task's phase makes on some path.
abbrev pub WrittenBy : Libs → AgentTask → AgentTask → Type 0
WrittenBy libs t u = MayCall (update_task_status u) (dispatch libs t.status.phase t)

-- Anything else that happens to a task, such as the finalizer: it keeps the phase, the pool, the time
-- of creation, and whether a slot is granted.
pub record Edited (t u : AgentTask) : Type 0 where
  pub same_phase : u.status.phase ≡ t.status.phase
  pub same_pool : u.spec.pool_ref ≡ t.spec.pool_ref
  pub same_creation : u.creation_timestamp ≡ t.creation_timestamp
  pub same_grant : slot_granted u ≡ slot_granted t

-- A new task of the pool, which is not granted a slot by its creator.
pub record Fresh (pool : AgentPool) (t : AgentTask) : Type 0 where
  pub waits : is_waiting t.status.phase ≡ true
  pub not_granted : slot_granted t ≡ false
  pub of_pool : t.spec.pool_ref ≡ pool.name

-- The tasks that a run of the pool controller grants slots to, from those that it keeps of its list.
abbrev pub grants_among : Libs → AgentPool → List AgentTask → List AgentTask
grants_among libs pool own =
    let g = categorize own no_groups in
    chosen libs (slots_available pool.spec.max_concurrency g.active) g.waiting

-- The same, from the tasks that it lists.
abbrev pub grants_of : Libs → AgentPool → List AgentTask → List AgentTask
grants_of libs pool seen = grants_among libs pool (keep_own pool seen)

-- What the controller lists, of the tasks ts that name the pool: without a selector, all of them in any
-- order, among tasks that do not name it. With a selector, whatever has its labels: tasks of other
-- pools or of none, and perhaps not those of the pool.
abbrev pub ListedBy : Option Dict → AgentPool → List AgentTask → List AgentTask → Type 0
ListedBy none pool seen ts = Perm (keep_own pool seen) ts
ListedBy (some labels) pool seen ts = Unit

abbrev pub Listed : AgentPool → List AgentTask → List AgentTask → Type 0
Listed pool seen ts = ListedBy pool.spec.selector pool seen ts

pub Listed-own :
    (pool : AgentPool) (seen ts : List AgentTask)
    → pool.spec.selector ≡ none
    → Listed pool seen ts
    → Perm (keep_own pool seen) ts
Listed-own pool seen ts n l = subst (λ o. ListedBy o pool seen ts) n l

-- How the times of creation of an older and a newer task are related.
abbrev pub Later : ℕ → ℕ → Type 0
Later a b = a < b

abbrev pub NotEarlier : ℕ → ℕ → Type 0
NotEarlier a b = a ≤ b

module _ (libs : Libs) (pool : AgentPool) (Clock : ℕ → ℕ → Type 0) where
  pub data Step (ts : List AgentTask) : List AgentTask → Type 0 where
    -- the pool controller lists tasks and grants slots
    pool_runs :
        {us : List AgentTask} (seen : List AgentTask)
        → Listed pool seen ts
        → GrantedAmong (grants_of libs pool seen) ts us
        → Step ts us
    -- the task controller handles a task, and its status write is stored
    task_runs : {us : List AgentTask} → ReplacedBy (WrittenBy libs) ts us → Step ts us
    edits : {us : List AgentTask} → ReplacedBy Edited ts us → Step ts us
    deletes : {us : List AgentTask} → Removed ts us → Step ts us
    arrives :
        (t : AgentTask)
        → Fresh pool t
        → All (λ u. Clock u.creation_timestamp t.creation_timestamp) ts
        → Step ts (ts ++ t ∷ [])

  pub data Reach : List AgentTask → Type 0 where
    start : Reach []
    after : {ts us : List AgentTask} → Reach ts → Step ts us → Reach us
