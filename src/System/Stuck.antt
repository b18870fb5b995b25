-- ===== src/System/Stuck.antt =====
-- A task in the phase PushingBranch holds its slot for good.
use mathlib.Core.List.{Memᴰ}
use kbrain.Prelude.{
  ◌-◌, ◌≤◌, min, List, [], ◌∷◌, ◌≡◌, refl, sym, ap, ◌∙◌, subst, length, arith, true,
}
use kbrain.Prelude.Int.{pos}
use kbrain.Api.{AgentTask, AgentPool, pushing_branch}
use kbrain.Effects.{Libs, Call, MayCall}
use kbrain.TaskController.Reconcile.{dispatch}
use kbrain.PoolController.Tasks.{keep_own}
use kbrain.PoolController.Grants.{SortLaws}
use kbrain.PoolController.Groups.{is_active, is_waiting, select}
use kbrain.System.Steps.{grants_of}
use kbrain.System.Counting.{occupied}
use kbrain.System.Granting.{limit, grants_among-eq}

-- The tasks in that phase.
abbrev pub IsPushing : AgentTask → Type 0
IsPushing t = t.status.phase ≡ pushing_branch

-- A task in that phase takes a slot.
pushing-occupied : (t : AgentTask) (ts : List AgentTask) → IsPushing t → Memᴰ t ts → 1 ≤ occupied ts
unfolding select
pushing-occupied t [] h m = elim m [ ]
pushing-occupied t (u ∷ ts) h (Memᴰ.head e) =
    let a : is_active u.status.phase ≡ true =
      ap (λ x. is_active x.status.phase) (sym e) ∙ ap is_active h ∙ unfold is_active in refl in
    ground (arith, a)
pushing-occupied t (u ∷ ts) h (Memᴰ.tail m) = ground (arith, pushing-occupied t ts h m)

pushing-silent :
    (libs : Libs) (t : AgentTask) (c : Call) → ¬ MayCall c (dispatch libs pushing_branch t)
unfolding dispatch
pushing-silent libs t c x = x

-- If sort.Slice keeps its contract, a task in the phase PushingBranch that a pool of one slot keeps of
-- its list blocks the pool for good: the run grants no slot to any task, and no call on any path of the
-- task controller's handler for such a task could change that, for it makes none.
pub pushing_branch_blocks :
    (libs : Libs) (laws : SortLaws libs) (pool : AgentPool) (t : AgentTask) (seen : List AgentTask)
    → pool.spec.max_concurrency ≡ pos 1
    → t.status.phase ≡ pushing_branch
    → Memᴰ t (keep_own pool seen)
    → (grants_of libs pool seen ≡ []) × ((c : Call) → ¬ MayCall c (dispatch libs t.status.phase t))
pushing_branch_blocks libs laws pool t seen m h r =
    let own = keep_own pool seen in
    let full : min (limit pool - occupied own) (length (select is_waiting own)) ≡ 0 =
      let one : limit pool ≡ 1 = rw m refl in omega (arith, one, pushing-occupied t own h r) in
    (
      grants_among-eq libs laws pool own ∙ rw full refl,
      λ c x. pushing-silent libs t c (subst (λ p. MayCall c (dispatch libs p t)) h x),
    )
