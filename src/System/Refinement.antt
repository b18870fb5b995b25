-- ===== src/System/Refinement.antt =====
-- The controllers and the users implement the abstract machine of a pool's slots, and so keep the
-- pool's limit.
use kbrain.Prelude.{
  none, ℕ, ◌+◌, ◌-◌, ◌≤◌, false, List, [], ◌∷◌, ◌++◌, ◌≡◌, ap, ◌∙◌, ◌⊎◌, inl, inr, arith,
  Bool-cases,
}
use kbrain.Prelude.Text.{is_empty}
use kbrain.Api.{AgentTask, AgentPool}
use kbrain.Effects.{Libs}
use kbrain.TaskController.Pending.{slot_granted}
use kbrain.PoolController.Grants.{SortLaws}
use kbrain.PoolController.Groups.{is_active, is_waiting}
use kbrain.System.Steps.{
  ReplacedBy, GrantedAmong, WrittenBy, Edited, Fresh, Step, pool_runs, task_runs, edits, deletes,
  arrives, Reach, Later,
}
use kbrain.System.Counting.{occupied, granted_waiting-le, Starts, Stays, Done}
use kbrain.System.Granting.{limit}
use kbrain.System.Changes.{ReplacedBy-map, is_waiting-idle, WrittenBy-kinds}
use kbrain.System.Invariant.{Inv, Step-Inv, Reach-Inv}
use kbrain.System.Slots.{
  SlotStep, submits, grants, begins, finishes, withdraws, gives_back, rests, slots_of, total,
  queued_of, granted_of, active_of, active-eq-occupied, granted-eq-granted_waiting,
  ReplacedBy-total, Removed-total, total-arrives, GrantedAmong-total,
}

Inv-slots :
    (pool : AgentPool) (ts : List AgentTask)
    → Inv pool ts
    → (slots_of ts).granted + (slots_of ts).active ≤ limit pool
Inv-slots pool ts inv = omega (
  arith,
  active-eq-occupied ts,
  granted-eq-granted_waiting ts,
  granted_waiting-le (limit pool - occupied ts) ts,
  inv.within,
  inv.placed,
)

-- The counts after a task t has become u, or is gone, are those before, less t, plus u.
module _ (max : ℕ) (ts us : List AgentTask) (t : AgentTask) where
  Starts-slots :
      (u : AgentTask)
      → Starts t u
      → ((w : AgentTask → ℕ) → total w us + w t ≡ total w ts + w u)
      → SlotStep max (slots_of ts) (slots_of us)
  unfolding slots_of
  Starts-slots u s f =
      begins (ground (arith, f queued_of)) (ground (arith, f granted_of))
        (ground (arith, f active_of))

  Stays-slots :
      (u : AgentTask)
      → Stays t u
      → ((w : AgentTask → ℕ) → total w us + w t ≡ total w ts + w u)
      → SlotStep max (slots_of ts) (slots_of us)
  unfolding slots_of
  Stays-slots u s f =
      rests (ground (arith, f queued_of)) (ground (arith, f granted_of))
        (ground (arith, f active_of))

  -- One task less, of whatever kind it was.
  leaves-slots :
      total queued_of us + queued_of t ≡ total queued_of ts
      → total granted_of us + granted_of t ≡ total granted_of ts
      → total active_of us + active_of t ≡ total active_of ts
      → SlotStep max (slots_of ts) (slots_of us)
  unfolding slots_of
  leaves-slots q g a = elim (Bool-cases (is_waiting t.status.phase)) [
    | inl w ↦
        let i = is_waiting-idle t.status.phase w in
        elim (Bool-cases (slot_granted t)) [
          | inl h ↦ gives_back (ground arith) (ground arith) (ground arith)
          | inr h ↦ withdraws (ground arith) (ground arith) (ground arith)
        ]
    | inr w ↦ elim (Bool-cases (is_active t.status.phase)) [
      | inl h ↦ finishes (ground arith) (ground arith) (ground arith)
      | inr h ↦ rests (ground arith) (ground arith) (ground arith)
    ]
  ]

  Done-slots :
      (u : AgentTask)
      → Done u
      → ((w : AgentTask → ℕ) → total w us + w t ≡ total w ts + w u)
      → SlotStep max (slots_of ts) (slots_of us)
  Done-slots u d f =
      leaves-slots (ground (arith, f queued_of)) (ground (arith, f granted_of))
        (ground (arith, f active_of))

  Edited-slots :
      (u : AgentTask)
      → Edited t u
      → ((w : AgentTask → ℕ) → total w us + w t ≡ total w ts + w u)
      → SlotStep max (slots_of ts) (slots_of us)
  Edited-slots u e f =
      Stays-slots u
        (record {
          same_active = ap is_active e.same_phase;
          same_waiting = ap is_waiting e.same_phase;
          same_grant = e.same_grant;
        })
        f

-- A run of the pool controller stays within the limit, if the list that it leaves does.
GrantedAmong-slots :
    (max : ℕ) (C ts us : List AgentTask)
    → GrantedAmong C ts us
    → (slots_of us).granted + (slots_of us).active ≤ max
    → SlotStep max (slots_of ts) (slots_of us)
unfolding slots_of
GrantedAmong-slots max C ts us g h = let (a, b, c) = GrantedAmong-total C ts us g in grants b c h a

Fresh-slots :
    (max : ℕ) (pool : AgentPool) (t : AgentTask) (ts : List AgentTask)
    → Fresh pool t
    → SlotStep max (slots_of ts) (slots_of (ts ++ t ∷ []))
unfolding slots_of
Fresh-slots max pool t ts f =
    let i = is_waiting-idle t.status.phase f.waits in
    submits (ground (arith, total-arrives queued_of t ts, f.waits, f.not_granted))
      (ground (arith, total-arrives granted_of t ts, f.waits, f.not_granted))
      (ground (arith, total-arrives active_of t ts))

module _ (libs : Libs) (laws : SortLaws libs) (pool : AgentPool)
    (named : is_empty pool.name ≡ false) (no_selector : pool.spec.selector ≡ none) where
  task_runs-slots :
      (ts us : List AgentTask)
      → Inv pool ts
      → ReplacedBy (WrittenBy libs) ts us
      → SlotStep (limit pool) (slots_of ts) (slots_of us)
  task_runs-slots ts us inv r =
      let (t, u, k, f) =
        ReplacedBy-total (λ t u. Starts t u ⊎ (Stays t u ⊎ Done u)) ts us
          (ReplacedBy-map _ _ _ (λ t u o h. (WrittenBy-kinds libs t u (ap is_empty o ∙ named) h).0)
            ts us inv.owned r) in
      elim k [
        | inl s ↦ Starts-slots (limit pool) ts us t u s f
        | inr k ↦ elim k [
          | inl s ↦ Stays-slots (limit pool) ts us t u s f
          | inr d ↦ Done-slots (limit pool) ts us t u d f
        ]
      ]

  -- A run of the pool controller that keeps the invariant counts as grants.
  pub grants-slots :
      (C ts us : List AgentTask)
      → GrantedAmong C ts us
      → Inv pool us
      → SlotStep (limit pool) (slots_of ts) (slots_of us)
  grants-slots C ts us g inv = GrantedAmong-slots (limit pool) C ts us g (Inv-slots pool us inv)

  -- A step from a state that keeps the invariant.
  pub Inv-SlotStep :
      (ts us : List AgentTask)
      → Inv pool ts
      → Step libs pool Later ts us
      → SlotStep (limit pool) (slots_of ts) (slots_of us)
  Inv-SlotStep ts us inv (pool_runs seen p g) =
      grants-slots _ ts us g (Step-Inv libs laws pool named no_selector (pool_runs seen p g) inv)
  Inv-SlotStep ts us inv (task_runs h) = task_runs-slots ts us inv h
  Inv-SlotStep ts us inv (edits h) =
      let (t, u, e, f) = ReplacedBy-total Edited ts us h in Edited-slots (limit pool) ts us t u e f
  Inv-SlotStep ts us inv (deletes h) =
      let (t, f) = Removed-total ts us h in
      leaves-slots (limit pool) ts us t (f queued_of) (f granted_of) (f active_of)
  Inv-SlotStep ts us inv (arrives t f l) = Fresh-slots (limit pool) pool t ts f

  -- If sort.Slice keeps its contract, the pool has a name and no selector, its tasks are created one after another and
  -- each run of a controller works on what the cluster holds, then the two controllers and the users
  -- implement a machine of three counters, of the tasks that wait without a grant, that are granted a
  -- slot and wait, and that are active: every step from a reachable state counts as one of that
  -- machine, which moves at most one task at a time from a counter to the next, or adds or drops one,
  -- or grants slots so that the granted and the active are no more than the limit.
  pub Step-SlotStep :
      (ts us : List AgentTask)
      → Reach libs pool Later ts
      → Step libs pool Later ts us
      → SlotStep (limit pool) (slots_of ts) (slots_of us)
  Step-SlotStep ts us r s = Inv-SlotStep ts us (Reach-Inv libs laws pool named no_selector r) s
