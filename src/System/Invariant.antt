-- ===== src/System/Invariant.antt =====
-- Which tasks hold the slots of a pool, in every state that the system reaches.
use kbrain.Prelude.{
  none, ℕ, ◌-◌, ◌≤◌, false, List, [], ◌∷◌, ◌++◌, ◌≡◌, refl, sym, ap, ◌∙◌, subst, ◌⊎◌, inl, inr,
  arith,
}
use kbrain.Prelude.Text.{is_empty}
use kbrain.Prelude.Sorted.{IsIncreasing}
use kbrain.Api.{AgentTask, AgentPool}
use kbrain.Effects.{Libs}
use kbrain.PoolController.Grants.{SortLaws}
use kbrain.PoolController.Tasks.{keep_own}
use kbrain.System.Steps.{
  Listed-own, ReplacedBy, WrittenBy, Edited, Step, pool_runs, task_runs, edits, deletes, arrives,
  Reach, start, after, Later,
}
use kbrain.PoolController.Groups.{is_active, is_waiting, select}
use kbrain.System.Counting.{
  occupied, beyond, beyond_mono, Starts, Stays, Done, Stays-counts, Ends-counts, Removed-counts,
  Starts-counts, occupied-arrives, beyond-arrives,
}
use kbrain.System.Order.{times, OwnedBy}
use kbrain.System.Granting.{limit, GrantedAmong-keeps, pool_runs-beyond}
use kbrain.System.Changes.{
  ReplacedBy-sum, ReplacedBy-map, SameTask, SameTask-keeps, Removed-keeps, arrives-keeps,
  is_waiting-idle, WrittenBy-kinds,
}

-- Every task names the pool, they are created one after another, no more than the limit are active,
-- and none is granted a slot but the first of the waiting tasks, as many as slots are free.
pub record Inv (pool : AgentPool) (ts : List AgentTask) : Type 0 where
  pub owned : OwnedBy pool ts
  pub ordered : IsIncreasing (times ts)
  pub within : occupied ts ≤ limit pool
  pub placed : beyond (limit pool - occupied ts) ts ≡ 0

module _ (libs : Libs) (laws : SortLaws libs) (pool : AgentPool)
    (named : is_empty pool.name ≡ false) (no_selector : pool.spec.selector ≡ none) where
  -- Fewer active tasks, and as few granted ones beyond any number, keep what is granted in place.
  fewer-placed :
      (ts us : List AgentTask)
      → occupied us ≤ occupied ts
      → ((k : ℕ) → beyond k us ≤ beyond k ts)
      → beyond (limit pool - occupied ts) ts ≡ 0
      → beyond (limit pool - occupied us) us ≡ 0
  fewer-placed ts us o b z = omega (
    arith,
    b (limit pool - occupied us),
    beyond_mono (limit pool - occupied ts) (limit pool - occupied us) ts (omega arith),
  )

  Starts-Inv :
      (ts us : List AgentTask)
      → Inv pool ts
      → ReplacedBy SameTask ts us
      → ReplacedBy Starts ts us
      → Inv pool us
  Starts-Inv ts us inv s r =
      let (t, o) = SameTask-keeps pool ts us s inv.owned in
      let (a, b) = Starts-counts ts us r in
      let (c, d) = b (limit pool - occupied ts) inv.placed in
      let e : limit pool - occupied us ≡ limit pool - occupied ts - 1 = omega (arith, a) in
      record {
        owned = o;
        ordered = subst IsIncreasing (sym t) inv.ordered;
        within = omega (arith, a, c);
        placed = ap (λ k. beyond k us) e ∙ d;
      }

  Stays-Inv :
      (ts us : List AgentTask)
      → Inv pool ts
      → ReplacedBy SameTask ts us
      → ReplacedBy Stays ts us
      → Inv pool us
  Stays-Inv ts us inv s r =
      let (t, o) = SameTask-keeps pool ts us s inv.owned in
      let (a, b, c) = Stays-counts ts us r in
      record {
        owned = o;
        ordered = subst IsIncreasing (sym t) inv.ordered;
        within = omega (arith, a, inv.within);
        placed = ap (λ o. beyond (limit pool - o) us) a ∙ b (limit pool - occupied ts) ∙ inv.placed;
      }

  fewer-Inv :
      (ts us : List AgentTask)
      → Inv pool ts
      → OwnedBy pool us
      → IsIncreasing (times us)
      → occupied us ≤ occupied ts
      → ((k : ℕ) → beyond k us ≤ beyond k ts)
      → Inv pool us
  fewer-Inv ts us inv o i a b = record {
    owned = o;
    ordered = i;
    within = omega (arith, a, inv.within);
    placed = fewer-placed ts us a b inv.placed;
  }

  task_runs-Inv :
      (ts us : List AgentTask) → Inv pool ts → ReplacedBy (WrittenBy libs) ts us → Inv pool us
  task_runs-Inv ts us inv w = elim (ReplacedBy-sum Starts _ ts us kinds) [
    | inl a ↦ Starts-Inv ts us inv same a
    | inr h ↦ elim (ReplacedBy-sum Stays _ ts us h) [
      | inl b ↦ Stays-Inv ts us inv same b
      | inr c ↦
          let (t, o) = SameTask-keeps pool ts us same inv.owned in
          let (x, y) = Ends-counts ts us c in
          fewer-Inv ts us inv o (subst IsIncreasing (sym t) inv.ordered) x y
    ]
  ]
    where
      own_named : (t : AgentTask) → t.spec.pool_ref ≡ pool.name → is_empty t.spec.pool_ref ≡ false
      own_named t e = ap is_empty e ∙ named

      kinds : ReplacedBy (λ t u. Starts t u ⊎ (Stays t u ⊎ Done u)) ts us
      kinds =
          ReplacedBy-map _ _ _ (λ t u o r. (WrittenBy-kinds libs t u (own_named t o) r).0) ts us
            inv.owned w

      same : ReplacedBy SameTask ts us
      same =
          ReplacedBy-map _ _ _ (λ t u o r. (WrittenBy-kinds libs t u (own_named t o) r).1) ts us
            inv.owned w

  edits-Inv : (ts us : List AgentTask) → Inv pool ts → ReplacedBy Edited ts us → Inv pool us
  edits-Inv ts us inv r =
      Stays-Inv ts us inv
        (ReplacedBy-map (λ t. t.spec.pool_ref ≡ pool.name) _ _
          (λ t u o e. record { same_creation = e.same_creation; same_pool = e.same_pool }) ts us
          inv.owned r)
        (ReplacedBy-map (λ t. t.spec.pool_ref ≡ pool.name) _ _
          (λ t u o e. record {
            same_active = ap is_active e.same_phase;
            same_waiting = ap is_waiting e.same_phase;
            same_grant = e.same_grant;
          })
          ts us inv.owned r)

  -- Every step of the system keeps the invariant.
  pub Step-Inv : {ts us : List AgentTask} → Step libs pool Later ts us → Inv pool ts → Inv pool us
  Step-Inv {ts} {us} (pool_runs seen p g) inv =
      let (a, b, c) = GrantedAmong-keeps _ ts us g in
      record {
        owned = c pool inv.owned;
        ordered = subst IsIncreasing (sym b) inv.ordered;
        within = omega (arith, a, inv.within);
        placed =
            ap (λ o. beyond (limit pool - o) us) a
            ∙ pool_runs-beyond libs laws pool (keep_own pool seen) ts us
                (Listed-own pool seen ts no_selector p) inv.owned inv.ordered g inv.placed;
      }
  Step-Inv {ts} {us} (task_runs r) inv = task_runs-Inv ts us inv r
  Step-Inv {ts} {us} (edits r) inv = edits-Inv ts us inv r
  Step-Inv {ts} {us} (deletes r) inv =
      let (a, b) = Removed-counts ts us r in
      let (o, i) = Removed-keeps pool ts us r inv.owned inv.ordered in fewer-Inv ts us inv o i a b
  Step-Inv {ts} (arrives t f l) inv =
      let (o, i) = arrives-keeps pool t ts f.of_pool l inv.owned inv.ordered in
      let a = occupied-arrives t ts (is_waiting-idle t.status.phase f.waits) in
      record {
        owned = o;
        ordered = i;
        within = omega (arith, a, inv.within);
        placed =
            ap (λ o. beyond (limit pool - o) (ts ++ t ∷ [])) a
            ∙ beyond-arrives (limit pool - occupied ts) t ts f.not_granted
            ∙ inv.placed;
      }

  pub Reach-Inv : {ts : List AgentTask} → Reach libs pool Later ts → Inv pool ts
  Reach-Inv start = record {
    owned = tt;
    ordered = tt;
    within = unfold select in omega arith;
    placed = unfold beyond in refl;
  }
  Reach-Inv (after r s) = Step-Inv s (Reach-Inv r)
