-- ===== src/System/Ahead.antt =====
-- The waiting tasks that are too new for a slot: a step adds none but the task that it creates.
use kbrain.Prelude.{
  ℕ, ◌-◌, ◌≤◌, false, List, [], ◌∷◌, ◌++◌, ◌≡◌, ap, ◌∙◌, ◌⊎◌, inl, inr, All, arith,
}
use kbrain.Prelude.Text.{is_empty}
use kbrain.Api.{AgentTask, AgentPool}
use kbrain.Effects.{Libs}
use kbrain.PoolController.Groups.{is_active, is_waiting, select}
use kbrain.System.Steps.{ReplacedBy, Removed, GrantedAmong, WrittenBy, Edited, Fresh}
use kbrain.System.Counting.{
  occupied, beyond, Starts, Stays, Done, Stays-counts, Ends-counts, Removed-counts, Starts-counts,
  occupied-arrives,
}
use kbrain.System.Order.{times, OwnedBy}
use kbrain.System.Granting.{limit, GrantedAmong-keeps}
use kbrain.System.Changes.{
  ReplacedBy-sum, ReplacedBy-map, SameTask, is_waiting-idle, WrittenBy-kinds,
}
use kbrain.System.Invariant.{Inv}
use kbrain.System.Waiting.{
  later_waiting, All-drop_more, Done-later, Removed-later, arrives-later, Starts-later, Stays-later,
  GrantedAmong-later,
}

-- The waiting tasks after the first ones, as many as slots are free.
abbrev pub too_new : AgentPool → List AgentTask → List ℕ
too_new pool ts = later_waiting (limit pool - occupied ts) ts

module _ (pool : AgentPool) (P : ℕ → Type 0) where
  -- Where no more tasks are active, and the later ones are among those before.
  fewer-too_new :
      (ts us : List AgentTask)
      → occupied us ≤ occupied ts
      → ((k : ℕ) → All P (later_waiting k ts) → All P (later_waiting k us))
      → All P (too_new pool ts)
      → All P (too_new pool us)
  fewer-too_new ts us o f a =
      All-drop_more P (limit pool - occupied ts) (limit pool - occupied us) _ (omega (arith, o))
        (f (limit pool - occupied ts) a)

  -- Where the waiting tasks stay.
  same-too_new :
      (ts us : List AgentTask)
      → occupied us ≡ occupied ts
      → times (select is_waiting us) ≡ times (select is_waiting ts)
      → All P (too_new pool ts)
      → All P (too_new pool us)
  same-too_new ts us o w a = rw (o, w) a

  pub GrantedAmong-too_new :
      (C ts us : List AgentTask)
      → GrantedAmong C ts us
      → All P (too_new pool ts)
      → All P (too_new pool us)
  GrantedAmong-too_new C ts us g a =
      same-too_new ts us (GrantedAmong-keeps C ts us g).0 (GrantedAmong-later C ts us g) a

  Stays-too_new :
      (ts us : List AgentTask)
      → OwnedBy pool ts
      → ReplacedBy (λ t u. Stays t u × SameTask t u) ts us
      → All P (too_new pool ts)
      → All P (too_new pool us)
  Stays-too_new ts us own r a =
      same-too_new ts us (Stays-counts ts us (ReplacedBy-map _ _ _ (λ t u o h. h.0) ts us own r)).0
        (Stays-later ts us r) a

  Starts-too_new :
      (ts us : List AgentTask)
      → beyond (limit pool - occupied ts) ts ≡ 0
      → ReplacedBy Starts ts us
      → All P (too_new pool ts)
      → All P (too_new pool us)
  Starts-too_new ts us z r a =
      let o = (Starts-counts ts us r).0 in
      let e : limit pool - occupied us ≡ limit pool - occupied ts - 1 = omega (arith, o) in
      rw e (Starts-later P ts us r (limit pool - occupied ts) z a)

  pub task_write-too_new :
      (libs : Libs) (ts us : List AgentTask)
      → is_empty pool.name ≡ false
      → Inv pool ts
      → ReplacedBy (WrittenBy libs) ts us
      → All P (too_new pool ts)
      → All P (too_new pool us)
  task_write-too_new libs ts us named inv w a = elim (ReplacedBy-sum Starts _ ts us kinds) [
    | inl r ↦ Starts-too_new ts us inv.placed r a
    | inr h ↦ elim (ReplacedBy-sum (λ t u. Stays t u × SameTask t u) _ ts us h) [
      | inl r ↦ Stays-too_new ts us inv.owned r a
      | inr r ↦ fewer-too_new ts us (Ends-counts ts us r).0 (Done-later P ts us r) a
    ]
  ]
    where
      sort_out :
          (t u : AgentTask)
          → (Starts t u ⊎ (Stays t u ⊎ Done u)) × SameTask t u
          → Starts t u ⊎ ((Stays t u × SameTask t u) ⊎ Done u)
      sort_out t u (inl s, m) = inl s
      sort_out t u (inr (inl s), m) = inr (inl (s, m))
      sort_out t u (inr (inr d), m) = inr (inr d)

      kinds : ReplacedBy (λ t u. Starts t u ⊎ ((Stays t u × SameTask t u) ⊎ Done u)) ts us
      kinds =
          ReplacedBy-map _ _ _
            (λ t u o r. sort_out t u (WrittenBy-kinds libs t u (ap is_empty o ∙ named) r)) ts us
            inv.owned w

  pub edit-too_new :
      (ts us : List AgentTask)
      → Inv pool ts
      → ReplacedBy Edited ts us
      → All P (too_new pool ts)
      → All P (too_new pool us)
  edit-too_new ts us inv r a =
      Stays-too_new ts us inv.owned
        (ReplacedBy-map (λ t. t.spec.pool_ref ≡ pool.name) _ _
          (λ t u o e. (
            record {
              same_active = ap is_active e.same_phase;
              same_waiting = ap is_waiting e.same_phase;
              same_grant = e.same_grant;
            },
            record { same_creation = e.same_creation; same_pool = e.same_pool },
          ))
          ts us inv.owned r)
        a

  pub delete-too_new :
      (ts us : List AgentTask) → Removed ts us → All P (too_new pool ts) → All P (too_new pool us)
  delete-too_new ts us r a =
      fewer-too_new ts us (Removed-counts ts us r).0 (Removed-later P ts us r) a

  pub create-too_new :
      (t : AgentTask) (ts : List AgentTask)
      → Fresh pool t
      → P t.creation_timestamp
      → All P (too_new pool ts)
      → All P (too_new pool (ts ++ t ∷ []))
  create-too_new t ts f p a =
      let o = occupied-arrives t ts (is_waiting-idle t.status.phase f.waits) in
      rw o (arrives-later P t ts p (limit pool - occupied ts) a)
