-- ===== src/PoolController/Membership.antt =====
-- Which tasks belong to a pool: for the list, for the routing of events, and for the slot gate.
use kbrain.Prelude.{
  true, false, some, List, [], ◌∷◌, ◌≡◌, refl, arith, ◌≢◌, ◌⊎◌, inl, inr, sym, ◌∙◌, Bool-cases,
  subst, ap, ◌↔◌,
}
use mathlib.Core.List.{Memᴰ}
use kbrain.Prelude.Text.{text_eq, text_eq_iff, is_empty}
use kbrain.Api.{AgentTask, AgentPool}
use kbrain.PoolController.Tasks.{has_selector, keep_own, map_task_to_pool}
use kbrain.TaskController.Pending.{waits_for_slot}

keep_own-selector :
    (pool : AgentPool) (ts : List AgentTask) → has_selector pool ≡ true → keep_own pool ts ≡ ts
unfolding keep_own
keep_own-selector pool [] h = refl
keep_own-selector pool (t ∷ ts) h = ground (arith, keep_own-selector pool ts)

pub keep_own-hit :
    (pool : AgentPool) (t : AgentTask) (ts : List AgentTask)
    → t.spec.pool_ref ≡ pool.name
    → keep_own pool (t ∷ ts) ≡ t ∷ keep_own pool ts
unfolding keep_own
keep_own-hit pool t ts h = ground (arith, text_eq_iff t.spec.pool_ref pool.name)

keep_own-miss :
    (pool : AgentPool) (t : AgentTask) (ts : List AgentTask)
    → has_selector pool ≡ false
    → t.spec.pool_ref ≢ pool.name
    → keep_own pool (t ∷ ts) ≡ keep_own pool ts
unfolding keep_own
keep_own-miss pool t ts h n = ground (arith, text_eq_iff t.spec.pool_ref pool.name)

names-or-not :
    (pool : AgentPool) (t : AgentTask)
    → (t.spec.pool_ref ≡ pool.name) ⊎ (t.spec.pool_ref ≢ pool.name)
names-or-not pool t = elim (Bool-cases (text_eq t.spec.pool_ref pool.name)) [
  | inl e ↦ inl ((text_eq_iff _ _).0 e)
  | inr e ↦ inr (λ q. true_false (sym ((text_eq_iff _ _).1 q) ∙ e))
]
  where
    true_false : true ≡ false → ⊥
    true_false h = cc

kept_sound :
    (pool : AgentPool) (ts : List AgentTask) (t : AgentTask)
    → has_selector pool ≡ false
    → Memᴰ t (keep_own pool ts)
    → Memᴰ t ts × (t.spec.pool_ref ≡ pool.name)
kept_sound pool [] t h m = unfold keep_own in elim m [ ]
kept_sound pool (x ∷ ts) t h m = elim (names-or-not pool x) [
  | inl e ↦ first (kept_sound pool ts t h) e (subst (Memᴰ t) (keep_own-hit pool x ts e) m)
  | inr n ↦ later (kept_sound pool ts t h (subst (Memᴰ t) (keep_own-miss pool x ts h n) m))
]
  where
    later :
        Memᴰ t ts × (t.spec.pool_ref ≡ pool.name) → Memᴰ t (x ∷ ts) × (t.spec.pool_ref ≡ pool.name)
    later r = (Memᴰ.tail r.0, r.1)

    first :
        (Memᴰ t (keep_own pool ts) → Memᴰ t ts × (t.spec.pool_ref ≡ pool.name))
        → x.spec.pool_ref ≡ pool.name
        → Memᴰ t (x ∷ keep_own pool ts)
        → Memᴰ t (x ∷ ts) × (t.spec.pool_ref ≡ pool.name)
    first k e (Memᴰ.head q) = (Memᴰ.head q, ap (λ u. u.spec.pool_ref) q ∙ e)
    first k e (Memᴰ.tail n) = later (k n)

kept_complete :
    (pool : AgentPool) (ts : List AgentTask) (t : AgentTask)
    → has_selector pool ≡ false
    → Memᴰ t ts × (t.spec.pool_ref ≡ pool.name)
    → Memᴰ t (keep_own pool ts)
kept_complete pool [] t h (m, e) = elim m [ ]
kept_complete pool (x ∷ ts) t h (Memᴰ.head q, e) =
    subst (Memᴰ t) (sym (keep_own-hit pool x ts (ap (λ u. u.spec.pool_ref) (sym q) ∙ e)))
      (Memᴰ.head q)
kept_complete pool (x ∷ ts) t h (Memᴰ.tail m, e) = elim (names-or-not pool x) [
  | inl f ↦
      subst (Memᴰ t) (sym (keep_own-hit pool x ts f)) (Memᴰ.tail (kept_complete pool ts t h (m, e)))
  | inr n ↦ subst (Memᴰ t) (sym (keep_own-miss pool x ts h n)) (kept_complete pool ts t h (m, e))
]

-- Without a selector, the list of a pool holds exactly those of the listed tasks that name the pool.
pub keep_own-members :
    (pool : AgentPool) (ts : List AgentTask) (t : AgentTask)
    → has_selector pool ≡ false
    → Memᴰ t (keep_own pool ts) ↔ (Memᴰ t ts × (t.spec.pool_ref ≡ pool.name))
keep_own-members pool ts t h = (kept_sound pool ts t h, kept_complete pool ts t h)

-- A task that names no pool, listed first for a pool with a selector: the pool keeps it, with all the
-- others, it does not wait for a slot, and its events reach no pool.
pub selector_bypasses_gate :
    (pool : AgentPool) (ts : List AgentTask) (t : AgentTask)
    → has_selector pool ≡ true
    → is_empty t.spec.pool_ref ≡ true
    → (keep_own pool (t ∷ ts) ≡ t ∷ ts)
      × (waits_for_slot t ≡ false)
      × (map_task_to_pool (some t) ≡ [])
unfolding waits_for_slot map_task_to_pool
selector_bypasses_gate pool ts t h e =
    (keep_own-selector pool (t ∷ ts) h, ground arith, ground arith)
