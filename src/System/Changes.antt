-- ===== src/System/Changes.antt =====
-- What a write of the task controller does to the slots, and what every change of a task keeps.
use kbrain.Prelude.{
  ℕ, ◌<◌, true, false, List, [], ◌∷◌, ◌++◌, ◌≡◌, ◌≢◌, refl, sym, ap, subst, ◌∙◌, ◌⊎◌, inl, inr, All,
  arith,
}
use kbrain.Prelude.Text.{is_empty, text_eq, lit}
use kbrain.Prelude.Sorted.{IsIncreasing}
use kbrain.Api.{AgentTask, AgentTaskPhase, initializing, AgentPool, index}
use kbrain.Effects.{Libs, update_task_status, Always-MayCall}
use kbrain.TaskController.Pending.{slot_annotation, slot_granted, waits_for_slot}
use kbrain.TaskController.Lifecycle.{Edge, begin, validate, launch, complete, merge, fail}
use kbrain.TaskController.Footprints.Pending.{Ready}
use kbrain.TaskController.Lawful.{dispatch-calls}
use kbrain.PoolController.Groups.{is_active, is_waiting}
use kbrain.System.Steps.{ReplacedBy, Removed, WrittenBy}
use kbrain.System.Counting.{Starts, Stays, Done}
use kbrain.System.Order.{times, OwnedBy}

-- A sum of relations holds at the one place as one of them.
pub ReplacedBy-sum :
    (R Q : AgentTask → AgentTask → Type 0) (ts us : List AgentTask)
    → ReplacedBy (λ t u. R t u ⊎ Q t u) ts us
    → ReplacedBy R ts us ⊎ ReplacedBy Q ts us
ReplacedBy-sum R Q [] us h = absurd h
ReplacedBy-sum R Q (t ∷ ts) [] h = absurd h
ReplacedBy-sum R Q (t ∷ ts) (u ∷ us) (inl (inl r, e)) = inl (inl (r, e))
ReplacedBy-sum R Q (t ∷ ts) (u ∷ us) (inl (inr q, e)) = inr (inl (q, e))
ReplacedBy-sum R Q (t ∷ ts) (u ∷ us) (inr (e, h)) = elim (ReplacedBy-sum R Q ts us h) [
  | inl r ↦ inl (inr (e, r))
  | inr q ↦ inr (inr (e, q))
]

-- What holds of all tasks may be used at the one place.
pub ReplacedBy-map :
    (P : AgentTask → Type 0) (R Q : AgentTask → AgentTask → Type 0)
    → ((t u : AgentTask) → P t → R t u → Q t u)
    → (ts us : List AgentTask) → All P ts
    → ReplacedBy R ts us
    → ReplacedBy Q ts us
ReplacedBy-map P R Q f [] us a h = absurd h
ReplacedBy-map P R Q f (t ∷ ts) [] a h = absurd h
ReplacedBy-map P R Q f (t ∷ ts) (u ∷ us) a (inl (r, e)) = inl (f t u a.0 r, e)
ReplacedBy-map P R Q f (t ∷ ts) (u ∷ us) a (inr (e, h)) =
    inr (e, ReplacedBy-map P R Q f ts us a.1 h)

-- The time of creation and the pool stay.
pub record SameTask (t u : AgentTask) : Type 0 where
  pub same_creation : u.creation_timestamp ≡ t.creation_timestamp
  pub same_pool : u.spec.pool_ref ≡ t.spec.pool_ref

pub SameTask-keeps :
    (pool : AgentPool) (ts us : List AgentTask)
    → ReplacedBy SameTask ts us
    → OwnedBy pool ts
    → (times us ≡ times ts) × OwnedBy pool us
SameTask-keeps pool [] us h o = absurd h
SameTask-keeps pool (t ∷ ts) [] h o = absurd h
SameTask-keeps pool (t ∷ ts) (u ∷ us) (inl (s, e)) o =
    rw (e, s.same_creation) (refl, (s.same_pool ∙ o.0, o.1))
SameTask-keeps pool (t ∷ ts) (u ∷ us) (inr (e, h)) o =
    let (a, b) = SameTask-keeps pool ts us h o.1 in rw e (ap (◌∷◌ t.creation_timestamp) a, (o.0, b))

Removed-above :
    (n : ℕ) (ts us : List AgentTask)
    → Removed ts us
    → All (λ m. n < m) (times ts)
    → All (λ m. n < m) (times us)
Removed-above n [] us h a = absurd h
Removed-above n (t ∷ ts) [] h a = tt
Removed-above n (t ∷ ts) (u ∷ us) (inl e) a = subst (λ l. All (λ m. n < m) (times l)) (sym e) a.1
Removed-above n (t ∷ ts) (u ∷ us) (inr (e, h)) a = rw e (a.0, Removed-above n ts us h a.1)

pub Removed-keeps :
    (pool : AgentPool) (ts us : List AgentTask)
    → Removed ts us
    → OwnedBy pool ts
    → IsIncreasing (times ts)
    → OwnedBy pool us × IsIncreasing (times us)
Removed-keeps pool [] us h o i = absurd h
Removed-keeps pool (t ∷ ts) [] h o i = (tt, tt)
Removed-keeps pool (t ∷ ts) (u ∷ us) (inl e) o i =
    subst (λ l. OwnedBy pool l × IsIncreasing (times l)) (sym e) (o.1, i.1)
Removed-keeps pool (t ∷ ts) (u ∷ us) (inr (e, h)) o i =
    let (a, b) = Removed-keeps pool ts us h o.1 i.1 in
    rw e ((o.0, a), (Removed-above t.creation_timestamp ts us h i.0, b))

pub arrives-keeps :
    (pool : AgentPool) (t : AgentTask) (ts : List AgentTask)
    → t.spec.pool_ref ≡ pool.name
    → All (λ u. u.creation_timestamp < t.creation_timestamp) ts
    → OwnedBy pool ts
    → IsIncreasing (times ts)
    → OwnedBy pool (ts ++ t ∷ []) × IsIncreasing (times (ts ++ t ∷ []))
arrives-keeps pool t [] h l o i = ((h, tt), (tt, tt))
arrives-keeps pool t (u ∷ ts) h l o i =
    let (a, b) = arrives-keeps pool t ts h l.1 o.1 i.1 in ((o.0, a), (above ts i.0, b))
  where
    above :
        (ts : List AgentTask)
        → All (λ m. u.creation_timestamp < m) (times ts)
        → All (λ m. u.creation_timestamp < m) (times (ts ++ t ∷ []))
    above [] k = (l.0, tt)
    above (v ∷ ts) k = (k.0, above ts k.1)

-- What an edge of the lifecycle means for the slots.
abbrev pub EdgeKind : AgentTaskPhase → AgentTaskPhase → Type 0
EdgeKind p q =
    ((is_waiting p ≡ true) × (is_active p ≡ false) × (q ≡ initializing))
    ⊎ (((is_active q ≡ is_active p) × (is_waiting q ≡ is_waiting p))
        ⊎ ((is_active q ≡ false) × (is_waiting q ≡ false)))

pub Edge-EdgeKind : {p q : AgentTaskPhase} → Edge p q → EdgeKind p q
unfolding is_active is_waiting
Edge-EdgeKind begin = inl (refl, refl, refl)
Edge-EdgeKind validate = inl (refl, refl, refl)
Edge-EdgeKind launch = inr (inl (refl, refl))
Edge-EdgeKind complete = inr (inl (refl, refl))
Edge-EdgeKind merge = inr (inr (refl, refl))
Edge-EdgeKind (fail h) = inr (inr (refl, refl))

pub is_waiting-idle : (p : AgentTaskPhase) → is_waiting p ≡ true → is_active p ≡ false
unfolding is_active is_waiting
is_waiting-idle p h = ground arith

-- A task of a pool that does not wait for a slot is granted one.
not_waiting-granted :
    (t : AgentTask)
    → is_empty t.spec.pool_ref ≡ false
    → waits_for_slot t ≡ false
    → slot_granted t ≡ true
unfolding waits_for_slot
not_waiting-granted t h k = ground arith

-- A status write of the task controller starts a task that is granted a slot, or leaves what the
-- phase counts as, or ends the task; and it keeps the time of creation and the pool.
pub WrittenBy-kinds :
    (libs : Libs) (t u : AgentTask)
    → is_empty t.spec.pool_ref ≡ false
    → WrittenBy libs t u
    → (Starts t u ⊎ (Stays t u ⊎ Done u)) × SameTask t u
WrittenBy-kinds libs t u n w =
    let ((l, c, g), k) =
      Always-MayCall _ (update_task_status u) (dispatch-calls libs t t.status.phase refl) w in
    (
      kinds g (Edge-EdgeKind l.2) l.0,
      record {
        same_creation = ap (λ m. m.creation_timestamp) l.0;
        same_pool = ap (λ s. s.pool_ref) l.1;
      },
    )
  where
    kinds :
        (u.status.phase ≢ initializing) ⊎ Ready t
        → EdgeKind t.status.phase u.status.phase
        → u.meta ≡ t.meta
        → Starts t u ⊎ (Stays t u ⊎ Done u)
    kinds (inl ne) (inl (w, i, e)) m = absurd (ne e)
    kinds (inr r) (inl (w, i, e)) m = inl (record {
      waited = w;
      idle = i;
      granted = not_waiting-granted t n r.has_slot;
      active = rw e (unfold is_active in refl);
      left = rw e (unfold is_waiting in refl);
    })
    kinds g (inr (inl (a, b))) m = inr (
        inl (record {
          same_active = a;
          same_waiting = b;
          same_grant =
              unfold slot_granted in
              ap (λ x. text_eq (index slot_annotation x.annotations) (lit "true")) m;
        }))
    kinds g (inr (inr (a, b))) m = inr (inr (record { idle = a; settled = b }))
