-- ===== src/System/Counting.antt =====
-- How many slots are taken, and how many granted tasks wait beyond a number of waiting ones.
use kbrain.Prelude.{
  ℕ, suc, ◌+◌, ◌-◌, ◌≤◌, ◌<◌, Bool, true, false, List, [], ◌∷◌, ◌++◌, ◌≡◌, refl, ap, inl, inr, ◌==◌,
  ◌&&◌, if◌then◌else◌, length, arith,
}
use kbrain.Api.{AgentTask}
use kbrain.TaskController.Pending.{slot_granted}
use kbrain.PoolController.Groups.{is_active, is_waiting, select}
use kbrain.System.Steps.{ReplacedBy, Removed}

-- The number of tasks that occupy a slot.
abbrev pub occupied : List AgentTask → ℕ
occupied ts = length (select is_active ts)

abbrev pub one_if : Bool → ℕ
one_if b = if b then 1 else 0

-- The waiting tasks that are granted a slot.
unfoldable pub granted_waiting : List AgentTask → ℕ
granted_waiting [] = 0
granted_waiting (t ∷ ts) = one_if (is_waiting t.status.phase && slot_granted t) + granted_waiting ts

-- The same, but for the first k of the waiting tasks.
unfoldable pub beyond : ℕ → List AgentTask → ℕ
beyond k [] = 0
beyond k (t ∷ ts) =
    one_if (is_waiting t.status.phase && (k == 0 && slot_granted t))
    + beyond (if is_waiting t.status.phase then k - 1 else k) ts

pub granted_waiting-le : (k : ℕ) (ts : List AgentTask) → granted_waiting ts ≤ k + beyond k ts
unfolding granted_waiting beyond
granted_waiting-le k [] = omega arith
granted_waiting-le k (t ∷ ts) =
    ground (arith, granted_waiting-le k ts, granted_waiting-le (k - 1) ts)

-- With more slots, fewer are beyond.
pub beyond_mono : (k j : ℕ) (ts : List AgentTask) → k ≤ j → beyond j ts ≤ beyond k ts
unfolding beyond
beyond_mono k j [] h = omega arith
beyond_mono k j (t ∷ ts) h = ground (arith, beyond_mono k j ts, beyond_mono (k - 1) (j - 1) ts)

-- A task of a phase in which it neither waits nor occupies a slot.
pub record Done (t : AgentTask) : Type 0 where
  pub idle : is_active t.status.phase ≡ false
  pub settled : is_waiting t.status.phase ≡ false

-- A waiting task with a slot that begins to occupy it.
pub record Starts (t u : AgentTask) : Type 0 where
  pub waited : is_waiting t.status.phase ≡ true
  pub idle : is_active t.status.phase ≡ false
  pub granted : slot_granted t ≡ true
  pub active : is_active u.status.phase ≡ true
  pub left : is_waiting u.status.phase ≡ false

-- A task whose phase counts as before.
pub record Stays (t u : AgentTask) : Type 0 where
  pub same_active : is_active u.status.phase ≡ is_active t.status.phase
  pub same_waiting : is_waiting u.status.phase ≡ is_waiting t.status.phase
  pub same_grant : slot_granted u ≡ slot_granted t

pub Stays-counts :
    (ts us : List AgentTask)
    → ReplacedBy Stays ts us
    → (occupied us ≡ occupied ts)
      × ((k : ℕ) → beyond k us ≡ beyond k ts)
      × (granted_waiting us ≡ granted_waiting ts)
unfolding select beyond granted_waiting
Stays-counts [] us h = absurd h
Stays-counts (t ∷ ts) [] h = absurd h
Stays-counts (t ∷ ts) (u ∷ us) (inl (s, e)) =
    rw (e, s.same_active, s.same_waiting, s.same_grant) (ground arith, λ k. refl, refl)
Stays-counts (t ∷ ts) (u ∷ us) (inr (e, r)) =
    let (a, b, c) = Stays-counts ts us r in
    rw e (
      ground arith,
      λ k. ap (λ n. one_if (is_waiting t.status.phase && (k == 0 && slot_granted t)) + n) (b _),
      ground arith,
    )

pub Ends-counts :
    (ts us : List AgentTask)
    → ReplacedBy (λ t u. Done u) ts us
    → (occupied us ≤ occupied ts) × ((k : ℕ) → beyond k us ≤ beyond k ts)
unfolding select beyond
Ends-counts [] us h = absurd h
Ends-counts (t ∷ ts) [] h = absurd h
Ends-counts (t ∷ ts) (u ∷ us) (inl (s, e)) =
    rw e (ground arith, λ (k : ℕ). ground (arith, beyond_mono (k - 1) k ts))
Ends-counts (t ∷ ts) (u ∷ us) (inr (e, r)) =
    let (a, b) = Ends-counts ts us r in
    rw e (ground arith, λ (k : ℕ). ground (arith, b k, b (k - 1)))

pub Removed-counts :
    (ts us : List AgentTask)
    → Removed ts us
    → (occupied us ≤ occupied ts) × ((k : ℕ) → beyond k us ≤ beyond k ts)
unfolding select beyond
Removed-counts [] us h = absurd h
Removed-counts (t ∷ ts) [] h = (ground arith, λ (k : ℕ). omega arith)
Removed-counts (t ∷ ts) (u ∷ us) (inl e) =
    rw (← e) (ground arith, λ (k : ℕ). ground (arith, beyond_mono (k - 1) k (u ∷ us)))
Removed-counts (t ∷ ts) (u ∷ us) (inr (e, r)) =
    let (a, b) = Removed-counts ts us r in
    rw e (ground arith, λ (k : ℕ). ground (arith, b k, b (k - 1)))

-- A task that starts was among the first k waiting ones, so k is positive and goes down by one.
pub Starts-counts :
    (ts us : List AgentTask)
    → ReplacedBy Starts ts us
    → (occupied us ≡ suc (occupied ts))
      × ((k : ℕ) → beyond k ts ≡ 0 → (0 < k) × (beyond (k - 1) us ≡ 0))
unfolding select beyond
Starts-counts [] us h = absurd h
Starts-counts (t ∷ ts) [] h = absurd h
Starts-counts (t ∷ ts) (u ∷ us) (inl (s, e)) = rw e (ground arith, λ (k : ℕ) z. ground arith)
Starts-counts (t ∷ ts) (u ∷ us) (inr (e, r)) =
    let (a, b) = Starts-counts ts us r in
    rw e (ground arith, λ (k : ℕ) z. ground (arith, b k, b (k - 1)))

pub occupied-arrives :
    (t : AgentTask) (ts : List AgentTask)
    → is_active t.status.phase ≡ false
    → occupied (ts ++ t ∷ []) ≡ occupied ts
unfolding select
occupied-arrives t [] h = ground arith
occupied-arrives t (u ∷ ts) h = ground (arith, occupied-arrives t ts)

pub beyond-arrives :
    (k : ℕ) (t : AgentTask) (ts : List AgentTask)
    → slot_granted t ≡ false
    → beyond k (ts ++ t ∷ []) ≡ beyond k ts
unfolding beyond
beyond-arrives k t [] h = ground arith
beyond-arrives k t (u ∷ ts) h = ground (arith, beyond-arrives k t ts, beyond-arrives (k - 1) t ts)
