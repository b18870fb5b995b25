-- ===== src/System/Order.antt =====
-- A run of the pool controller grants slots to none but the first of the waiting tasks.
use mathlib.Core.List.{Perm, Permᴰ, Memᴰ}
use mathlib.Core.List.Permᴰ
use kbrain.System.Steps.{Listed, ListedBy}
use kbrain.Prelude.{
  none, sym, ℕ, zero, suc, ◌≤◌, ◌<◌, Bool, false, List, [], ◌∷◌, map, ◌≡◌, refl, ap, ◌∙◌, subst,
  inl, inr, Bool-cases, take, drop, All, All-drop, arith,
}
use kbrain.Prelude.Sorted.{IsSortedℕ, IsIncreasing}
use kbrain.Api.{AgentTask, AgentTaskPhase, AgentPool}
use kbrain.PoolController.Tasks.{keep_own}
use kbrain.PoolController.Slots.{created_before}
use kbrain.PoolController.Groups.{select}
use kbrain.PoolController.Membership.{keep_own-hit}
use kbrain.PoolController.Grants.{IsSortedBy}

-- The times of creation.
abbrev pub times : List AgentTask → List ℕ
times = map (λ t. t.creation_timestamp)

-- Every task names the pool.
abbrev pub OwnedBy : AgentPool → List AgentTask → Type 0
OwnedBy pool = All (λ t. t.spec.pool_ref ≡ pool.name)

pub Permᴰ-All {κ} :
    (P : AgentTask → Type κ) {ts us : List AgentTask} → Permᴰ ts us → All P ts → All P us
Permᴰ-All P Permᴰ.nil h = tt
Permᴰ-All P (Permᴰ.cons e p) h = (subst P e h.0, Permᴰ-All P p h.1)
Permᴰ-All P (Permᴰ.swap e f) h = (subst P f h.1.0, (subst P e h.0, h.1.1))
Permᴰ-All P (Permᴰ.trans p q) h = Permᴰ-All P q (Permᴰ-All P p h)

pub keep_own-OwnedBy :
    (pool : AgentPool) (ts : List AgentTask) → OwnedBy pool ts → keep_own pool ts ≡ ts
keep_own-OwnedBy pool [] h = unfold keep_own in refl
keep_own-OwnedBy pool (t ∷ ts) h =
    keep_own-hit pool t ts h.0 ∙ ap (◌∷◌ t) (keep_own-OwnedBy pool ts h.1)

-- Without a selector, the tasks of the pool may be listed alone.
pub own-Listed :
    (pool : AgentPool) (seen ts : List AgentTask)
    → pool.spec.selector ≡ none
    → OwnedBy pool seen
    → Perm seen ts
    → Listed pool seen ts
own-Listed pool seen ts n own p =
    subst (λ o. ListedBy o pool seen ts) (sym n)
      (subst (λ l. Perm l ts) (sym (keep_own-OwnedBy pool seen own)) p)

module _ (p : AgentTaskPhase → Bool) where
  select_cons-Permᴰ :
      (t : AgentTask) (ts us : List AgentTask)
      → Permᴰ (select p ts) (select p us)
      → Permᴰ (select p (t ∷ ts)) (select p (t ∷ us))
  unfolding select
  select_cons-Permᴰ t ts us d = elim (Bool-cases (p t.status.phase)) [
    | inl h ↦ rw h (Permᴰ.cons refl d)
    | inr h ↦ rw h d
  ]

  select_swap-Permᴰ :
      (t u : AgentTask) (ts : List AgentTask)
      → Permᴰ (select p (t ∷ u ∷ ts)) (select p (u ∷ t ∷ ts))
  unfolding select
  select_swap-Permᴰ t u ts = elim (Bool-cases (p t.status.phase)) [
    | inl h ↦ elim (Bool-cases (p u.status.phase)) [
      | inl k ↦ rw (h, k) (Permᴰ.swap refl refl)
      | inr k ↦ rw (h, k) (Permᴰ.refl (t ∷ select p ts))
    ]
    | inr h ↦ rw h (Permᴰ.refl (select p (u ∷ ts)))
  ]

  -- The tasks of some phases of a rearranged list.
  pub select-Permᴰ : {ts us : List AgentTask} → Permᴰ ts us → Permᴰ (select p ts) (select p us)
  select-Permᴰ Permᴰ.nil = unfold select in Permᴰ.nil
  select-Permᴰ (Permᴰ.cons {a} {l₁} {l₂} e d) =
      subst (λ b. Permᴰ (select p (a ∷ l₁)) (select p (b ∷ l₂))) e
        (select_cons-Permᴰ a l₁ l₂ (select-Permᴰ d))
  select-Permᴰ (Permᴰ.swap {a} {b} {a'} {b'} {l} e f) =
      subst (λ x. Permᴰ (select p (a ∷ b ∷ l)) (select p (x ∷ b' ∷ l))) f
        (subst (λ y. Permᴰ (select p (a ∷ b ∷ l)) (select p (b ∷ y ∷ l))) e
          (select_swap-Permᴰ a b l))
  select-Permᴰ (Permᴰ.trans d e) = Permᴰ.trans (select-Permᴰ d) (select-Permᴰ e)

  times-select_above :
      (n : ℕ) (ts : List AgentTask)
      → All (λ m. n < m) (times ts)
      → All (λ m. n < m) (times (select p ts))
  unfolding select
  times-select_above n [] h = tt
  times-select_above n (t ∷ ts) h = elim (Bool-cases (p t.status.phase)) [
    | inl k ↦ rw k (h.0, times-select_above n ts h.1)
    | inr k ↦ rw k (times-select_above n ts h.1)
  ]

  pub times-select-IsIncreasing :
      (ts : List AgentTask) → IsIncreasing (times ts) → IsIncreasing (times (select p ts))
  unfolding select
  times-select-IsIncreasing [] h = tt
  times-select-IsIncreasing (t ∷ ts) h = elim (Bool-cases (p t.status.phase)) [
    | inl k ↦
        rw k (times-select_above t.creation_timestamp ts h.0, times-select-IsIncreasing ts h.1)
    | inr k ↦ rw k (times-select-IsIncreasing ts h.1)
  ]

pub created_before-IsSorted :
    (ts : List AgentTask) → IsSortedBy created_before ts → IsSortedℕ (times ts)
created_before-IsSorted [] h = tt
created_before-IsSorted (t ∷ ts) h = (not_before t ts h.0, created_before-IsSorted ts h.1)
  where
    not_before :
        (t : AgentTask) (ts : List AgentTask)
        → All (λ u. created_before u t ≡ false) ts
        → All (λ m. t.creation_timestamp ≤ m) (times ts)
    not_before t [] h = tt
    not_before t (u ∷ ts) h = (ground (arith, h.0), not_before t ts h.1)

-- Of an increasing list, every number of the first ones is below all the others.
pub increasing_split :
    (k n : ℕ) (ns : List ℕ) → IsIncreasing ns → Memᴰ n (take k ns) → All (λ m. n < m) (drop k ns)
increasing_split zero n ns h r = elim r [ ]
increasing_split (suc k) n [] h r = tt
increasing_split (suc k) n (m ∷ ns) h (Memᴰ.head e) = rw e (All-drop _ k ns h.0)
increasing_split (suc k) n (m ∷ ns) h (Memᴰ.tail r) = increasing_split k n ns h.1 r

pub times-Memᴰ :
    (t : AgentTask) (ts : List AgentTask) → Memᴰ t ts → Memᴰ t.creation_timestamp (times ts)
times-Memᴰ t [] r = elim r [ ]
times-Memᴰ t (u ∷ ts) (Memᴰ.head e) = Memᴰ.head (ap (λ v. v.creation_timestamp) e)
times-Memᴰ t (u ∷ ts) (Memᴰ.tail r) = Memᴰ.tail (times-Memᴰ t ts r)

pub times-take : (k : ℕ) (ts : List AgentTask) → times (take k ts) ≡ take k (times ts)
times-take zero ts = refl
times-take (suc k) [] = refl
times-take (suc k) (t ∷ ts) = ap (◌∷◌ t.creation_timestamp) (times-take k ts)

pub take-Memᴰ_le : (j k : ℕ) {n : ℕ} (ns : List ℕ) → j ≤ k → Memᴰ n (take j ns) → Memᴰ n (take k ns)
take-Memᴰ_le zero k ns h r = elim r [ ]
take-Memᴰ_le (suc j) zero ns h r = absurd (omega (arith, h))
take-Memᴰ_le (suc j) (suc k) [] h r = r
take-Memᴰ_le (suc j) (suc k) (m ∷ ns) h (Memᴰ.head e) = Memᴰ.head e
take-Memᴰ_le (suc j) (suc k) (m ∷ ns) h (Memᴰ.tail r) =
    Memᴰ.tail (take-Memᴰ_le j k ns (omega (arith, h)) r)

-- What is created after all tasks is later than each of them.
pub times-older :
    (n k : ℕ) (ts : List AgentTask)
    → All (λ u. u.creation_timestamp < k) ts
    → Memᴰ n (times ts)
    → n < k
times-older n k [] h m = elim m [ ]
times-older n k (u ∷ ts) h (Memᴰ.head e) = rw e h.0
times-older n k (u ∷ ts) h (Memᴰ.tail m) = times-older n k ts h.1 m

pub take-Memᴰ : (k n : ℕ) (ns : List ℕ) → Memᴰ n (take k ns) → Memᴰ n ns
take-Memᴰ zero n ns m = elim m [ ]
take-Memᴰ (suc k) n [] m = elim m [ ]
take-Memᴰ (suc k) n (x ∷ ns) (Memᴰ.head e) = Memᴰ.head e
take-Memᴰ (suc k) n (x ∷ ns) (Memᴰ.tail m) = Memᴰ.tail (take-Memᴰ k n ns m)

cons-Memᴰ : (n m : ℕ) (ms ns : List ℕ) → (Memᴰ n ms → Memᴰ n ns) → Memᴰ n (m ∷ ms) → Memᴰ n (m ∷ ns)
cons-Memᴰ n m ms ns f (Memᴰ.head e) = Memᴰ.head e
cons-Memᴰ n m ms ns f (Memᴰ.tail r) = Memᴰ.tail (f r)

pub times-select-Memᴰ :
    (p : AgentTaskPhase → Bool) (n : ℕ) (ts : List AgentTask)
    → Memᴰ n (times (select p ts))
    → Memᴰ n (times ts)
unfolding select
times-select-Memᴰ p n [] m = m
times-select-Memᴰ p n (t ∷ ts) m = elim (Bool-cases (p t.status.phase)) [
  | inl w ↦ cons-Memᴰ n t.creation_timestamp _ _ (times-select-Memᴰ p n ts) (rw w at m)
  | inr w ↦ Memᴰ.tail (times-select-Memᴰ p n ts (rw w at m))
]
