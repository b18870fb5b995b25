-- ===== src/System/Granting.antt =====
-- A run of the pool controller grants slots to none but the first of the waiting tasks.
use mathlib.Core.Logic.{∥∥₁_elim}
use mathlib.Core.List.{Perm, Permᴰ, Memᴰ}
use mathlib.Core.List.Perm
use native.Mathlib.Nat.{ℕ_set}
use kbrain.Prelude.{
  ℕ, zero, suc, ◌-◌, ◌≤◌, ◌<◌, min, Bool, true, false, List, [], ◌∷◌, ◌≡◌, refl, ap, ◌∙◌, subst,
  inl, inr, Bool-cases, length, take, drop, All, arith, ◌⊎◌, ◌&&◌, ◌==◌,
}
use kbrain.Prelude.Int.{pos_part}
use kbrain.Prelude.Perms.{perm-length}
use kbrain.Prelude.Sorted.{IsIncreasing, sorted_unique}
use kbrain.Api.{AgentTask, AgentPool}
use kbrain.Effects.{Libs}
use kbrain.TaskController.Pending.{slot_granted}
use kbrain.PoolController.Slots.{created_before, slots_available, grant}
use kbrain.PoolController.Groups.{is_active, is_waiting, select, categorize-select}
use kbrain.PoolController.Grants.{SortLaws, granted_count_lem, chosen-eq-take}
use kbrain.System.Steps.{GrantedAmong, grants_among}
use kbrain.System.Counting.{occupied, beyond, one_if}
use kbrain.System.Order.{
  times, OwnedBy, select-Permᴰ, times-select-IsIncreasing, created_before-IsSorted,
  increasing_split, times-Memᴰ, times-take, take-Memᴰ_le,
}

-- The most tasks that may occupy a slot.
abbrev pub limit : AgentPool → ℕ
limit pool = pos_part pool.spec.max_concurrency

-- The task is older than all waiting tasks but the first k.
abbrev pub IsAhead : ℕ → List AgentTask → AgentTask → Type 0
IsAhead k ts t = All (λ m. t.creation_timestamp < m) (drop k (times (select is_waiting ts)))

IsAhead-waiting :
    (k : ℕ) (t : AgentTask) (ts : List AgentTask) (x : AgentTask)
    → is_waiting t.status.phase ≡ true
    → IsAhead k (t ∷ ts) x
    → IsAhead (k - 1) ts x
unfolding select
IsAhead-waiting zero t ts x w h = let h' = rw w at h in h'.1
IsAhead-waiting (suc k) t ts x w h = let e : suc k - 1 ≡ k = omega arith in rw e (rw w at h)

IsAhead-idle :
    (k : ℕ) (t : AgentTask) (ts : List AgentTask) (x : AgentTask)
    → is_waiting t.status.phase ≡ false
    → IsAhead k (t ∷ ts) x
    → IsAhead k ts x
unfolding select
IsAhead-idle k t ts x w h = rw w at h

-- No task is older than itself.
not_self_ahead :
    (t : AgentTask) (ts : List AgentTask)
    → is_waiting t.status.phase ≡ true
    → IsAhead 0 (t ∷ ts) t
    → ⊥
unfolding select
not_self_ahead t ts w h = let h' = rw w at h in omega (arith, h'.0)

-- A granted task that is ahead is not beyond the first k.
excess-zero :
    (k : ℕ) (t : AgentTask) (ts : List AgentTask) (b : Bool)
    → IsAhead k (t ∷ ts) t
    → one_if (is_waiting t.status.phase && (k == 0 && b)) ≡ 0
excess-zero zero t ts b h = elim (Bool-cases (is_waiting t.status.phase)) [
  | inl w ↦ absurd (not_self_ahead t ts w h)
  | inr w ↦ rw w
]
excess-zero (suc k) t ts b h = ground arith

-- Where all tasks to be granted are ahead, none is granted beyond the first k.
pub GrantedAmong-beyond :
    (C : List AgentTask) (k : ℕ) (ts us : List AgentTask)
    → ((t : AgentTask) → Memᴰ t C → IsAhead k ts t)
    → GrantedAmong C ts us
    → beyond k ts ≡ 0
    → beyond k us ≡ 0
unfolding beyond grant
GrantedAmong-beyond C k [] [] a g z = refl
GrantedAmong-beyond C k [] (u ∷ us) a g z = absurd g
GrantedAmong-beyond C k (t ∷ ts) [] a g z = absurd g
GrantedAmong-beyond C k (t ∷ ts) (u ∷ us) a (c, g) z =
    elim (Bool-cases (is_waiting t.status.phase)) [
      | inl w ↦
          head c (GrantedAmong-beyond C (k - 1) ts us (λ x m. IsAhead-waiting k t ts x w (a x m)) g)
            w
      | inr w ↦ idle c (GrantedAmong-beyond C k ts us (λ x m. IsAhead-idle k t ts x w (a x m)) g) w
    ]
  where
    idle :
        (u ≡ t) ⊎ (Memᴰ t C × (u ≡ grant t))
        → (beyond k ts ≡ 0 → beyond k us ≡ 0)
        → is_waiting t.status.phase ≡ false
        → beyond k (u ∷ us) ≡ 0
    idle (inl e) r w = rw e (ground arith)
    idle (inr (m, e)) r w = rw e (ground arith)

    head :
        (u ≡ t) ⊎ (Memᴰ t C × (u ≡ grant t))
        → (beyond (k - 1) ts ≡ 0 → beyond (k - 1) us ≡ 0)
        → is_waiting t.status.phase ≡ true
        → beyond k (u ∷ us) ≡ 0
    head (inl e) r w = rw e (ground arith)
    head (inr (m, e)) r w =
        rw e (ground (arith, excess-zero k t ts (slot_granted (grant t)) (a t m)))

pub GrantedAmong-keeps :
    (C ts us : List AgentTask)
    → GrantedAmong C ts us
    → (occupied us ≡ occupied ts)
      × (times us ≡ times ts)
      × ((pool : AgentPool) → OwnedBy pool ts → OwnedBy pool us)
unfolding select grant
GrantedAmong-keeps C [] [] g = (refl, refl, λ pool h. tt)
GrantedAmong-keeps C [] (u ∷ us) g = absurd g
GrantedAmong-keeps C (t ∷ ts) [] g = absurd g
GrantedAmong-keeps C (t ∷ ts) (u ∷ us) (inl e, g) =
    let (a, b, c) = GrantedAmong-keeps C ts us g in
    rw e (ground arith, ap (◌∷◌ t.creation_timestamp) b, λ pool h. (h.0, c pool h.1))
GrantedAmong-keeps C (t ∷ ts) (u ∷ us) (inr (m, e), g) =
    let (a, b, c) = GrantedAmong-keeps C ts us g in
    rw e (ground arith, ap (◌∷◌ t.creation_timestamp) b, λ pool h. (h.0, c pool h.1))

module _ (libs : Libs) (laws : SortLaws libs) (pool : AgentPool) where
  -- The tasks that are granted are the first of those that wait, as many as there are free slots.
  pub grants_among-eq :
      (seen : List AgentTask)
      → grants_among libs pool seen
        ≡ take
            (min (limit pool - occupied seen) (length (select is_waiting seen)))
            (libs.sort_slice created_before (select is_waiting seen))
  grants_among-eq seen =
      let (a, w, c, b) = categorize-select seen in
      rw (
        a,
        w,
        chosen-eq-take libs (slots_available pool.spec.max_concurrency (select is_active seen))
            (select is_waiting seen),
        granted_count_lem pool.spec.max_concurrency (select is_active seen)
            (select is_waiting seen),
      )

  pub times-sorted :
      (ts ws : List AgentTask)
      → IsIncreasing (times ts)
      → Perm ws ts
      → times (libs.sort_slice created_before ws) ≡ times ts
  times-sorted ts ws inc p =
      sorted_unique (times (libs.sort_slice created_before ws)) (times ts)
        (created_before-IsSorted _ (laws.sorts ws)) inc
        (Perm.map (λ t. t.creation_timestamp) (Perm.trans (laws.rearranges created_before ws) p))

  -- A task that is granted a slot is one of the first that wait, as many as there are free slots.
  pub grants_among-first :
      (seen ts : List AgentTask)
      → Permᴰ seen ts
      → OwnedBy pool ts
      → IsIncreasing (times ts)
      → (t : AgentTask) → Memᴰ t (grants_among libs pool seen)
      → Memᴰ t.creation_timestamp (take (limit pool - occupied ts) (times (select is_waiting ts)))
  grants_among-first seen ts d own inc t m = take-Memᴰ_le j (limit pool - occupied ts) _ bound among
    where
      ws : List AgentTask
      ws = select is_waiting seen

      j : ℕ
      j = min (limit pool - occupied seen) (length ws)

      bound : j ≤ limit pool - occupied ts
      bound = omega (arith, perm-length ∣ select-Permᴰ is_active d ∣₁)

      among : Memᴰ t.creation_timestamp (take j (times (select is_waiting ts)))
      among =
          subst (λ l. Memᴰ t.creation_timestamp l)
            (times-take j (libs.sort_slice created_before ws)
              ∙ ap (take j) (
                  times-sorted (select is_waiting ts) ws
                    (times-select-IsIncreasing is_waiting ts inc) ∣ select-Permᴰ is_waiting d ∣₁))
            (times-Memᴰ t (take j (libs.sort_slice created_before ws))
              (subst (Memᴰ t) (grants_among-eq seen) m))

  pub grants_among-IsAhead :
      (seen ts : List AgentTask)
      → Permᴰ seen ts
      → OwnedBy pool ts
      → IsIncreasing (times ts)
      → (t : AgentTask) → Memᴰ t (grants_among libs pool seen)
      → IsAhead (limit pool - occupied ts) ts t
  grants_among-IsAhead seen ts d own inc t m =
      increasing_split (limit pool - occupied ts) t.creation_timestamp _
        (times-select-IsIncreasing is_waiting ts inc) (grants_among-first seen ts d own inc t m)

  -- So a run of the pool controller keeps the granted tasks within the free slots.
  pub pool_runs-beyond :
      (seen ts us : List AgentTask)
      → Perm seen ts
      → OwnedBy pool ts
      → IsIncreasing (times ts)
      → GrantedAmong (grants_among libs pool seen) ts us
      → beyond (limit pool - occupied ts) ts ≡ 0
      → beyond (limit pool - occupied ts) us ≡ 0
  pool_runs-beyond seen ts us p own inc g z = ∥∥₁_elim p (ℕ_set _ _) λ d.
      GrantedAmong-beyond (grants_among libs pool seen) (limit pool - occupied ts) ts us
        (grants_among-IsAhead seen ts d own inc) g z
