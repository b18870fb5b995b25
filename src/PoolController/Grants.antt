-- ===== src/PoolController/Grants.antt =====
-- Which tasks a pool grants its slots, and what Reconcile sends to the cluster for it.
use kbrain.Prelude.{
  ℕ, zero, suc, ◌-◌, ◌≤◌, min, Bool, false, List, [], ◌∷◌, ◌++◌, ◌≡◌, refl, ltb, if◌then◌else◌,
  length, take, drop, All, arith, length-take, take-append-drop, All-drop, All-map,
}
use kbrain.Prelude.Int.{ℤ, pos, negsuc, pos_part, ◌-ℤ◌}
use kbrain.Prelude.Perms.{perm-length}
use kbrain.Api.{AgentTask}
use kbrain.Effects.{Libs}
use kbrain.PoolController.Slots.{slots_available, created_before, to_grant, chosen}
use mathlib.Core.List.{Perm}

-- No element comes before an earlier one: what `sort.Slice` promises, by the comparison `less`.
abbrev pub IsSortedBy : (AgentTask → AgentTask → Bool) → List AgentTask → Type 0
IsSortedBy less [] = Unit
IsSortedBy less (t ∷ ts) = All (λ u. less u t ≡ false) ts × IsSortedBy less ts

-- The documented behaviour of `sort.Slice`: a sorted rearrangement, which need not be stable.
pub record SortLaws (libs : Libs) : Type 0 where
  pub rearranges :
      (less : AgentTask → AgentTask → Bool) (ts : List AgentTask)
      → Perm (libs.sort_slice less ts) ts
  pub sorts : (ts : List AgentTask) → IsSortedBy created_before (libs.sort_slice created_before ts)

-- How many tasks are granted a slot.
unfoldable pub granted_count : ℤ → List AgentTask → ℕ
granted_count (negsuc n) waiting = 0
granted_count (pos n) waiting = if ltb 0 n then to_grant (pos n) waiting else 0

pub chosen-eq-take :
    (libs : Libs) (slots : ℤ) (waiting : List AgentTask)
    → chosen libs slots waiting
      ≡ take (granted_count slots waiting) (libs.sort_slice created_before waiting)
unfolding chosen granted_count
chosen-eq-take libs (negsuc n) waiting = refl
chosen-eq-take libs (pos n) waiting = ground arith

pub granted_count_lem :
    (max : ℤ) (active waiting : List AgentTask)
    → granted_count (slots_available max active) waiting
      ≡ min (pos_part max - length active) (length waiting)
unfolding granted_count slots_available ◌-ℤ◌ to_grant
granted_count_lem max active waiting = ground arith

-- The waiting tasks that get no slot.
abbrev pub passed_over : Libs → ℤ → List AgentTask → List AgentTask
passed_over libs slots waiting =
    drop (granted_count slots waiting) (libs.sort_slice created_before waiting)

-- Of a sorted list, nothing in the first part comes after anything in the rest.
sorted_split :
    (n : ℕ) (ts : List AgentTask)
    → IsSortedBy created_before ts
    → All (λ t. All (λ u. created_before u t ≡ false) (drop n ts)) (take n ts)
sorted_split zero ts h = tt
sorted_split (suc n) [] h = tt
sorted_split (suc n) (t ∷ ts) h = (All-drop _ n ts h.0, sorted_split n ts h.1)

created_before-false :
    (t : AgentTask) (us : List AgentTask)
    → All (λ u. created_before u t ≡ false) us
    → All (λ u. t.creation_timestamp ≤ u.creation_timestamp) us
created_before-false t us = All-map _ _ us (λ u h. ground arith)

module _ (libs : Libs) (laws : SortLaws libs) where
  length-sort : (ts : List AgentTask) → length (libs.sort_slice created_before ts) ≡ length ts
  length-sort ts = perm-length (laws.rearranges created_before ts)

  -- If sort.Slice rearranges its slice and sorts it, the number of tasks that are granted a slot is the
  -- smaller of two numbers: how far the active tasks stay below the limit, which is none if they reach
  -- it or it is negative, and how many tasks wait.
  pub length-chosen :
      (max : ℤ) (active waiting : List AgentTask)
      → length (chosen libs (slots_available max active) waiting)
        ≡ min (pos_part max - length active) (length waiting)
  length-chosen max active waiting = rw (chosen-eq-take libs (slots_available max active) waiting) (
      omega (
        arith,
        length-take (granted_count (slots_available max active) waiting)
            (libs.sort_slice created_before waiting),
        length-sort waiting,
        granted_count_lem max active waiting,
      ))

  -- If sort.Slice rearranges its slice and sorts it, slots go to the tasks that wait longest: the
  -- chosen tasks and those passed over are together the waiting ones rearranged, and no chosen task was
  -- created after one that is passed over.
  pub chosen_fifo :
      (slots : ℤ) (waiting : List AgentTask)
      → Perm (chosen libs slots waiting ++ passed_over libs slots waiting) waiting
        × All
            (λ t.
              All
                (λ u. t.creation_timestamp ≤ u.creation_timestamp)
                (passed_over libs slots waiting))
            (chosen libs slots waiting)
  chosen_fifo slots waiting = rw (chosen-eq-take libs slots waiting) (
    rw (take-append-drop (granted_count slots waiting) (libs.sort_slice created_before waiting))
        (laws.rearranges created_before waiting),
    All-map _ _ _ (λ t. created_before-false t (passed_over libs slots waiting))
        (sorted_split (granted_count slots waiting) (libs.sort_slice created_before waiting)
          (laws.sorts waiting)),
  )
