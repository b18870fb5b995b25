-- ===== src/Tests/Sorting.antt =====
-- An insertion sort that keeps the documented behaviour of `sort.Slice`.
use mathlib.Core.List.{Perm, Permᴰ}
use mathlib.Core.List.Permᴰ
use kbrain.Prelude.{
  Bool, true, false, List, [], ◌∷◌, ◌≡◌, refl, if◌then◌else◌, All, All-map, Bool-cases, inl, inr,
  arith,
}
use kbrain.Api.{AgentTask}
use kbrain.PoolController.Slots.{created_before}
use kbrain.PoolController.Grants.{IsSortedBy}

abbrev pub Less : Type 0
Less = AgentTask → AgentTask → Bool

unfoldable put_by : Less → AgentTask → List AgentTask → List AgentTask
put_by less t [] = t ∷ []
put_by less t (u ∷ us) = let rest = u ∷ put_by less t us in if less u t then rest else t ∷ u ∷ us

unfoldable pub sort_by : Less → List AgentTask → List AgentTask
unfolding put_by
sort_by less [] = []
sort_by less (t ∷ ts) = put_by less t (sort_by less ts)

put_by-Permᴰ :
    (less : Less) (t : AgentTask) (ts : List AgentTask) → Permᴰ (put_by less t ts) (t ∷ ts)
unfolding put_by
put_by-Permᴰ less t [] = Permᴰ.refl (t ∷ [])
put_by-Permᴰ less t (u ∷ us) = elim (Bool-cases (less u t)) [
  | inl e ↦ rw e (Permᴰ.trans (Permᴰ.cons refl (put_by-Permᴰ less t us)) (Permᴰ.swap refl refl))
  | inr e ↦ rw e (Permᴰ.refl (t ∷ u ∷ us))
]

sort_by-Permᴰ : (less : Less) (ts : List AgentTask) → Permᴰ (sort_by less ts) ts
unfolding sort_by
sort_by-Permᴰ less [] = Permᴰ.nil
sort_by-Permᴰ less (t ∷ ts) =
    Permᴰ.trans (put_by-Permᴰ less t (sort_by less ts)) (Permᴰ.cons refl (sort_by-Permᴰ less ts))

pub sort_by-Perm : (less : Less) (ts : List AgentTask) → Perm (sort_by less ts) ts
sort_by-Perm less ts = ∣ sort_by-Permᴰ less ts ∣₁

put_by-All :
    (less : Less) (P : AgentTask → Type 0) (t : AgentTask) (ts : List AgentTask)
    → P t
    → All P ts
    → All P (put_by less t ts)
unfolding put_by
put_by-All less P t [] h k = (h, tt)
put_by-All less P t (u ∷ us) h k = elim (Bool-cases (less u t)) [
  | inl e ↦ rw e (k.0, put_by-All less P t us h k.1)
  | inr e ↦ rw e (h, k)
]

earlier_first : (t u : AgentTask) → created_before u t ≡ true → created_before t u ≡ false
earlier_first t u h = ground arith

no_earlier :
    (t u v : AgentTask)
    → created_before u t ≡ false
    → created_before v u ≡ false
    → created_before v t ≡ false
no_earlier t u v h k = ground arith

put_by-IsSortedBy :
    (t : AgentTask) (ts : List AgentTask)
    → IsSortedBy created_before ts
    → IsSortedBy created_before (put_by created_before t ts)
unfolding put_by
put_by-IsSortedBy t [] h = (tt, tt)
put_by-IsSortedBy t (u ∷ us) h = elim (Bool-cases (created_before u t)) [
  | inl e ↦ rw e (
    put_by-All created_before (λ v. created_before v u ≡ false) t us (earlier_first t u e) h.0,
    put_by-IsSortedBy t us h.1,
  )
  | inr e ↦ rw e ((e, All-map _ _ us (λ v k. no_earlier t u v e k) h.0), h)
]

pub sort_by-IsSortedBy :
    (ts : List AgentTask) → IsSortedBy created_before (sort_by created_before ts)
unfolding sort_by
sort_by-IsSortedBy [] = tt
sort_by-IsSortedBy (t ∷ ts) = put_by-IsSortedBy t _ (sort_by-IsSortedBy ts)

pub sort_by_sorted_pair :
    (t u : AgentTask)
    → created_before u t ≡ false
    → sort_by created_before (t ∷ u ∷ []) ≡ t ∷ u ∷ []
unfolding sort_by put_by
sort_by_sorted_pair t u h = rw h refl
