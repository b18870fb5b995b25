-- ===== src/System/Unique.antt =====
-- Lists of tasks with increasing times of creation are determined by their elements.
use mathlib.Core.List.{Permᴰ, Memᴰ}
use kbrain.Prelude.{
  ℕ, zero, suc, ◌<◌, min, List, [], ◌∷◌, ◌≡◌, refl, sym, ap, ◌∙◌, subst, take, All, arith, length,
}
use kbrain.Prelude.Sorted.{IsIncreasing}
use kbrain.Api.{AgentTask}
use kbrain.System.Order.{times}

pub All-Memᴰ :
    (ts us : List AgentTask) → ((t : AgentTask) → Memᴰ t ts → Memᴰ t us) → All (λ t. Memᴰ t us) ts
All-Memᴰ [] us f = tt
All-Memᴰ (t ∷ ts) us f = (f t (Memᴰ.head refl), All-Memᴰ ts us (λ x m. f x (Memᴰ.tail m)))

pub take-min : (k : ℕ) (ts : List AgentTask) → take (min k (length ts)) ts ≡ take k ts
take-min zero ts = let e : min 0 (length ts) ≡ 0 = omega arith in rw e refl
take-min (suc k) [] = let e : min (suc k) 0 ≡ 0 = omega arith in rw e refl
take-min (suc k) (t ∷ ts) =
    let e : min (suc k) (suc (length ts)) ≡ suc (min k (length ts)) = omega arith in
    rw e (ap (◌∷◌ t) (take-min k ts))

pub Permᴰ-Memᴰ : {ts us : List AgentTask} → Permᴰ ts us → (t : AgentTask) → Memᴰ t ts → Memᴰ t us
Permᴰ-Memᴰ Permᴰ.nil t m = m
Permᴰ-Memᴰ (Permᴰ.cons e p) t (Memᴰ.head h) = Memᴰ.head (h ∙ e)
Permᴰ-Memᴰ (Permᴰ.cons e p) t (Memᴰ.tail m) = Memᴰ.tail (Permᴰ-Memᴰ p t m)
Permᴰ-Memᴰ (Permᴰ.swap e f) t (Memᴰ.head h) = Memᴰ.tail (Memᴰ.head (h ∙ e))
Permᴰ-Memᴰ (Permᴰ.swap e f) t (Memᴰ.tail (Memᴰ.head h)) = Memᴰ.head (h ∙ f)
Permᴰ-Memᴰ (Permᴰ.swap e f) t (Memᴰ.tail (Memᴰ.tail m)) = Memᴰ.tail (Memᴰ.tail m)
Permᴰ-Memᴰ (Permᴰ.trans p q) t m = Permᴰ-Memᴰ q t (Permᴰ-Memᴰ p t m)

-- A task of a list that is later than all of another is not in it.
later-absent :
    (t : AgentTask) (ts : List AgentTask)
    → All (λ m. t.creation_timestamp < m) (times ts)
    → ¬ Memᴰ t ts
later-absent t [] a m = elim m [ ]
later-absent t (u ∷ ts) a (Memᴰ.head e) =
    let c : t.creation_timestamp ≡ u.creation_timestamp = ap (λ x. x.creation_timestamp) e in
    omega (arith, a.0, c)
later-absent t (u ∷ ts) a (Memᴰ.tail m) = later-absent t ts a.1 m

head_unique :
    (t u : AgentTask) (us : List AgentTask)
    → t.creation_timestamp ≡ u.creation_timestamp
    → All (λ m. u.creation_timestamp < m) (times us)
    → Memᴰ t (u ∷ us)
    → t ≡ u
head_unique t u us e a (Memᴰ.head h) = h
head_unique t u us e a (Memᴰ.tail m) = absurd (later-absent t us (rw e a) m)

-- A list whose tasks are all in another, with the same increasing times, is that one.
pub increasing_unique :
    (ts us : List AgentTask)
    → ((t : AgentTask) → Memᴰ t ts → Memᴰ t us)
    → times ts ≡ times us
    → IsIncreasing (times us)
    → ts ≡ us
increasing_unique [] [] f e i = refl
increasing_unique [] (u ∷ us) f e i = cc e
increasing_unique (t ∷ ts) [] f e i = cc e
increasing_unique (t ∷ ts) (u ∷ us) f e i =
    ap (◌∷◌ t) (increasing_unique ts us inside same_tail i.1) ∙ ap (λ x. x ∷ us) same_head
  where
    same_tail : times ts ≡ times us
    same_tail = cc e

    same_time : t.creation_timestamp ≡ u.creation_timestamp
    same_time = cc e

    same_head : t ≡ u
    same_head = head_unique t u us same_time i.0 (f t (Memᴰ.head refl))

    above : All (λ m. t.creation_timestamp < m) (times ts)
    above = rw (same_tail, same_time) i.0

    inside : (x : AgentTask) → Memᴰ x ts → Memᴰ x us
    inside x m = elim (f x (Memᴰ.tail m)) [
      | Memᴰ.head h ↦
          absurd (later-absent t ts above (subst (λ y. Memᴰ y ts) (h ∙ sym same_head) m))
      | Memᴰ.tail r ↦ r
    ]
