-- ===== src/Prelude/Sorted.antt =====
-- A sorted rearrangement of a strictly increasing list of numbers is that list.
use Prim.Native.Nat.{ℕ, ◌≤◌, ◌<◌}
use mathlib.Core.Path.{◌≡◌, refl, ap, subst, ◌∙◌}
use mathlib.Core.Logic.{∥∥₁_elim}
use mathlib.Core.List.{List, [], ◌∷◌, Mem, Memᴰ, mem-cons_self}
use mathlib.Core.List.Perm
use mathlib.Core.List.{Perm}
use native.Mathlib.Bridge.{le_prop}
use native.Mathlib.Omega.{arith}
use kbrain.Prelude.Lists.{All}
use kbrain.Prelude.Perms.{perm-length}

abbrev pub IsSortedℕ : List ℕ → Type 0
IsSortedℕ [] = Unit
IsSortedℕ (n ∷ ns) = All (λ m. n ≤ m) ns × IsSortedℕ ns

abbrev pub IsIncreasing : List ℕ → Type 0
IsIncreasing [] = Unit
IsIncreasing (n ∷ ns) = All (λ m. n < m) ns × IsIncreasing ns

All-le_of_mem : (n m : ℕ) (ns : List ℕ) → All (λ k. n ≤ k) ns → Memᴰ m ns → n ≤ m
All-le_of_mem n m [] h r = elim r [ ]
All-le_of_mem n m (k ∷ ns) h (Memᴰ.head e) = ground (arith, h.0)
All-le_of_mem n m (k ∷ ns) h (Memᴰ.tail r) = All-le_of_mem n m ns h.1 r

All-lt_le : (n : ℕ) (ns : List ℕ) → All (λ k. n < k) ns → All (λ k. n ≤ k) ns
All-lt_le n [] h = tt
All-lt_le n (k ∷ ns) h = (omega (arith, h.0), All-lt_le n ns h.1)

least : (n m : ℕ) (ns : List ℕ) → All (λ k. n ≤ k) ns → Mem m (n ∷ ns) → n ≤ m
least n m ns h r = ∥∥₁_elim r le_prop (λ d. All-le_of_mem n m (n ∷ ns) (omega arith, h) d)

-- The order is unique.
pub sorted_unique : (ns ms : List ℕ) → IsSortedℕ ns → IsIncreasing ms → Perm ns ms → ns ≡ ms
sorted_unique [] [] h k p = refl
sorted_unique [] (m ∷ ms) h k p = absurd (omega (arith, perm-length p))
sorted_unique (n ∷ ns) [] h k p = absurd (omega (arith, perm-length p))
sorted_unique (n ∷ ns) (m ∷ ms) h k p =
    let below : n ≤ m = least n m ns h.0 (Perm.subset (Perm.symm p) m mem-cons_self) in
    let above : m ≤ n = least m n ms (All-lt_le m ms k.0) (Perm.subset p n mem-cons_self) in
    let e : n ≡ m = omega (arith, below, above) in
    let p' : Perm (m ∷ ns) (m ∷ ms) = subst (λ j. Perm (j ∷ ns) (m ∷ ms)) e p in
    ap (◌∷◌ n) (sorted_unique ns ms h.1 k.1 (Perm.cons_inv p')) ∙ ap (λ j. j ∷ ms) e
