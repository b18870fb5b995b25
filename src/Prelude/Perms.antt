-- ===== src/Prelude/Perms.antt =====
-- Rearrangements of a list, measured by the native numbers.
use Prim.Native.Nat.{suc}
use mathlib.Core.Path.{◌≡◌, refl, ap, ◌∙◌}
use mathlib.Core.List.{List, Perm, Permᴰ}
use mathlib.Core.Logic.{∥∥₁_elim}
use native.Mathlib.Nat.{ℕ_set}
use kbrain.Prelude.Lists.{length}

module _ {ℓ} {A : Type ℓ} where
  perm-length-data : {xs ys : List A} → Permᴰ xs ys → length xs ≡ length ys
  perm-length-data Permᴰ.nil = refl
  perm-length-data (Permᴰ.cons e p) = ap suc (perm-length-data p)
  perm-length-data (Permᴰ.swap {l = l} e f) = refl
  perm-length-data (Permᴰ.trans p q) = perm-length-data p ∙ perm-length-data q

  pub perm-length : {xs ys : List A} → Perm xs ys → length xs ≡ length ys
  perm-length p = ∥∥₁_elim p (ℕ_set _ _) perm-length-data
