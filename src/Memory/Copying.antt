-- ===== src/Memory/Copying.antt =====
-- The steps that the generated functions are made of.
pub mod Laws
use kbrain.Prelude.{ℕ, Option, none, some, List, [], ◌∷◌}
use kbrain.Memory.Heap.{Mem, pure, ◌>>=◌, ◌>>◌, new, load, store}

module _ {C : Type 0} where
  -- `if in.F != nil { … }`: `*out = *in` has copied a nil already.
  unfoldable pub copy_if_set : {A : Type 0} → (A → Mem C A) → Option A → Mem C (Option A)
  copy_if_set copy none = pure none
  copy_if_set copy (some a) = do b ← copy a; pure (some b)

  -- `*out = new(T); **out = **in`, and `*out = make([]T, len(*in)); copy(*out, *in)`.
  unfoldable pub copy_cell : ℕ → Mem C ℕ
  unfolding load new
  copy_cell p = do c ← load p; new c

  -- `*out = new(T); (*in).DeepCopyInto(*out)`. What DeepCopyInto makes of the new object is written
  -- into its cell at the end; nothing reads the cell before.
  unfoldable pub deep_copy_cell : {B : Type 0} → (C → B) → (B → C) → (B → Mem C B) → ℕ → Mem C ℕ
  unfolding load new store
  deep_copy_cell get put deep_copy_into p = do
    c ← load p
    q ← new c
    b ← deep_copy_into (get c)
    store q (put b)
    pure q

  -- `for i := range *in { (*in)[i].DeepCopyInto(&(*out)[i]) }`.
  unfoldable pub copy_elements : {B : Type 0} → (B → Mem C B) → List B → Mem C (List B)
  copy_elements deep_copy_into [] = pure []
  copy_elements deep_copy_into (b ∷ l) = do
    x ← deep_copy_into b
    xs ← copy_elements deep_copy_into l
    pure (x ∷ xs)

  -- Two fields, one after the other.
  abbrev pub copy_both : {A B : Type 0} → (A → Mem C A) → (B → Mem C B) → A × B → Mem C (A × B)
  copy_both f g (a, b) = do x ← f a; y ← g b; pure (x, y)
