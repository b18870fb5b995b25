-- ===== src/Memory/Shapes.antt =====
-- Views of the shapes that Go's types have: plain values, structs, pointers that may be nil, and
-- arrays.
use kbrain.Prelude.{ℕ, List, [], ◌∷◌, ◌++◌, map, ◌≡◌, refl, ap, Option, none, some}
use kbrain.Memory.Heap.{Heap}
use kbrain.Memory.Views.{Agree, View}

pub Agree-left : {C : Type 0} (h g : Heap C) (xs ys : List ℕ) → Agree h g (xs ++ ys) → Agree h g xs
Agree-left h g [] ys a = tt
Agree-left h g (x ∷ xs) ys a = (a.0, Agree-left h g xs ys a.1)

pub Agree-right : {C : Type 0} (h g : Heap C) (xs ys : List ℕ) → Agree h g (xs ++ ys) → Agree h g ys
Agree-right h g [] ys a = a
Agree-right h g (x ∷ xs) ys a = Agree-right h g xs ys a.1

module _ {C : Type 0} where
  -- A value without pointers.
  abbrev pub plain_view : {V : Type 0} → View C V V
  plain_view = record {
    owns = λ h a. [];
    read = λ h a. a;
    same_cells = λ h g a e. refl;
    same_value = λ h g a e. refl;
  }

  pub pair-owns :
      {A B V W : Type 0} (v : View C A V) (w : View C B W) (h g : Heap C) (a : A) (b : B)
      → Agree h g (v.owns h a ++ w.owns h b)
      → v.owns g a ++ w.owns g b ≡ v.owns h a ++ w.owns h b
  pair-owns v w h g a b e = rw (
    v.same_cells h g a (Agree-left h g (v.owns h a) (w.owns h b) e),
    w.same_cells h g b (Agree-right h g (v.owns h a) (w.owns h b) e),
  )

  pub pair-read :
      {A B V W : Type 0} (v : View C A V) (w : View C B W) (h g : Heap C) (a : A) (b : B)
      → Agree h g (v.owns h a ++ w.owns h b)
      → ◌≡◌ {A = V × W} (v.read g a, w.read g b) (v.read h a, w.read h b)
  pair-read v w h g a b e = rw (
    v.same_value h g a (Agree-left h g (v.owns h a) (w.owns h b) e),
    w.same_value h g b (Agree-right h g (v.owns h a) (w.owns h b) e),
  )

  -- Two parts.
  abbrev pub pair_view : {A B V W : Type 0} → View C A V → View C B W → View C (A × B) (V × W)
  pair_view v w = record {
    owns = λ h p. v.owns h p.0 ++ w.owns h p.1;
    read = λ h p. (v.read h p.0, w.read h p.1);
    same_cells = λ h g p. pair-owns v w h g p.0 p.1;
    same_value = λ h g p. pair-read v w h g p.0 p.1;
  }

  -- A struct, by its fields that hold pointers, and what it stands for once those are read.
  abbrev pub struct_view : {A B V W : Type 0} → (A → B) → (A → V → W) → View C B V → View C A W
  struct_view fields build v = record {
    owns = λ h a. v.owns h (fields a);
    read = λ h a. build a (v.read h (fields a));
    same_cells = λ h g a e. v.same_cells h g (fields a) e;
    same_value = λ h g a e. ap (build a) (v.same_value h g (fields a) e);
  }

  abbrev pub owns_optional : {A V : Type 0} → View C A V → Heap C → Option A → List ℕ
  owns_optional v h none = []
  owns_optional v h (some a) = v.owns h a

  abbrev pub read_optional : {A V : Type 0} → View C A V → Heap C → Option A → Option V
  read_optional v h none = none
  read_optional v h (some a) = some (v.read h a)

  pub optional-owns :
      {A V : Type 0} (v : View C A V) (h g : Heap C) (o : Option A)
      → Agree h g (owns_optional v h o)
      → owns_optional v g o ≡ owns_optional v h o
  optional-owns v h g none e = refl
  optional-owns v h g (some a) e = v.same_cells h g a e

  pub optional-read :
      {A V : Type 0} (v : View C A V) (h g : Heap C) (o : Option A)
      → Agree h g (owns_optional v h o)
      → read_optional v g o ≡ read_optional v h o
  optional-read v h g none e = refl
  optional-read v h g (some a) e = ap some (v.same_value h g a e)

  -- What may be nil.
  abbrev pub optional_view : {A V : Type 0} → View C A V → View C (Option A) (Option V)
  optional_view v = record {
    owns = owns_optional v;
    read = read_optional v;
    same_cells = optional-owns v;
    same_value = optional-read v;
  }

  pub pointer-owns :
      {B V : Type 0} (get : C → B) (v : View C B V) (h g : Heap C) (p : ℕ)
      → Agree h g (p ∷ v.owns h (get (h.cell p)))
      → p ∷ v.owns g (get (g.cell p)) ≡ p ∷ v.owns h (get (h.cell p))
  pointer-owns get v h g p e = rw e.0 (ap (◌∷◌ p) (v.same_cells h g (get (h.cell p)) e.1))

  pub pointer-read :
      {B V : Type 0} (get : C → B) (v : View C B V) (h g : Heap C) (p : ℕ)
      → Agree h g (p ∷ v.owns h (get (h.cell p)))
      → v.read g (get (g.cell p)) ≡ v.read h (get (h.cell p))
  pointer-read get v h g p e = rw e.0 (v.same_value h g (get (h.cell p)) e.1)

  -- A pointer to a cell, which holds an object.
  abbrev pub pointer_view : {B V : Type 0} → (C → B) → View C B V → View C ℕ V
  pointer_view get v = record {
    owns = λ h p. p ∷ v.owns h (get (h.cell p));
    read = λ h p. v.read h (get (h.cell p));
    same_cells = pointer-owns get v;
    same_value = pointer-read get v;
  }

  abbrev pub owns_elements : {A V : Type 0} → View C A V → Heap C → List A → List ℕ
  owns_elements v h [] = []
  owns_elements v h (a ∷ l) = v.owns h a ++ owns_elements v h l

  pub elements-owns :
      {A V : Type 0} (v : View C A V) (h g : Heap C) (l : List A)
      → Agree h g (owns_elements v h l)
      → owns_elements v g l ≡ owns_elements v h l
  elements-owns v h g [] e = refl
  elements-owns v h g (a ∷ l) e = rw (
    v.same_cells h g a (Agree-left h g (v.owns h a) (owns_elements v h l) e),
    elements-owns v h g l (Agree-right h g (v.owns h a) (owns_elements v h l) e),
  )

  pub elements-read :
      {A V : Type 0} (v : View C A V) (h g : Heap C) (l : List A)
      → Agree h g (owns_elements v h l)
      → map (v.read g) l ≡ map (v.read h) l
  elements-read v h g [] e = refl
  elements-read v h g (a ∷ l) e = rw (
    v.same_value h g a (Agree-left h g (v.owns h a) (owns_elements v h l) e),
    elements-read v h g l (Agree-right h g (v.owns h a) (owns_elements v h l) e),
  )

  -- The elements of an array.
  abbrev pub elements_view : {A V : Type 0} → View C A V → View C (List A) (List V)
  elements_view v = record {
    owns = owns_elements v;
    read = λ h l. map (v.read h) l;
    same_cells = elements-owns v;
    same_value = elements-read v;
  }
