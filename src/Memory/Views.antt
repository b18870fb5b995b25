-- ===== src/Memory/Views.antt =====
-- What an object in memory stands for, the cells that it is made of, and what a deep copy of it is.
use kbrain.Prelude.{ℕ, ◌≤◌, ◌<◌, List, ◌≡◌, refl, All, All-map, arith, ◌∙◌}
use kbrain.Memory.Heap.{Heap, Mem}

-- The heaps agree at the addresses.
abbrev pub Agree : {C : Type 0} → Heap C → Heap C → List ℕ → Type 0
Agree h g xs = All (λ x. g.cell x ≡ h.cell x) xs

-- A view reads nothing but the cells that the object is made of.
pub record View (C A V : Type 0) : Type 0 where
  pub owns : Heap C → A → List ℕ
  pub read : Heap C → A → V
  pub same_cells : (h g : Heap C) (a : A) → Agree h g (owns h a) → owns g a ≡ owns h a
  pub same_value : (h g : Heap C) (a : A) → Agree h g (owns h a) → read g a ≡ read h a

-- The heap has grown, and what was in use is as it was.
pub record Extends {C : Type 0} (h g : Heap C) : Type 0 where
  pub grown : h.next ≤ g.next
  pub kept : (x : ℕ) → x < h.next → g.cell x ≡ h.cell x

-- All cells are in use.
abbrev pub Used : {C : Type 0} → Heap C → List ℕ → Type 0
Used h xs = All (λ x. x < h.next) xs

-- The object b in the heap g is a copy of a in h: it stands for the same, all of its cells are new,
-- and the cells that were in use are as they were.
pub record Copied {C A V : Type 0} (w : View C A V) (a : A) (h : Heap C) (b : A) (g : Heap C)
    : Type 0 where
  pub extends : Extends h g
  pub same : w.read g b ≡ w.read h a
  pub fresh : All (λ x. (h.next ≤ x) × (x < g.next)) (w.owns g b)

-- The operation copies every object that is made of cells in use.
abbrev pub IsDeepCopy : {C A V : Type 0} → View C A V → (A → Mem C A) → Type 0
IsDeepCopy {A = A} w copy =
    (a : A) (h : Heap _) → Used h (w.owns h a) → Copied w a h (copy a h).0 (copy a h).1

module _ {C : Type 0} where
  pub Extends-refl : (h : Heap C) → Extends h h
  Extends-refl h = record { grown = omega arith; kept = λ x l. refl }

  pub Extends-trans : (h g k : Heap C) → Extends h g → Extends g k → Extends h k
  Extends-trans h g k e f = record {
    grown = omega (arith, e.grown, f.grown);
    kept = λ x l. f.kept x (omega (arith, e.grown)) ∙ e.kept x l;
  }

  -- Cells in use stay in use, and what they hold stays.
  pub Used-Extends : (h g : Heap C) (xs : List ℕ) → Extends h g → Used h xs → Used g xs
  Used-Extends h g xs e u = All-map _ _ xs (λ x l. omega (arith, l, e.grown)) u

  pub Agree-Extends : (h g : Heap C) (xs : List ℕ) → Extends h g → Used h xs → Agree h g xs
  Agree-Extends h g xs e u = All-map _ _ xs (λ x l. e.kept x l) u

module _ {C A V : Type 0} (w : View C A V) where
  -- The cells of a copy are in use.
  pub Used-copy : (a : A) (h : Heap C) (b : A) (g : Heap C) → Copied w a h b g → Used g (w.owns g b)
  Used-copy a h b g c = All-map _ _ (w.owns g b) (λ x l. l.1) c.fresh

  -- A copy stays one while the heap grows.
  pub Copied-later :
      (a : A) (h : Heap C) (b : A) (g k : Heap C)
      → Copied w a h b g
      → Extends g k
      → Copied w a h b k
  Copied-later a h b g k c e =
      let agree = Agree-Extends g k (w.owns g b) e (Used-copy a h b g c) in
      record {
        extends = Extends-trans h g k c.extends e;
        same = w.same_value g k b agree ∙ c.same;
        fresh =
            rw (w.same_cells g k b agree)
              (All-map _ _ (w.owns g b) (λ x l. (l.0, omega (arith, l.1, e.grown))) c.fresh);
      }

  -- A copy that is made after the heap has grown is one of the object as it was.
  pub Copied-earlier :
      (a : A) (h g : Heap C) (b : A) (k : Heap C)
      → Used h (w.owns h a)
      → Extends h g
      → Copied w a g b k
      → Copied w a h b k
  Copied-earlier a h g b k u e c = record {
    extends = Extends-trans h g k e c.extends;
    same = c.same ∙ w.same_value h g a (Agree-Extends h g (w.owns h a) e u);
    fresh = All-map _ _ (w.owns k b) (λ x l. (omega (arith, l.0, e.grown), l.1)) c.fresh;
  }

  -- What may be copied now may be copied after the heap has grown.
  pub Used-later : (a : A) (h g : Heap C) → Used h (w.owns h a) → Extends h g → Used g (w.owns g a)
  Used-later a h g u e =
      rw (w.same_cells h g a (Agree-Extends h g (w.owns h a) e u))
        (Used-Extends h g (w.owns h a) e u)

  -- So the operation may also run later.
  pub IsDeepCopy-later :
      (copy : A → Mem C A) (a : A) (h g : Heap C)
      → IsDeepCopy w copy
      → Used h (w.owns h a)
      → Extends h g
      → Copied w a h (copy a g).0 (copy a g).1
  IsDeepCopy-later copy a h g d u e =
      Copied-earlier a h g (copy a g).0 (copy a g).1 u e (d a g (Used-later a h g u e))
