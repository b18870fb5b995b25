-- ===== src/Memory/Copying/Laws.antt =====
-- Each of the steps makes a deep copy, where the steps that it is given do.
use kbrain.Prelude.{
  ℕ, suc, ◌≤◌, ◌<◌, List, [], ◌∷◌, ◌++◌, ◌≡◌, refl, ap, All, All-append, All-map, arith, none, some,
  ◌∙◌,
}
use kbrain.Memory.Heap.{Heap, Mem, new, store, update}
use kbrain.Memory.Views.{
  Agree, Agree-Extends, View, Extends, Used, Copied, IsDeepCopy, Extends-refl, Copied-later,
  Copied-earlier, Used-later,
}
use kbrain.Memory.Shapes.{
  plain_view, pair_view, struct_view, optional_view, pointer_view, elements_view, owns_elements,
}
use kbrain.Memory.Copying.{copy_if_set, copy_cell, deep_copy_cell, copy_elements, copy_both}

Used-left : {C : Type 0} (h : Heap C) (xs ys : List ℕ) → Used h (xs ++ ys) → Used h xs
Used-left h [] ys u = tt
Used-left h (x ∷ xs) ys u = (u.0, Used-left h xs ys u.1)

Used-right : {C : Type 0} (h : Heap C) (xs ys : List ℕ) → Used h (xs ++ ys) → Used h ys
Used-right h [] ys u = u
Used-right h (x ∷ xs) ys u = Used-right h xs ys u.1

module _ {C : Type 0} where
  pub plain-IsDeepCopy : {V : Type 0} → IsDeepCopy (plain_view {C = C} {V = V}) (λ v h. (v, h))
  plain-IsDeepCopy a h u = record { extends = Extends-refl h; same = refl; fresh = tt }

  -- Copies of two parts, the second made after the first, are a copy of both.
  pair-Copied :
      {A B V W : Type 0} (v : View C A V) (w : View C B W) (a x : A) (b y : B) (h g k : Heap C)
      → Used h (w.owns h b)
      → Copied v a h x g
      → Copied w b g y k
      → Copied (pair_view v w) (a, b) h (x, y) k
  pair-Copied v w a x b y h g k u c d =
      let e = Copied-later v a h x g k c d.extends in
      let f = Copied-earlier w b h g y k u c.extends d in
      record {
        extends = e.extends;
        same = rw (e.same, f.same);
        fresh = All-append _ (v.owns k x) (w.owns k y) e.fresh f.fresh;
      }

  pub copy_both-IsDeepCopy :
      {A B V W : Type 0} (v : View C A V) (w : View C B W) (f : A → Mem C A) (g : B → Mem C B)
      → IsDeepCopy v f
      → IsDeepCopy w g
      → IsDeepCopy (pair_view v w) (copy_both f g)
  copy_both-IsDeepCopy v w f g df dg (a, b) h u =
      let c = df a h (Used-left h (v.owns h a) (w.owns h b) u) in
      let ub = Used-right h (v.owns h a) (w.owns h b) u in
      pair-Copied v w a (f a h).0 b (g b (f a h).1).0 h (f a h).1 (g b (f a h).1).1 ub c
        (dg b (f a h).1 (Used-later w b h (f a h).1 ub c.extends))

  pub copy_if_set-IsDeepCopy :
      {A V : Type 0} (v : View C A V) (f : A → Mem C A)
      → IsDeepCopy v f
      → IsDeepCopy (optional_view v) (copy_if_set f)
  unfolding copy_if_set
  copy_if_set-IsDeepCopy v f d none h u = record {
    extends = Extends-refl h;
    same = refl;
    fresh = tt;
  }
  copy_if_set-IsDeepCopy v f d (some a) h u =
      let c = d a h u in record { extends = c.extends; same = ap some c.same; fresh = c.fresh }

  pub copy_elements-IsDeepCopy :
      {A V : Type 0} (v : View C A V) (f : A → Mem C A)
      → IsDeepCopy v f
      → IsDeepCopy (elements_view v) (copy_elements f)
  unfolding copy_elements
  copy_elements-IsDeepCopy v f d [] h u = record {
    extends = Extends-refl h;
    same = refl;
    fresh = tt;
  }
  copy_elements-IsDeepCopy v f d (a ∷ l) h u =
      let ul = Used-right h (v.owns h a) (owns_elements v h l) u in
      let g = (f a h).1 in
      let first = d a h (Used-left h (v.owns h a) (owns_elements v h l) u) in
      let rest =
        copy_elements-IsDeepCopy v f d l g (Used-later (elements_view v) l h g ul first.extends) in
      let c =
        pair-Copied v (elements_view v) a (f a h).0 l (copy_elements f l g).0 h g
          (copy_elements f l g).1 ul first rest in
      record { extends = c.extends; same = ap (λ p. p.0 ∷ p.1) c.same; fresh = c.fresh }

  Extends-new : (c : C) (h : Heap C) → Extends h (new c h).1
  unfolding new
  Extends-new c h = record { grown = omega arith; kept = λ x l. ground arith }

  -- A cell without pointers is copied as it is.
  pub copy_cell-IsDeepCopy :
      {V : Type 0} (get : C → V) → IsDeepCopy (pointer_view get plain_view) copy_cell
  unfolding copy_cell
  copy_cell-IsDeepCopy get p h u = record {
    extends = Extends-new (h.cell p) h;
    same = ap get (ground arith);
    fresh = (omega arith, tt);
  }

  update-hit : (f : ℕ → C) (p : ℕ) (c : C) → update f p c p ≡ c
  update-hit f p c = ground arith

  -- A write to a cell that was free before an object was made leaves the object.
  Agree-store :
      (g : Heap C) (p : ℕ) (c : C) (xs : List ℕ)
      → All (λ x. (suc p ≤ x) × (x < g.next)) xs
      → Agree g (store p c g).1 xs
  unfolding store
  Agree-store g p c xs f = All-map _ _ xs (λ x l. ground arith) f

  -- The new cell takes nothing from the object that is copied into it.
  deep_copy_cell-Copied :
      {B V : Type 0} (v : View C B V) (get : C → B) (put : B → C) (p : ℕ) (h : Heap C) (b : B)
      (g : Heap C)
      → ((x : B) → get (put x) ≡ x)
      → Copied v (get (h.cell p)) (new (h.cell p) h).1 b g
      → Used h (v.owns h (get (h.cell p)))
      → Copied (pointer_view get v) p h h.next (store h.next (put b) g).1
  unfolding new store
  deep_copy_cell-Copied v get put p h b g e c u =
      let k = (store h.next (put b) g).1 in
      let hit = ap get (update-hit g.cell h.next (put b)) ∙ e b in
      let agree = Agree-store g h.next (put b) (v.owns g b) c.fresh in
      let before = v.same_value h (new (h.cell p) h).1 (get (h.cell p)) (
        Agree-Extends h (new (h.cell p) h).1 (v.owns h (get (h.cell p))) (Extends-new (h.cell p) h)
          u) in
      record {
        extends = record {
          grown = omega (arith, c.extends.grown);
          kept = λ x l. ground (arith, c.extends.kept x);
        };
        same = ap (v.read k) hit ∙ v.same_value g k b agree ∙ c.same ∙ before;
        fresh = (
          omega (arith, c.extends.grown),
          rw (hit, v.same_cells g k b agree)
              (All-map _ _ (v.owns g b) (λ x l. (omega (arith, l.0), l.1)) c.fresh),
        );
      }

  pub deep_copy_cell-IsDeepCopy :
      {B V : Type 0} (v : View C B V) (get : C → B) (put : B → C) (f : B → Mem C B)
      → ((x : B) → get (put x) ≡ x)
      → IsDeepCopy v f
      → IsDeepCopy (pointer_view get v) (deep_copy_cell get put f)
  unfolding deep_copy_cell
  deep_copy_cell-IsDeepCopy v get put f e d p h u =
      let g = (new (h.cell p) h).1 in
      let b = get (h.cell p) in
      deep_copy_cell-Copied v get put p h (f b g).0 (f b g).1 e
        (d b g (Used-later v b h g u.1 (Extends-new (h.cell p) h))) u.1

  -- A pointer to an object that is copied by a function of its own.
  pub pointer-IsDeepCopy :
      {B V : Type 0} (v : View C B V) (get : C → B) (put : B → C) (f : B → Mem C B)
      → ((x : B) → get (put x) ≡ x)
      → IsDeepCopy v f
      → IsDeepCopy (optional_view (pointer_view get v)) (copy_if_set (deep_copy_cell get put f))
  pointer-IsDeepCopy v get put f e d =
      copy_if_set-IsDeepCopy _ _ (deep_copy_cell-IsDeepCopy v get put f e d)

  -- A struct whose fields are copied.
  pub struct-IsDeepCopy :
      {A B V W : Type 0} (fields : A → B) (build : A → V → W) (put : A → B → A) (v : View C B V)
      (f : B → Mem C B)
      → ((a : A) (b : B) → fields (put a b) ≡ b)
      → ((a : A) (b : B) (x : V) → build (put a b) x ≡ build a x)
      → IsDeepCopy v f
      → IsDeepCopy
          (struct_view fields build v)
          (λ a h. (put a (f (fields a) h).0, (f (fields a) h).1))
  struct-IsDeepCopy fields build put v f e k d a h u =
      let c = d (fields a) h u in
      record { extends = c.extends; same = rw (e, k) (ap (build a) c.same); fresh = rw e c.fresh }
