-- ===== src/Memory/Independence.antt =====
-- DeepCopyObject, and why what is done to a copy is not seen through the original.
use kbrain.Prelude.{
  ℕ, ◌≤◌, ◌<◌, List, [], ◌∷◌, ◌≡◌, ◌≢◌, ◌⊎◌, inl, inr, ◌↔◌, refl, sym, ◌∙◌, All, All-map, arith,
  subst, Option, none, some,
}
use mathlib.Core.List.{Memᴰ}
use kbrain.Memory.Heap.{Heap, Mem, store}
use kbrain.Memory.Views.{Agree, Agree-Extends, View, Used, Copied, IsDeepCopy}
use kbrain.Memory.Shapes.{read_optional}
use kbrain.Memory.Objects.{LibKind, LibValue, Pointer, Cell}
use kbrain.Memory.DeepCopy.{
  Root, task_root, pool_root, task_list_root, pool_list_root, RuntimeObject, nil, typed, as_object,
  deep_copy_object, deep_copy_object_task, deep_copy_object_pool, deep_copy_object_task_list,
  deep_copy_object_pool_list,
}
use kbrain.Memory.Structs.{
  Struct, a_task, a_pool, a_task_list, a_pool_list, object_view, view_of, deep_copy,
  deep_copy-IsDeepCopy,
}

module _ {C : Type 0} where
  -- Writes, one after the other.
  abbrev pub store_all : List (ℕ × C) → Heap C → Heap C
  store_all [] h = h
  store_all (w ∷ ws) h = store_all ws (store w.0 w.1 h).1

  -- Each write is to one of the cells or to one that was not in use.
  abbrev pub Through : Heap C → List ℕ → List (ℕ × C) → Type 0
  Through h xs ws = All (λ w. Memᴰ w.0 xs ⊎ (h.next ≤ w.0)) ws

  Agree-store :
      (h g : Heap C) (w : ℕ × C) (xs : List ℕ)
      → All (λ x. w.0 ≢ x) xs
      → Agree h g xs
      → Agree h (store w.0 w.1 g).1 xs
  unfolding store
  Agree-store h g w [] d a = tt
  Agree-store h g w (x ∷ xs) d a = (ground (arith, d.0, a.0), Agree-store h g w xs d.1 a.1)

  -- Writes to other cells leave an object.
  Agree-store_all :
      (h g : Heap C) (ws : List (ℕ × C)) (xs : List ℕ)
      → All (λ w. All (λ x. w.0 ≢ x) xs) ws
      → Agree h g xs
      → Agree h (store_all ws g) xs
  Agree-store_all h g [] xs d a = a
  Agree-store_all h g (w ∷ ws) xs d a =
      Agree-store_all h (store w.0 w.1 g).1 ws xs d.1 (Agree-store h g w xs d.0 a)

All-of_mem : (P : ℕ → Type 0) (x : ℕ) (xs : List ℕ) → All P xs → Memᴰ x xs → P x
All-of_mem P x [] a m = elim m [ ]
All-of_mem P x (y ∷ ys) a (Memᴰ.head e) = subst P (sym e) a.0
All-of_mem P x (y ∷ ys) a (Memᴰ.tail m) = All-of_mem P x ys a.1 m

Agree-refl : {C : Type 0} (h : Heap C) (xs : List ℕ) → Agree h h xs
Agree-refl h [] = tt
Agree-refl h (x ∷ xs) = (refl, Agree-refl h xs)

module _ {C A V : Type 0} (v : View C A V) (a : A) (h : Heap C) (b : A) (g : Heap C)
    (used : Used h (v.owns h a)) (copied : Copied v a h b g) where
  -- A write through the copy is to a cell that is new since the copying began.
  write-IsNew : (x : ℕ) → Memᴰ x (v.owns g b) ⊎ (g.next ≤ x) → h.next ≤ x
  write-IsNew x (inl m) = (All-of_mem _ x (v.owns g b) copied.fresh m).0
  write-IsNew x (inr l) = omega (arith, l, copied.extends.grown)

  used_now : All (λ x. x < h.next) (v.owns g a)
  used_now = rw (v.same_cells h g a (Agree-Extends h g (v.owns h a) copied.extends used)) used

  -- A write through the original is to a cell that is older, or newer, than those of the copy.
  write-IsApart : (x : ℕ) → Memᴰ x (v.owns g a) ⊎ (g.next ≤ x) → (x < h.next) ⊎ (g.next ≤ x)
  write-IsApart x (inl m) = inl (All-of_mem _ x (v.owns g a) used_now m)
  write-IsApart x (inr l) = inr l

  pub read-original :
      (ws : List (ℕ × C)) → Through g (v.owns g b) ws → v.read (store_all ws g) a ≡ v.read h a
  read-original ws t = v.same_value h (store_all ws g) a (
      Agree-store_all h g ws (v.owns h a)
        (All-map _ _ ws
          (λ w m.
            let l = write-IsNew w.0 m in
            All-map _ _ (v.owns h a) (λ x k e. ground (arith, l, k, e)) used)
          t)
        (Agree-Extends h g (v.owns h a) copied.extends used))

  pub read-copy :
      (ws : List (ℕ × C)) → Through g (v.owns g a) ws → v.read (store_all ws g) b ≡ v.read h a
  read-copy ws t =
      v.same_value g (store_all ws g) b (
        Agree-store_all g g ws (v.owns g b)
          (All-map _ _ ws
            (λ w m.
              let l = write-IsApart w.0 m in
              All-map _ _ (v.owns g b) (λ x k e. ground (arith, l, k.0, k.1, e)) copied.fresh)
            t)
          (Agree-refl g (v.owns g b)))
      ∙ copied.same

read_optional-nil :
    {C A V : Type 0} (v : View C A V) (h g : Heap C) (p q : Option A)
    → read_optional v g q ≡ read_optional v h p
    → (q ≡ none) ↔ (p ≡ none)
read_optional-nil v h g none none e = (λ k. refl, λ k. refl)
read_optional-nil v h g none (some b) e = (λ k. refl, λ k. cc e)
read_optional-nil v h g (some a) none e = (λ k. cc e, λ k. refl)
read_optional-nil v h g (some a) (some b) e = (λ k. cc k, λ k. cc k)

-- The pointer in an interface value; nil where it holds none.
abbrev pub pointer_of : RuntimeObject → Pointer
pointer_of nil = none
pointer_of (typed r p) = p

abbrev pub struct_of : Root → Struct
struct_of task_root = a_task
struct_of pool_root = a_pool
struct_of task_list_root = a_task_list
struct_of pool_list_root = a_pool_list

as_object-pointer : (r : Root) (p : Pointer) → pointer_of (as_object r p) ≡ p
unfolding as_object
as_object-pointer r none = refl
as_object-pointer r (some p) = refl

module _ (Lib : LibKind → Type 0) (Raw : Type 0) (zero : (k : LibKind) → Lib k)
    (lib_view : (k : LibKind) → View (Cell Lib Raw) (Lib k) (LibValue k))
    (deep_copy_lib : (k : LibKind) → Lib k → Mem (Cell Lib Raw) (Lib k))
    (lib_copies : (k : LibKind) → IsDeepCopy (lib_view k) (deep_copy_lib k)) where
  -- DeepCopyObject is DeepCopy, with its result as an interface value.
  deep_copy_object-struct :
      (r : Root) (p : Pointer) (h : Heap (Cell Lib Raw))
      → ◌≡◌ {A = RuntimeObject × Heap (Cell Lib Raw)}
          (deep_copy_object Lib Raw zero deep_copy_lib r p h)
          (
            as_object r (deep_copy Lib Raw zero lib_view deep_copy_lib (struct_of r) p h).0,
            (deep_copy Lib Raw zero lib_view deep_copy_lib (struct_of r) p h).1,
          )
  unfolding deep_copy_object deep_copy_object_task deep_copy_object_pool deep_copy_object_task_list
      deep_copy_object_pool_list
  deep_copy_object-struct task_root p h = refl
  deep_copy_object-struct pool_root p h = refl
  deep_copy_object-struct task_list_root p h = refl
  deep_copy_object-struct pool_list_root p h = refl

  as_object-nil : (r : Root) (p : Pointer) → (as_object r p ≡ nil) ↔ (p ≡ none)
  unfolding as_object
  as_object-nil r none = (λ e. refl, λ e. refl)
  as_object-nil r (some p) = (λ e. cc (e), λ e. cc (e))

  -- The copy is nil exactly for nil.
  deep_copy-nil :
      (s : Struct) (p q : Pointer) (h g : Heap (Cell Lib Raw))
      → Copied (view_of Lib Raw zero lib_view s) p h q g
      → (q ≡ none) ↔ (p ≡ none)
  deep_copy-nil s p q h g c = read_optional-nil (object_view Lib Raw zero lib_view s) h g p q c.same

  -- The object in the interface value is a copy, and there is none only for nil.
  deep_copy_object-Copied :
      (r : Root) (p : Pointer) (h : Heap (Cell Lib Raw))
      → Used h ((view_of Lib Raw zero lib_view (struct_of r)).owns h p)
      → ((deep_copy_object Lib Raw zero deep_copy_lib r p h).0 ≡ nil ↔ p ≡ none)
        × Copied
            (view_of Lib Raw zero lib_view (struct_of r))
            p
            h
            (pointer_of (deep_copy_object Lib Raw zero deep_copy_lib r p h).0)
            (deep_copy_object Lib Raw zero deep_copy_lib r p h).1
  deep_copy_object-Copied r p h u =
      let c =
        deep_copy-IsDeepCopy Lib Raw zero lib_view deep_copy_lib lib_copies (struct_of r) p h u in
      let d = deep_copy Lib Raw zero lib_view deep_copy_lib (struct_of r) p h in
      let n = deep_copy-nil (struct_of r) p d.0 h d.1 c in
      let m = as_object-nil r d.0 in
      rw (deep_copy_object-struct r p h, as_object-pointer r d.0)
        ((λ e. n.0 (m.0 e), λ e. m.1 (n.1 e)), c)

  -- DeepCopyObject of a pointer to an object of one of the four root types, all of whose cells are in
  -- use, gives the interface nil exactly for the nil pointer. After it, whatever is written to cells of
  -- the copy or to cells that were not in use is not seen through the original, and whatever is written
  -- to cells of the original or to cells that were not in use is not seen through the copy: each stands
  -- for the value that the original stood for before. The library's own copying is taken to make new
  -- cells in the same way for its types.
  pub deep_copy_object-independent :
      (r : Root) (p : Pointer) (h g : Heap (Cell Lib Raw)) (o : RuntimeObject)
      (through_copy through_original : List (ℕ × Cell Lib Raw))
      → Used h ((view_of Lib Raw zero lib_view (struct_of r)).owns h p)
      → deep_copy_object Lib Raw zero deep_copy_lib r p h ≡ (o, g)
      → Through g ((view_of Lib Raw zero lib_view (struct_of r)).owns g (pointer_of o)) through_copy
      → Through g ((view_of Lib Raw zero lib_view (struct_of r)).owns g p) through_original
      → ((o ≡ nil) ↔ (p ≡ none))
        × ((view_of Lib Raw zero lib_view (struct_of r)).read (store_all through_copy g) p
            ≡ (view_of Lib Raw zero lib_view (struct_of r)).read h p)
        × ((view_of Lib Raw zero lib_view (struct_of r)).read
              (store_all through_original g)
              (pointer_of o)
            ≡ (view_of Lib Raw zero lib_view (struct_of r)).read h p)
  deep_copy_object-independent r p h g o ws us used e through_c through_o =
      let w = view_of Lib Raw zero lib_view (struct_of r) in
      let c =
        subst (λ z. (z.0 ≡ nil ↔ p ≡ none) × Copied w p h (pointer_of z.0) z.1) e
          (deep_copy_object-Copied r p h used) in
      (
        c.0,
        read-original w p h (pointer_of o) g used c.1 ws through_c,
        read-copy w p h (pointer_of o) g used c.1 us through_o,
      )
