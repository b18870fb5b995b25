-- ===== src/Tests/Copies.antt =====
-- A task in memory, with the library's objects in cells of their own, and what is written to it and to
-- its copy.
use kbrain.Prelude.{
  ℕ, zero, suc, List, [], ◌∷◌, ◌≡◌, ◌↔◌, refl, sym, subst, inl, inr, arith, Option, none, some,
}
use kbrain.Prelude.Int.{pos}
use mathlib.Core.List.{Memᴰ}
use kbrain.Api.{Time, ObjectMeta, Condition, Dict, running}
use kbrain.Memory.Heap.{Heap, Mem, load, store, new}
use kbrain.Memory.Views.{View, Used, Copied, IsDeepCopy}
use kbrain.Memory.Shapes.{plain_view, pointer_view}
use kbrain.Memory.Copying.{copy_if_set, copy_cell, deep_copy_cell, copy_elements}
use kbrain.Memory.Copying.Laws.{copy_cell-IsDeepCopy}
use kbrain.Memory.Objects.{
  LibKind, object_meta, list_meta, label_selector, condition, time_pointer, LibValue, ListMeta,
  Cell, Pointer, raw, task, secret_key_ref, int32_cell, conditions,
}
use kbrain.Memory.Cells.{as_task, as_secret_key_ref, as_int32, as_conditions}
use kbrain.Memory.DeepCopy.{
  task_root, nil, RuntimeObject, as_object, copy_conditions, copy_task_spec, copy_task_status,
  copy_task, deep_copy_task, deep_copy_object, deep_copy_object_task,
}
use kbrain.Memory.Structs.{Value, a_task, view_of, deep_copy, deep_copy-Copied}
use kbrain.Memory.Independence.{store_all, Through, pointer_of, deep_copy_object-independent}

-- What a cell of the library's holds.
data LibObject : Type 0 where
  meta_object : ObjectMeta → LibObject
  list_meta_object : ListMeta → LibObject
  selector_object : Dict → LibObject
  condition_object : Condition → LibObject
  time_object : Time → LibObject

-- Each of the library's objects is a cell.
abbrev LibAddress : LibKind → Type 0
LibAddress k = ℕ

abbrev Content : Type 0
Content = Cell LibAddress LibObject

abbrev as_lib : (k : LibKind) → Content → LibValue k
as_lib object_meta (raw (meta_object x)) = x
as_lib object_meta _ = record {
  name = [];
  namespace = [];
  labels = [];
  annotations = [];
  finalizers = [];
  creation_timestamp = 0;
  deletion_timestamp = none;
  owner_references = [];
}
as_lib list_meta (raw (list_meta_object x)) = x
as_lib list_meta _ = record { resource_version = []; continue_token = [] }
as_lib label_selector (raw (selector_object x)) = x
as_lib label_selector _ = []
as_lib condition (raw (condition_object x)) = x
as_lib condition _ = record { condition_type = []; status = []; reason = []; message = [] }
as_lib time_pointer (raw (time_object x)) = x
as_lib time_pointer _ = 0

abbrev address_zero : (k : LibKind) → LibAddress k
address_zero k = 0

abbrev address_view : (k : LibKind) → View Content (LibAddress k) (LibValue k)
address_view k = pointer_view (as_lib k) plain_view

abbrev address_copy : (k : LibKind) → LibAddress k → Mem Content (LibAddress k)
address_copy k = copy_cell

address-IsDeepCopy : (k : LibKind) → IsDeepCopy (address_view k) (address_copy k)
address-IsDeepCopy k = copy_cell-IsDeepCopy (as_lib k)

abbrev task_cell : Content
task_cell = task (record {
  type_meta = record { kind = 65 ∷ []; api_version = [] };
  object_meta = 1;
  spec = record {
    description = 102 ∷ [];
    model_provider = [];
    model_name = [];
    agent_type = [];
    git = record {
      repo_url = [];
      base_branch = [];
      target_branch = [];
      work_branch = [];
      platform = [];
    };
    approval_mode = [];
    api_key_secret_ref = some 2;
    git_credentials_secret_ref = some 2;
    resources = none;
    ollama_config = none;
    timeout = [];
    pool_ref = [];
  };
  status = record {
    phase = running;
    pod_name = [];
    branch_name = [];
    merge_request_url = [];
    message = [];
    start_time = some 3;
    end_time = none;
    exit_code = some 4;
    output_summary = [];
    conditions = some 5;
  };
})

abbrev ready : Content
ready =
    raw (
      condition_object
        (record { condition_type = 82 ∷ []; status = []; reason = []; message = [] }))

-- The content in order, with some condition where none is written.
abbrev cell_of : List Content → ℕ → Content
cell_of [] n = ready
cell_of (c ∷ l) zero = c
cell_of (c ∷ l) (suc n) = cell_of l n

-- Cell 0 is a running task, with its metadata in 1, a secret's key in 2, which it refers to twice, its
-- start time in 3, an exit code in 4, and the slice of its conditions, 6 and 7, in 5.
abbrev memory : Heap Content
memory = record {
  next = 8;
  cell = cell_of (
      task_cell
      ∷ raw (time_object 0)
      ∷ secret_key_ref (record { name = 115 ∷ []; key = 107 ∷ [] })
      ∷ raw (time_object 9)
      ∷ int32_cell (pos 1)
      ∷ conditions (6 ∷ 7 ∷ [])
      ∷ []);
}

abbrev view : View Content Pointer (Option (Value a_task))
view = view_of LibAddress LibObject address_zero address_view a_task

-- The cells of the task; the secret's key is met twice.
task_cells : view.owns memory (some 0) ≡ 0 ∷ 1 ∷ 2 ∷ 2 ∷ 3 ∷ 4 ∷ 5 ∷ 6 ∷ 7 ∷ []
unfolding as_task as_secret_key_ref as_int32 as_conditions
task_cells = refl

memory-Used : Used memory (view.owns memory (some 0))
memory-Used = subst (Used memory) (sym task_cells) (
  omega arith,
  (
    omega arith,
    (
      omega arith,
      (omega arith, (omega arith, (omega arith, (omega arith, (omega arith, (omega arith, tt)))))),
    ),
  ),
)

deep_copy-Copied_example :
    Copied view
      (some 0)
      memory
      (deep_copy LibAddress LibObject address_zero address_view address_copy a_task
        (some 0)
        memory).0
      (deep_copy LibAddress LibObject address_zero address_view address_copy a_task
        (some 0)
        memory).1
deep_copy-Copied_example =
    deep_copy-Copied LibAddress LibObject address_zero address_view address_copy address-IsDeepCopy
      a_task (some 0) memory memory-Used

abbrev result : RuntimeObject × Heap Content
result = deep_copy_object LibAddress LibObject address_zero address_copy task_root (some 0) memory

-- The secret of the copy is changed, and a new cell is filled.
abbrev to_copy : List (ℕ × Content)
to_copy = (10, ready) ∷ (90, ready) ∷ []

abbrev to_original : List (ℕ × Content)
to_original = (2, ready) ∷ (0, ready) ∷ []

-- The copy has a cell for each of the two references to the secret's key.
copy_cells :
    view.owns result.1 (pointer_of result.0) ≡ 8 ∷ 9 ∷ 10 ∷ 11 ∷ 12 ∷ 13 ∷ 14 ∷ 15 ∷ 16 ∷ []
unfolding as_task as_secret_key_ref as_int32 as_conditions deep_copy_object deep_copy_object_task
    deep_copy_task copy_task copy_task_spec copy_task_status copy_conditions copy_if_set copy_cell
    deep_copy_cell copy_elements load store new as_object
copy_cells = refl

original_cells : view.owns result.1 (some 0) ≡ 0 ∷ 1 ∷ 2 ∷ 2 ∷ 3 ∷ 4 ∷ 5 ∷ 6 ∷ 7 ∷ []
unfolding as_task as_secret_key_ref as_int32 as_conditions deep_copy_object deep_copy_object_task
    deep_copy_task copy_task copy_task_spec copy_task_status copy_conditions copy_if_set copy_cell
    deep_copy_cell copy_elements load store new as_object
original_cells = refl

next_cell : result.1.next ≡ 17
unfolding as_task as_secret_key_ref as_int32 as_conditions deep_copy_object deep_copy_object_task
    deep_copy_task copy_task copy_task_spec copy_task_status copy_conditions copy_if_set copy_cell
    deep_copy_cell copy_elements load store new as_object
next_cell = refl

to_copy-Through : Through result.1 (view.owns result.1 (pointer_of result.0)) to_copy
to_copy-Through =
    subst (λ xs. Through result.1 xs to_copy) (sym copy_cells)
      (inl (Memᴰ.tail (Memᴰ.tail (Memᴰ.head refl))), (inr (omega (arith, next_cell)), tt))

to_original-Through : Through result.1 (view.owns result.1 (some 0)) to_original
to_original-Through =
    subst (λ xs. Through result.1 xs to_original) (sym original_cells)
      (inl (Memᴰ.tail (Memᴰ.tail (Memᴰ.head refl))), (inl (Memᴰ.head refl), tt))

deep_copy_object-independent_example :
    (result.0 ≡ nil ↔ ◌≡◌ {A = Pointer} (some 0) none)
    × (view.read (store_all to_copy result.1) (some 0) ≡ view.read memory (some 0))
    × (view.read (store_all to_original result.1) (pointer_of result.0) ≡ view.read memory (some 0))
deep_copy_object-independent_example =
    deep_copy_object-independent LibAddress LibObject address_zero address_view address_copy
      address-IsDeepCopy task_root (some 0) memory result.1 result.0 to_copy to_original memory-Used
      refl to_copy-Through to_original-Through
