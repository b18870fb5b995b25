-- ===== src/Memory/Structs.antt =====
-- The twelve structs that have a DeepCopy, and what a pointer to each of them stands for.
use kbrain.Prelude.{ℕ, Option, List, refl}
use kbrain.Api.{
  SecretKeyRef, GitSpec, ResourceSpec, OllamaConfig, AgentTaskSpec, AgentTaskStatus, AgentTask,
  AgentPoolSpec, AgentPoolStatus, AgentPool,
}
use kbrain.Memory.Heap.{Heap, Mem, pure}
use kbrain.Memory.Views.{View, Used, Copied, IsDeepCopy}
use kbrain.Memory.Shapes.{plain_view, optional_view, pointer_view}
use kbrain.Memory.Copying.Laws.{plain-IsDeepCopy, pointer-IsDeepCopy}
use kbrain.Memory.Objects.{
  LibKind, LibValue, ListMeta, TypeMeta, Pointer, Cell, secret_key_ref, git_spec, resource_spec,
  ollama_config, task_spec, task_status, task, pool_spec, pool_status, pool, list_object,
}
use kbrain.Memory.Cells.{
  as_secret_key_ref, as_git_spec, as_resource_spec, as_ollama_config, as_task_spec, as_task_status,
  as_pool_spec, as_pool_status, as_task, as_pool, as_list,
}
use kbrain.Memory.Values.{
  task_spec_view, task_status_view, pool_spec_view, pool_status_view, task_view, pool_view,
  task_list_view, pool_list_view,
}
use kbrain.Memory.Copies.{
  copy_task_spec-IsDeepCopy, copy_task_status-IsDeepCopy, copy_pool_spec-IsDeepCopy,
  copy_pool_status-IsDeepCopy, copy_task-IsDeepCopy, copy_pool-IsDeepCopy,
  copy_task_list-IsDeepCopy, copy_pool_list-IsDeepCopy,
}
use kbrain.Memory.DeepCopy.{
  deep_copy_secret_key_ref, deep_copy_git_spec, deep_copy_resource_spec, deep_copy_ollama_config,
  deep_copy_task_spec, deep_copy_task_status, deep_copy_pool_spec, deep_copy_pool_status,
  deep_copy_task, deep_copy_pool, deep_copy_task_list, deep_copy_pool_list,
}

pub data Struct : Type 0 where
  a_secret_key_ref a_git_spec a_resource_spec an_ollama_config a_task_spec a_task_status a_pool_spec
        a_pool_status a_task a_pool a_task_list a_pool_list :
      Struct

abbrev pub Value : Struct → Type 0
Value a_secret_key_ref = SecretKeyRef
Value a_git_spec = GitSpec
Value a_resource_spec = ResourceSpec
Value an_ollama_config = OllamaConfig
Value a_task_spec = AgentTaskSpec
Value a_task_status = AgentTaskStatus
Value a_pool_spec = AgentPoolSpec
Value a_pool_status = AgentPoolStatus
Value a_task = TypeMeta × AgentTask
Value a_pool = TypeMeta × AgentPool
Value a_task_list = TypeMeta × (ListMeta × List (TypeMeta × AgentTask))
Value a_pool_list = TypeMeta × (ListMeta × List (TypeMeta × AgentPool))

module _ (Lib : LibKind → Type 0) (Raw : Type 0) (zero : (k : LibKind) → Lib k)
    (lib_view : (k : LibKind) → View (Cell Lib Raw) (Lib k) (LibValue k)) where
  abbrev pub object_view : (s : Struct) → View (Cell Lib Raw) ℕ (Value s)
  object_view a_secret_key_ref = pointer_view (as_secret_key_ref Lib Raw) plain_view
  object_view a_git_spec = pointer_view (as_git_spec Lib Raw) plain_view
  object_view a_resource_spec = pointer_view (as_resource_spec Lib Raw) plain_view
  object_view an_ollama_config = pointer_view (as_ollama_config Lib Raw) plain_view
  object_view a_task_spec =
      pointer_view (as_task_spec Lib Raw) (task_spec_view Lib Raw zero lib_view)
  object_view a_task_status =
      pointer_view (as_task_status Lib Raw) (task_status_view Lib Raw zero lib_view)
  object_view a_pool_spec =
      pointer_view (as_pool_spec Lib Raw) (pool_spec_view Lib Raw zero lib_view)
  object_view a_pool_status =
      pointer_view (as_pool_status Lib Raw) (pool_status_view Lib Raw zero lib_view)
  object_view a_task = pointer_view (as_task Lib Raw zero) (task_view Lib Raw zero lib_view)
  object_view a_pool = pointer_view (as_pool Lib Raw zero) (pool_view Lib Raw zero lib_view)
  object_view a_task_list =
      pointer_view (as_list Lib Raw zero) (task_list_view Lib Raw zero lib_view)
  object_view a_pool_list =
      pointer_view (as_list Lib Raw zero) (pool_list_view Lib Raw zero lib_view)

  -- A pointer to the struct, which may be nil.
  abbrev pub view_of : (s : Struct) → View (Cell Lib Raw) Pointer (Option (Value s))
  view_of s = optional_view (object_view s)

  module _ (deep_copy_lib : (k : LibKind) → Lib k → Mem (Cell Lib Raw) (Lib k)) where
    -- The struct's DeepCopy.
    abbrev pub deep_copy : Struct → Pointer → Mem (Cell Lib Raw) Pointer
    deep_copy a_secret_key_ref = deep_copy_secret_key_ref Lib Raw zero deep_copy_lib
    deep_copy a_git_spec = deep_copy_git_spec Lib Raw zero deep_copy_lib
    deep_copy a_resource_spec = deep_copy_resource_spec Lib Raw zero deep_copy_lib
    deep_copy an_ollama_config = deep_copy_ollama_config Lib Raw zero deep_copy_lib
    deep_copy a_task_spec = deep_copy_task_spec Lib Raw zero deep_copy_lib
    deep_copy a_task_status = deep_copy_task_status Lib Raw zero deep_copy_lib
    deep_copy a_pool_spec = deep_copy_pool_spec Lib Raw zero deep_copy_lib
    deep_copy a_pool_status = deep_copy_pool_status Lib Raw zero deep_copy_lib
    deep_copy a_task = deep_copy_task Lib Raw zero deep_copy_lib
    deep_copy a_pool = deep_copy_pool Lib Raw zero deep_copy_lib
    deep_copy a_task_list = deep_copy_task_list Lib Raw zero deep_copy_lib
    deep_copy a_pool_list = deep_copy_pool_list Lib Raw zero deep_copy_lib

    module _ (lib_copies : (k : LibKind) → IsDeepCopy (lib_view k) (deep_copy_lib k)) where
      pub deep_copy-IsDeepCopy : (s : Struct) → IsDeepCopy (view_of s) (deep_copy s)
      unfolding deep_copy_secret_key_ref deep_copy_git_spec deep_copy_resource_spec
          deep_copy_ollama_config deep_copy_task_spec deep_copy_task_status deep_copy_pool_spec
          deep_copy_pool_status deep_copy_task deep_copy_pool deep_copy_task_list
          deep_copy_pool_list as_secret_key_ref as_git_spec as_resource_spec as_ollama_config
          as_task_spec as_task_status as_pool_spec as_pool_status as_task as_pool as_list
      deep_copy-IsDeepCopy a_secret_key_ref =
          pointer-IsDeepCopy plain_view (as_secret_key_ref Lib Raw) secret_key_ref pure (λ x. refl)
            plain-IsDeepCopy
      deep_copy-IsDeepCopy a_git_spec =
          pointer-IsDeepCopy plain_view (as_git_spec Lib Raw) git_spec pure (λ x. refl)
            plain-IsDeepCopy
      deep_copy-IsDeepCopy a_resource_spec =
          pointer-IsDeepCopy plain_view (as_resource_spec Lib Raw) resource_spec pure (λ x. refl)
            plain-IsDeepCopy
      deep_copy-IsDeepCopy an_ollama_config =
          pointer-IsDeepCopy plain_view (as_ollama_config Lib Raw) ollama_config pure (λ x. refl)
            plain-IsDeepCopy
      deep_copy-IsDeepCopy a_task_spec =
          pointer-IsDeepCopy _ (as_task_spec Lib Raw) task_spec _ (λ x. refl)
            (copy_task_spec-IsDeepCopy Lib Raw zero deep_copy_lib lib_view lib_copies)
      deep_copy-IsDeepCopy a_task_status =
          pointer-IsDeepCopy _ (as_task_status Lib Raw) task_status _ (λ x. refl)
            (copy_task_status-IsDeepCopy Lib Raw zero deep_copy_lib lib_view lib_copies)
      deep_copy-IsDeepCopy a_pool_spec =
          pointer-IsDeepCopy _ (as_pool_spec Lib Raw) pool_spec _ (λ x. refl)
            (copy_pool_spec-IsDeepCopy Lib Raw zero deep_copy_lib lib_view lib_copies)
      deep_copy-IsDeepCopy a_pool_status =
          pointer-IsDeepCopy _ (as_pool_status Lib Raw) pool_status _ (λ x. refl)
            (copy_pool_status-IsDeepCopy Lib Raw zero deep_copy_lib lib_view lib_copies)
      deep_copy-IsDeepCopy a_task =
          pointer-IsDeepCopy _ (as_task Lib Raw zero) task _ (λ x. refl)
            (copy_task-IsDeepCopy Lib Raw zero deep_copy_lib lib_view lib_copies)
      deep_copy-IsDeepCopy a_pool =
          pointer-IsDeepCopy _ (as_pool Lib Raw zero) pool _ (λ x. refl)
            (copy_pool-IsDeepCopy Lib Raw zero deep_copy_lib lib_view lib_copies)
      deep_copy-IsDeepCopy a_task_list =
          pointer-IsDeepCopy _ (as_list Lib Raw zero) list_object _ (λ x. refl)
            (copy_task_list-IsDeepCopy Lib Raw zero deep_copy_lib lib_view lib_copies)
      deep_copy-IsDeepCopy a_pool_list =
          pointer-IsDeepCopy _ (as_list Lib Raw zero) list_object _ (λ x. refl)
            (copy_pool_list-IsDeepCopy Lib Raw zero deep_copy_lib lib_view lib_copies)

      -- Each of the twelve structs' DeepCopy gives, of a pointer to an object whose cells are in use,
      -- nil for nil, and else a pointer to an object that stands for the same value, all of whose cells
      -- are new, the items and conditions in its slices included; the cells in use before are as they
      -- were. The library's own copying is taken to do so for its types.
      pub deep_copy-Copied :
          (s : Struct) (p : Pointer) (h : Heap (Cell Lib Raw))
          → Used h ((view_of s).owns h p)
          → Copied (view_of s) p h (deep_copy s p h).0 (deep_copy s p h).1
      deep_copy-Copied s p h u = deep_copy-IsDeepCopy s p h u
