-- ===== src/Memory/DeepCopy.antt =====
-- zz_generated.deepcopy.go: `copy_T` is T's DeepCopyInto, which gives what it makes of `out`, and
-- `deep_copy_T` its DeepCopy. `*out = *in` is the record that the copied fields are written into.
use kbrain.Prelude.{ℕ, none, some}
use kbrain.Memory.Heap.{Mem, pure, ◌>>=◌}
use kbrain.Memory.Copying.{copy_if_set, copy_cell, deep_copy_cell, copy_elements}
use kbrain.Memory.Objects.{
  LibKind, object_meta, list_meta, label_selector, condition, time_pointer, Pointer, TaskSpecObject,
  TaskStatusObject, TaskObject, PoolSpecObject, PoolStatusObject, PoolObject, ListObject, Cell,
  secret_key_ref, git_spec, resource_spec, ollama_config, selector_cell, task_spec, task_status,
  task, pool_spec, pool_status, pool, list_object, conditions, tasks, pools,
}
use kbrain.Memory.Cells.{
  as_secret_key_ref, as_git_spec, as_resource_spec, as_ollama_config, as_conditions, as_tasks,
  as_pools, as_task_spec, as_task_status, as_pool_spec, as_pool_status, as_selector, as_task,
  as_pool, as_list,
}

-- The interface value that DeepCopyObject gives: nil, or a pointer with its type.
pub data Root : Type 0 where
  task_root pool_root task_list_root pool_list_root : Root

pub data RuntimeObject : Type 0 where
  nil : RuntimeObject
  typed : Root → Pointer → RuntimeObject

-- `if c := in.DeepCopy(); c != nil { return c }; return nil`.
unfoldable pub as_object : Root → Pointer → RuntimeObject
as_object r none = nil
as_object r (some p) = typed r (some p)

-- The library's zero values, and its own DeepCopyInto functions, and DeepCopy for a time.
module _ (Lib : LibKind → Type 0) (Raw : Type 0) (zero : (k : LibKind) → Lib k)
    (deep_copy_lib : (k : LibKind) → Lib k → Mem (Cell Lib Raw) (Lib k)) where
  unfoldable pub copy_task_spec : TaskSpecObject → Mem (Cell Lib Raw) TaskSpecObject
  copy_task_spec object = do
    api_key ← copy_if_set copy_cell object.api_key_secret_ref
    git_credentials ← copy_if_set copy_cell object.git_credentials_secret_ref
    resources ← copy_if_set copy_cell object.resources
    ollama ← copy_if_set copy_cell object.ollama_config
    pure (record object {
      api_key_secret_ref = api_key;
      git_credentials_secret_ref = git_credentials;
      resources = resources;
      ollama_config = ollama;
    })

  -- A slice of conditions.
  unfoldable pub copy_conditions : ℕ → Mem (Cell Lib Raw) ℕ
  copy_conditions =
      deep_copy_cell (as_conditions Lib Raw) conditions (copy_elements (deep_copy_lib condition))

  unfoldable pub copy_task_status : TaskStatusObject Lib → Mem (Cell Lib Raw) (TaskStatusObject Lib)
  unfolding copy_conditions
  copy_task_status object = do
    start_time ← copy_if_set (deep_copy_lib time_pointer) object.start_time
    end_time ← copy_if_set (deep_copy_lib time_pointer) object.end_time
    exit_code ← copy_if_set copy_cell object.exit_code
    cs ← copy_if_set copy_conditions object.conditions
    pure (record object {
      start_time = start_time;
      end_time = end_time;
      exit_code = exit_code;
      conditions = cs;
    })

  unfoldable pub copy_task : TaskObject Lib → Mem (Cell Lib Raw) (TaskObject Lib)
  unfolding copy_task_spec copy_task_status
  copy_task object = do
    meta ← deep_copy_lib object_meta object.object_meta
    spec ← copy_task_spec object.spec
    status ← copy_task_status object.status
    pure (record object { object_meta = meta; spec = spec; status = status })

  unfoldable pub copy_pool_spec : PoolSpecObject → Mem (Cell Lib Raw) PoolSpecObject
  copy_pool_spec object = do
    api_key ← copy_if_set copy_cell object.default_api_key_secret_ref
    git_credentials ← copy_if_set copy_cell object.default_git_credentials_secret_ref
    selector ←
        copy_if_set
          (deep_copy_cell (as_selector Lib Raw zero) selector_cell (deep_copy_lib label_selector))
          object.selector
    pure (record object {
      default_api_key_secret_ref = api_key;
      default_git_credentials_secret_ref = git_credentials;
      selector = selector;
    })

  unfoldable pub copy_pool_status : PoolStatusObject → Mem (Cell Lib Raw) PoolStatusObject
  unfolding copy_conditions
  copy_pool_status object = do
    names ← copy_if_set copy_cell object.active_task_names
    cs ← copy_if_set copy_conditions object.conditions
    pure (record object { active_task_names = names; conditions = cs })

  unfoldable pub copy_pool : PoolObject Lib → Mem (Cell Lib Raw) (PoolObject Lib)
  unfolding copy_pool_spec copy_pool_status
  copy_pool object = do
    meta ← deep_copy_lib object_meta object.object_meta
    spec ← copy_pool_spec object.spec
    status ← copy_pool_status object.status
    pure (record object { object_meta = meta; spec = spec; status = status })

  unfoldable pub copy_task_list : ListObject Lib → Mem (Cell Lib Raw) (ListObject Lib)
  unfolding copy_task
  copy_task_list object = do
    meta ← deep_copy_lib list_meta object.list_meta
    items ←
        copy_if_set (deep_copy_cell (as_tasks Lib Raw) tasks (copy_elements copy_task)) object.items
    pure (record object { list_meta = meta; items = items })

  unfoldable pub copy_pool_list : ListObject Lib → Mem (Cell Lib Raw) (ListObject Lib)
  unfolding copy_pool
  copy_pool_list object = do
    meta ← deep_copy_lib list_meta object.list_meta
    items ←
        copy_if_set (deep_copy_cell (as_pools Lib Raw) pools (copy_elements copy_pool)) object.items
    pure (record object { list_meta = meta; items = items })

  -- The flat structs: `*out = *in` is all.
  unfoldable pub deep_copy_secret_key_ref : Pointer → Mem (Cell Lib Raw) Pointer
  deep_copy_secret_key_ref =
      copy_if_set (deep_copy_cell (as_secret_key_ref Lib Raw) secret_key_ref pure)

  unfoldable pub deep_copy_git_spec : Pointer → Mem (Cell Lib Raw) Pointer
  deep_copy_git_spec = copy_if_set (deep_copy_cell (as_git_spec Lib Raw) git_spec pure)

  unfoldable pub deep_copy_resource_spec : Pointer → Mem (Cell Lib Raw) Pointer
  deep_copy_resource_spec =
      copy_if_set (deep_copy_cell (as_resource_spec Lib Raw) resource_spec pure)

  unfoldable pub deep_copy_ollama_config : Pointer → Mem (Cell Lib Raw) Pointer
  deep_copy_ollama_config =
      copy_if_set (deep_copy_cell (as_ollama_config Lib Raw) ollama_config pure)

  unfoldable pub deep_copy_task_spec : Pointer → Mem (Cell Lib Raw) Pointer
  unfolding copy_task_spec
  deep_copy_task_spec = copy_if_set (deep_copy_cell (as_task_spec Lib Raw) task_spec copy_task_spec)

  unfoldable pub deep_copy_task_status : Pointer → Mem (Cell Lib Raw) Pointer
  unfolding copy_task_status
  deep_copy_task_status =
      copy_if_set (deep_copy_cell (as_task_status Lib Raw) task_status copy_task_status)

  unfoldable pub deep_copy_pool_spec : Pointer → Mem (Cell Lib Raw) Pointer
  unfolding copy_pool_spec
  deep_copy_pool_spec = copy_if_set (deep_copy_cell (as_pool_spec Lib Raw) pool_spec copy_pool_spec)

  unfoldable pub deep_copy_pool_status : Pointer → Mem (Cell Lib Raw) Pointer
  unfolding copy_pool_status
  deep_copy_pool_status =
      copy_if_set (deep_copy_cell (as_pool_status Lib Raw) pool_status copy_pool_status)

  unfoldable pub deep_copy_task : Pointer → Mem (Cell Lib Raw) Pointer
  unfolding copy_task
  deep_copy_task = copy_if_set (deep_copy_cell (as_task Lib Raw zero) task copy_task)

  unfoldable pub deep_copy_pool : Pointer → Mem (Cell Lib Raw) Pointer
  unfolding copy_pool
  deep_copy_pool = copy_if_set (deep_copy_cell (as_pool Lib Raw zero) pool copy_pool)

  unfoldable pub deep_copy_task_list : Pointer → Mem (Cell Lib Raw) Pointer
  unfolding copy_task_list
  deep_copy_task_list =
      copy_if_set (deep_copy_cell (as_list Lib Raw zero) list_object copy_task_list)

  unfoldable pub deep_copy_pool_list : Pointer → Mem (Cell Lib Raw) Pointer
  unfolding copy_pool_list
  deep_copy_pool_list =
      copy_if_set (deep_copy_cell (as_list Lib Raw zero) list_object copy_pool_list)

  -- The four DeepCopyObject.
  unfoldable pub deep_copy_object_task : Pointer → Mem (Cell Lib Raw) RuntimeObject
  unfolding deep_copy_task as_object
  deep_copy_object_task p = do c ← deep_copy_task p; pure (as_object task_root c)

  unfoldable pub deep_copy_object_pool : Pointer → Mem (Cell Lib Raw) RuntimeObject
  unfolding deep_copy_pool as_object
  deep_copy_object_pool p = do c ← deep_copy_pool p; pure (as_object pool_root c)

  unfoldable pub deep_copy_object_task_list : Pointer → Mem (Cell Lib Raw) RuntimeObject
  unfolding deep_copy_task_list as_object
  deep_copy_object_task_list p = do c ← deep_copy_task_list p; pure (as_object task_list_root c)

  unfoldable pub deep_copy_object_pool_list : Pointer → Mem (Cell Lib Raw) RuntimeObject
  unfolding deep_copy_pool_list as_object
  deep_copy_object_pool_list p = do c ← deep_copy_pool_list p; pure (as_object pool_list_root c)

  -- The method that the object's type selects.
  unfoldable pub deep_copy_object : Root → Pointer → Mem (Cell Lib Raw) RuntimeObject
  unfolding deep_copy_object_task deep_copy_object_pool deep_copy_object_task_list
      deep_copy_object_pool_list
  deep_copy_object task_root = deep_copy_object_task
  deep_copy_object pool_root = deep_copy_object_pool
  deep_copy_object task_list_root = deep_copy_object_task_list
  deep_copy_object pool_list_root = deep_copy_object_pool_list
