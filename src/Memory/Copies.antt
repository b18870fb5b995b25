-- ===== src/Memory/Copies.antt =====
-- Each generated DeepCopyInto makes a deep copy of its object, where those of the library do.
use kbrain.Prelude.{refl}
use kbrain.Memory.Heap.{Mem}
use kbrain.Memory.Views.{View, IsDeepCopy}
use kbrain.Memory.Shapes.{plain_view, pointer_view, elements_view}
use kbrain.Memory.Copying.{copy_if_set, copy_cell, copy_elements}
use kbrain.Memory.Copying.Laws.{
  copy_both-IsDeepCopy, copy_if_set-IsDeepCopy, copy_elements-IsDeepCopy, copy_cell-IsDeepCopy,
  deep_copy_cell-IsDeepCopy, struct-IsDeepCopy,
}
use kbrain.Memory.Objects.{
  LibKind, object_meta, list_meta, label_selector, condition, time_pointer, LibValue, Cell,
  conditions, selector_cell, tasks, pools,
}
use kbrain.Memory.Cells.{
  as_secret_key_ref, as_resource_spec, as_ollama_config, as_int32, as_strings, as_conditions,
  as_tasks, as_pools, as_selector,
}
use kbrain.Memory.Values.{
  task_spec_pointers, task_spec_value, task_status_pointers, task_status_value, pool_spec_pointers,
  pool_spec_value, pool_status_pointers, pool_status_value, task_parts, task_value, pool_parts,
  pool_value, list_parts, list_value, secret_pointer_view, task_spec_view, task_status_view,
  pool_spec_view, pool_status_view, task_view, pool_view, task_list_view, pool_list_view,
}
use kbrain.Memory.DeepCopy.{
  copy_task_spec, copy_conditions, copy_task_status, copy_pool_spec, copy_pool_status, copy_task,
  copy_pool, copy_task_list, copy_pool_list,
}

module _ (Lib : LibKind → Type 0) (Raw : Type 0) (zero : (k : LibKind) → Lib k)
    (deep_copy_lib : (k : LibKind) → Lib k → Mem (Cell Lib Raw) (Lib k))
    (lib_view : (k : LibKind) → View (Cell Lib Raw) (Lib k) (LibValue k))
    (lib_copies : (k : LibKind) → IsDeepCopy (lib_view k) (deep_copy_lib k)) where
  copy_secret-IsDeepCopy :
      IsDeepCopy (secret_pointer_view Lib Raw zero lib_view) (copy_if_set copy_cell)
  copy_secret-IsDeepCopy =
      copy_if_set-IsDeepCopy (pointer_view (as_secret_key_ref Lib Raw) plain_view) copy_cell
        (copy_cell-IsDeepCopy (as_secret_key_ref Lib Raw))

  pub copy_conditions-IsDeepCopy :
      IsDeepCopy
        (pointer_view (as_conditions Lib Raw) (elements_view (lib_view condition)))
        (copy_conditions Lib Raw zero deep_copy_lib)
  unfolding copy_conditions as_conditions
  copy_conditions-IsDeepCopy =
      deep_copy_cell-IsDeepCopy (elements_view (lib_view condition)) (as_conditions Lib Raw)
        conditions (copy_elements (deep_copy_lib condition)) (λ x. refl)
        (copy_elements-IsDeepCopy (lib_view condition) (deep_copy_lib condition)
          (lib_copies condition))

  pub copy_task_spec-IsDeepCopy :
      IsDeepCopy (task_spec_view Lib Raw zero lib_view) (copy_task_spec Lib Raw zero deep_copy_lib)
  unfolding copy_task_spec
  copy_task_spec-IsDeepCopy =
      struct-IsDeepCopy task_spec_pointers task_spec_value
        (λ a b. record a {
          api_key_secret_ref = b.0;
          git_credentials_secret_ref = b.1.0;
          resources = b.1.1.0;
          ollama_config = b.1.1.1;
        })
        _ _ (λ a b. refl) (λ a b x. refl)
        (copy_both-IsDeepCopy _ _ _ _ copy_secret-IsDeepCopy (
          copy_both-IsDeepCopy _ _ _ _ copy_secret-IsDeepCopy (
            copy_both-IsDeepCopy _ _ _ _
              (copy_if_set-IsDeepCopy _ copy_cell (copy_cell-IsDeepCopy (as_resource_spec Lib Raw)))
              (copy_if_set-IsDeepCopy _ copy_cell
                (copy_cell-IsDeepCopy (as_ollama_config Lib Raw))))))

  pub copy_task_status-IsDeepCopy :
      IsDeepCopy
        (task_status_view Lib Raw zero lib_view)
        (copy_task_status Lib Raw zero deep_copy_lib)
  unfolding copy_task_status
  copy_task_status-IsDeepCopy =
      struct-IsDeepCopy (task_status_pointers Lib) (task_status_value Lib)
        (λ a b. record a {
          start_time = b.0;
          end_time = b.1.0;
          exit_code = b.1.1.0;
          conditions = b.1.1.1;
        })
        _ _ (λ a b. refl) (λ a b x. refl)
        (copy_both-IsDeepCopy _ _ _ _ (copy_if_set-IsDeepCopy _ _ (lib_copies time_pointer)) (
          copy_both-IsDeepCopy _ _ _ _ (copy_if_set-IsDeepCopy _ _ (lib_copies time_pointer)) (
            copy_both-IsDeepCopy _ _ _ _
              (copy_if_set-IsDeepCopy _ copy_cell (copy_cell-IsDeepCopy (as_int32 Lib Raw)))
              (copy_if_set-IsDeepCopy _ _ copy_conditions-IsDeepCopy))))

  pub copy_pool_spec-IsDeepCopy :
      IsDeepCopy (pool_spec_view Lib Raw zero lib_view) (copy_pool_spec Lib Raw zero deep_copy_lib)
  unfolding copy_pool_spec as_selector
  copy_pool_spec-IsDeepCopy =
      struct-IsDeepCopy pool_spec_pointers pool_spec_value
        (λ a b. record a {
          default_api_key_secret_ref = b.0;
          default_git_credentials_secret_ref = b.1.0;
          selector = b.1.1;
        })
        _ _ (λ a b. refl) (λ a b x. refl)
        (copy_both-IsDeepCopy _ _ _ _ copy_secret-IsDeepCopy (
          copy_both-IsDeepCopy _ _ _ _ copy_secret-IsDeepCopy (
            copy_if_set-IsDeepCopy _ _ (
              deep_copy_cell-IsDeepCopy (lib_view label_selector) (as_selector Lib Raw zero)
                selector_cell (deep_copy_lib label_selector) (λ x. refl)
                (lib_copies label_selector)))))

  pub copy_pool_status-IsDeepCopy :
      IsDeepCopy
        (pool_status_view Lib Raw zero lib_view)
        (copy_pool_status Lib Raw zero deep_copy_lib)
  unfolding copy_pool_status
  copy_pool_status-IsDeepCopy =
      struct-IsDeepCopy pool_status_pointers pool_status_value
        (λ a b. record a { active_task_names = b.0; conditions = b.1 }) _ _ (λ a b. refl)
        (λ a b x. refl)
        (copy_both-IsDeepCopy _ _ _ _
          (copy_if_set-IsDeepCopy _ copy_cell (copy_cell-IsDeepCopy (as_strings Lib Raw)))
          (copy_if_set-IsDeepCopy _ _ copy_conditions-IsDeepCopy))

  pub copy_task-IsDeepCopy :
      IsDeepCopy (task_view Lib Raw zero lib_view) (copy_task Lib Raw zero deep_copy_lib)
  unfolding copy_task
  copy_task-IsDeepCopy =
      struct-IsDeepCopy (task_parts Lib) (task_value Lib)
        (λ a b. record a { object_meta = b.0; spec = b.1.0; status = b.1.1 }) _ _ (λ a b. refl)
        (λ a b x. refl)
        (copy_both-IsDeepCopy _ _ _ _ (lib_copies object_meta)
          (copy_both-IsDeepCopy _ _ _ _ copy_task_spec-IsDeepCopy copy_task_status-IsDeepCopy))

  pub copy_pool-IsDeepCopy :
      IsDeepCopy (pool_view Lib Raw zero lib_view) (copy_pool Lib Raw zero deep_copy_lib)
  unfolding copy_pool
  copy_pool-IsDeepCopy =
      struct-IsDeepCopy (pool_parts Lib) (pool_value Lib)
        (λ a b. record a { object_meta = b.0; spec = b.1.0; status = b.1.1 }) _ _ (λ a b. refl)
        (λ a b x. refl)
        (copy_both-IsDeepCopy _ _ _ _ (lib_copies object_meta)
          (copy_both-IsDeepCopy _ _ _ _ copy_pool_spec-IsDeepCopy copy_pool_status-IsDeepCopy))

  pub copy_task_list-IsDeepCopy :
      IsDeepCopy (task_list_view Lib Raw zero lib_view) (copy_task_list Lib Raw zero deep_copy_lib)
  unfolding copy_task_list as_tasks
  copy_task_list-IsDeepCopy =
      struct-IsDeepCopy (list_parts Lib) (list_value Lib)
        (λ a b. record a { list_meta = b.0; items = b.1 }) _ _ (λ a b. refl) (λ a b x. refl)
        (copy_both-IsDeepCopy _ _ _ _ (lib_copies list_meta) (
          copy_if_set-IsDeepCopy _ _ (
            deep_copy_cell-IsDeepCopy _ (as_tasks Lib Raw) tasks _ (λ x. refl)
              (copy_elements-IsDeepCopy (task_view Lib Raw zero lib_view) _ copy_task-IsDeepCopy))))

  pub copy_pool_list-IsDeepCopy :
      IsDeepCopy (pool_list_view Lib Raw zero lib_view) (copy_pool_list Lib Raw zero deep_copy_lib)
  unfolding copy_pool_list as_pools
  copy_pool_list-IsDeepCopy =
      struct-IsDeepCopy (list_parts Lib) (list_value Lib)
        (λ a b. record a { list_meta = b.0; items = b.1 }) _ _ (λ a b. refl) (λ a b x. refl)
        (copy_both-IsDeepCopy _ _ _ _ (lib_copies list_meta) (
          copy_if_set-IsDeepCopy _ _ (
            deep_copy_cell-IsDeepCopy _ (as_pools Lib Raw) pools _ (λ x. refl)
              (copy_elements-IsDeepCopy (pool_view Lib Raw zero lib_view) _ copy_pool-IsDeepCopy))))
