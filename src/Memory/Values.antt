-- ===== src/Memory/Values.antt =====
-- What the objects stand for: the values that the other modules reason about.
use kbrain.Prelude.{Option, none, some, List, []}
use kbrain.Prelude.Int.{ℤ}
use kbrain.Prelude.Text.{Text}
use kbrain.Api.{
  Time, ObjectMeta, Condition, SecretKeyRef, ResourceSpec, OllamaConfig, AgentTaskSpec,
  AgentTaskStatus, AgentTask, AgentPoolSpec, AgentPoolStatus, AgentPool, Dict,
}
use kbrain.Memory.Views.{View}
use kbrain.Memory.Shapes.{
  plain_view, pair_view, struct_view, optional_view, pointer_view, elements_view,
}
use kbrain.Memory.Objects.{
  LibKind, object_meta, list_meta, label_selector, condition, time_pointer, LibValue, ListMeta,
  TypeMeta, Pointer, TaskSpecObject, TaskStatusObject, TaskObject, PoolSpecObject, PoolStatusObject,
  PoolObject, ListObject, Cell,
}
use kbrain.Memory.Cells.{
  as_secret_key_ref, as_resource_spec, as_ollama_config, as_int32, as_strings, as_conditions,
  as_tasks, as_pools, as_selector,
}

-- A nil slice has no elements.
abbrev pub elements : {A : Type 0} → Option (List A) → List A
elements none = []
elements (some l) = l

-- The parts of a task's specification that are pointers.
abbrev pub TaskSpecPointers : Type 0
TaskSpecPointers = Pointer × (Pointer × (Pointer × Pointer))

abbrev pub task_spec_pointers : TaskSpecObject → TaskSpecPointers
task_spec_pointers object = (
  object.api_key_secret_ref,
  (object.git_credentials_secret_ref, (object.resources, object.ollama_config)),
)

abbrev pub task_spec_value :
    TaskSpecObject
    → Option SecretKeyRef × (Option SecretKeyRef × (Option ResourceSpec × Option OllamaConfig))
    → AgentTaskSpec
task_spec_value object p = record {
  description = object.description;
  model_provider = object.model_provider;
  model_name = object.model_name;
  agent_type = object.agent_type;
  git = object.git;
  approval_mode = object.approval_mode;
  api_key_secret_ref = p.0;
  git_credentials_secret_ref = p.1.0;
  resources = p.1.1.0;
  ollama_config = p.1.1.1;
  timeout = object.timeout;
  pool_ref = object.pool_ref;
}

abbrev pub pool_spec_pointers : PoolSpecObject → Pointer × (Pointer × Pointer)
pool_spec_pointers object = (
  object.default_api_key_secret_ref,
  (object.default_git_credentials_secret_ref, object.selector),
)

abbrev pub pool_status_pointers : PoolStatusObject → Pointer × Pointer
pool_status_pointers object = (object.active_task_names, object.conditions)

abbrev pub pool_spec_value :
    PoolSpecObject → Option SecretKeyRef × (Option SecretKeyRef × Option Dict) → AgentPoolSpec
pool_spec_value object p = record {
  max_concurrency = object.max_concurrency;
  default_model_provider = object.default_model_provider;
  default_model_name = object.default_model_name;
  default_agent_type = object.default_agent_type;
  git = object.git;
  default_api_key_secret_ref = p.0;
  default_git_credentials_secret_ref = p.1.0;
  selector = p.1.1;
  queue_strategy = object.queue_strategy;
}

abbrev pub pool_status_value :
    PoolStatusObject → Option (List Text) × Option (List Condition) → AgentPoolStatus
pool_status_value object p = record {
  active_agents = object.active_agents;
  queued_tasks = object.queued_tasks;
  completed_tasks = object.completed_tasks;
  failed_tasks = object.failed_tasks;
  active_task_names = elements p.0;
  conditions = elements p.1;
}

module _ (Lib : LibKind → Type 0) where
  abbrev pub TaskStatusPointers : Type 0
  TaskStatusPointers = Option (Lib time_pointer) × (Option (Lib time_pointer) × (Pointer × Pointer))

  abbrev pub task_status_pointers : TaskStatusObject Lib → TaskStatusPointers
  task_status_pointers object =
      (object.start_time, (object.end_time, (object.exit_code, object.conditions)))

  abbrev pub task_status_value :
      TaskStatusObject Lib
      → Option Time × (Option Time × (Option ℤ × Option (List Condition)))
      → AgentTaskStatus
  task_status_value object p = record {
    phase = object.phase;
    pod_name = object.pod_name;
    branch_name = object.branch_name;
    merge_request_url = object.merge_request_url;
    message = object.message;
    start_time = p.0;
    end_time = p.1.0;
    exit_code = p.1.1.0;
    output_summary = object.output_summary;
    conditions = elements p.1.1.1;
  }

  -- The parts of an object that are copied by functions of their own.
  abbrev pub task_parts : TaskObject Lib → Lib object_meta × (TaskSpecObject × TaskStatusObject Lib)
  task_parts object = (object.object_meta, (object.spec, object.status))

  abbrev pub pool_parts : PoolObject Lib → Lib object_meta × (PoolSpecObject × PoolStatusObject)
  pool_parts object = (object.object_meta, (object.spec, object.status))

  abbrev pub list_parts : ListObject Lib → Lib list_meta × Pointer
  list_parts object = (object.list_meta, object.items)

  abbrev pub task_value :
      TaskObject Lib → ObjectMeta × (AgentTaskSpec × AgentTaskStatus) → TypeMeta × AgentTask
  task_value object p = (object.type_meta, record { meta = p.0; spec = p.1.0; status = p.1.1 })

  abbrev pub pool_value :
      PoolObject Lib → ObjectMeta × (AgentPoolSpec × AgentPoolStatus) → TypeMeta × AgentPool
  pool_value object p = (object.type_meta, record { meta = p.0; spec = p.1.0; status = p.1.1 })

  abbrev pub list_value :
      {V : Type 0} → ListObject Lib → ListMeta × Option (List V) → TypeMeta × (ListMeta × List V)
  list_value object p = (object.type_meta, (p.0, elements p.1))

  module _ (Raw : Type 0) (zero : (k : LibKind) → Lib k)
      (lib_view : (k : LibKind) → View (Cell Lib Raw) (Lib k) (LibValue k)) where
    abbrev pub secret_pointer_view : View (Cell Lib Raw) Pointer (Option SecretKeyRef)
    secret_pointer_view = optional_view (pointer_view (as_secret_key_ref Lib Raw) plain_view)

    abbrev pub conditions_view : View (Cell Lib Raw) Pointer (Option (List Condition))
    conditions_view =
        optional_view (pointer_view (as_conditions Lib Raw) (elements_view (lib_view condition)))

    abbrev pub task_spec_view : View (Cell Lib Raw) TaskSpecObject AgentTaskSpec
    task_spec_view = struct_view task_spec_pointers task_spec_value (
        pair_view secret_pointer_view (
          pair_view secret_pointer_view (
            pair_view (optional_view (pointer_view (as_resource_spec Lib Raw) plain_view))
              (optional_view (pointer_view (as_ollama_config Lib Raw) plain_view)))))

    abbrev pub task_status_view : View (Cell Lib Raw) (TaskStatusObject Lib) AgentTaskStatus
    task_status_view = struct_view task_status_pointers task_status_value (
        pair_view (optional_view (lib_view time_pointer)) (
          pair_view (optional_view (lib_view time_pointer)) (
            pair_view (optional_view (pointer_view (as_int32 Lib Raw) plain_view))
              conditions_view)))

    abbrev pub pool_spec_view : View (Cell Lib Raw) PoolSpecObject AgentPoolSpec
    pool_spec_view = struct_view pool_spec_pointers pool_spec_value (
        pair_view secret_pointer_view (
          pair_view secret_pointer_view
            (optional_view (pointer_view (as_selector Lib Raw zero) (lib_view label_selector)))))

    abbrev pub pool_status_view : View (Cell Lib Raw) PoolStatusObject AgentPoolStatus
    pool_status_view =
        struct_view pool_status_pointers pool_status_value
          (pair_view (optional_view (pointer_view (as_strings Lib Raw) plain_view)) conditions_view)

    abbrev pub task_view : View (Cell Lib Raw) (TaskObject Lib) (TypeMeta × AgentTask)
    task_view =
        struct_view task_parts task_value
          (pair_view (lib_view object_meta) (pair_view task_spec_view task_status_view))

    abbrev pub pool_view : View (Cell Lib Raw) (PoolObject Lib) (TypeMeta × AgentPool)
    pool_view =
        struct_view pool_parts pool_value
          (pair_view (lib_view object_meta) (pair_view pool_spec_view pool_status_view))

    abbrev pub list_view :
        {B V : Type 0}
        → (Cell Lib Raw → List B)
        → View (Cell Lib Raw) B V
        → View (Cell Lib Raw) (ListObject Lib) (TypeMeta × (ListMeta × List V))
    list_view get item_view = struct_view list_parts list_value (
        pair_view (lib_view list_meta) (optional_view (pointer_view get (elements_view item_view))))

    abbrev pub task_list_view :
        View (Cell Lib Raw) (ListObject Lib) (TypeMeta × (ListMeta × List (TypeMeta × AgentTask)))
    task_list_view = list_view (as_tasks Lib Raw) task_view

    abbrev pub pool_list_view :
        View (Cell Lib Raw) (ListObject Lib) (TypeMeta × (ListMeta × List (TypeMeta × AgentPool)))
    pool_list_view = list_view (as_pools Lib Raw) pool_view
