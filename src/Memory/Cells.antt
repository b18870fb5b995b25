-- ===== src/Memory/Cells.antt =====
-- What a cell is read as. Go's types ensure that a cell is read at the type that it was made with; at
-- any other a reading gives the zero value of the type.
use kbrain.Prelude.{false, none, List, []}
use kbrain.Prelude.Int.{ℤ, pos}
use kbrain.Prelude.Text.{Text}
use kbrain.Api.{SecretKeyRef, GitSpec, ResourceSpec, OllamaConfig, unset}
use kbrain.Memory.Objects.{
  LibKind, object_meta, list_meta, label_selector, condition, TypeMeta, TaskSpecObject,
  TaskStatusObject, TaskObject, PoolSpecObject, PoolStatusObject, PoolObject, ListObject, Cell,
  secret_key_ref, git_spec, resource_spec, ollama_config, int32_cell, selector_cell, task_spec,
  task_status, task, pool_spec, pool_status, pool, list_object, strings, conditions, tasks, pools,
}

abbrev zero_git : GitSpec
zero_git = record {
  repo_url = [];
  base_branch = [];
  target_branch = [];
  work_branch = [];
  platform = [];
}

abbrev zero_task_spec : TaskSpecObject
zero_task_spec = record {
  description = [];
  model_provider = [];
  model_name = [];
  agent_type = [];
  git = zero_git;
  approval_mode = [];
  api_key_secret_ref = none;
  git_credentials_secret_ref = none;
  resources = none;
  ollama_config = none;
  timeout = [];
  pool_ref = [];
}

abbrev zero_pool_spec : PoolSpecObject
zero_pool_spec = record {
  max_concurrency = pos 0;
  default_model_provider = [];
  default_model_name = [];
  default_agent_type = [];
  git = zero_git;
  default_api_key_secret_ref = none;
  default_git_credentials_secret_ref = none;
  selector = none;
  queue_strategy = [];
}

abbrev zero_pool_status : PoolStatusObject
zero_pool_status = record {
  active_agents = pos 0;
  queued_tasks = pos 0;
  completed_tasks = pos 0;
  failed_tasks = pos 0;
  active_task_names = none;
  conditions = none;
}

abbrev zero_type : TypeMeta
zero_type = record { kind = []; api_version = [] }

module _ (Lib : LibKind → Type 0) (Raw : Type 0) where
  abbrev zero_task_status : TaskStatusObject Lib
  zero_task_status = record {
    phase = unset;
    pod_name = [];
    branch_name = [];
    merge_request_url = [];
    message = [];
    start_time = none;
    end_time = none;
    exit_code = none;
    output_summary = [];
    conditions = none;
  }

  unfoldable pub as_secret_key_ref : Cell Lib Raw → SecretKeyRef
  as_secret_key_ref (secret_key_ref x) = x
  as_secret_key_ref _ = record { name = []; key = [] }

  unfoldable pub as_git_spec : Cell Lib Raw → GitSpec
  as_git_spec (git_spec x) = x
  as_git_spec _ = zero_git

  unfoldable pub as_resource_spec : Cell Lib Raw → ResourceSpec
  as_resource_spec (resource_spec x) = x
  as_resource_spec _ = record { cpu_request = []; memory_request = []; gpu_limit = [] }

  unfoldable pub as_ollama_config : Cell Lib Raw → OllamaConfig
  as_ollama_config (ollama_config x) = x
  as_ollama_config _ = record { image = []; use_gpu = false; pull_timeout = [] }

  unfoldable pub as_int32 : Cell Lib Raw → ℤ
  as_int32 (int32_cell x) = x
  as_int32 _ = pos 0

  unfoldable pub as_strings : Cell Lib Raw → List Text
  as_strings (strings x) = x
  as_strings _ = []

  unfoldable pub as_conditions : Cell Lib Raw → List (Lib condition)
  as_conditions (conditions x) = x
  as_conditions _ = []

  unfoldable pub as_tasks : Cell Lib Raw → List (TaskObject Lib)
  as_tasks (tasks x) = x
  as_tasks _ = []

  unfoldable pub as_pools : Cell Lib Raw → List (PoolObject Lib)
  as_pools (pools x) = x
  as_pools _ = []

  unfoldable pub as_task_spec : Cell Lib Raw → TaskSpecObject
  as_task_spec (task_spec x) = x
  as_task_spec _ = zero_task_spec

  unfoldable pub as_task_status : Cell Lib Raw → TaskStatusObject Lib
  as_task_status (task_status x) = x
  as_task_status _ = zero_task_status

  unfoldable pub as_pool_spec : Cell Lib Raw → PoolSpecObject
  as_pool_spec (pool_spec x) = x
  as_pool_spec _ = zero_pool_spec

  unfoldable pub as_pool_status : Cell Lib Raw → PoolStatusObject
  as_pool_status (pool_status x) = x
  as_pool_status _ = zero_pool_status

  -- The objects that contain one of the library's; `zero` is the zero value of each of its types.
  module _ (zero : (k : LibKind) → Lib k) where
    unfoldable pub as_selector : Cell Lib Raw → Lib label_selector
    as_selector (selector_cell x) = x
    as_selector _ = zero label_selector

    unfoldable pub as_task : Cell Lib Raw → TaskObject Lib
    as_task (task x) = x
    as_task _ = record {
      type_meta = zero_type;
      object_meta = zero object_meta;
      spec = zero_task_spec;
      status = zero_task_status;
    }

    unfoldable pub as_pool : Cell Lib Raw → PoolObject Lib
    as_pool (pool x) = x
    as_pool _ = record {
      type_meta = zero_type;
      object_meta = zero object_meta;
      spec = zero_pool_spec;
      status = zero_pool_status;
    }

    unfoldable pub as_list : Cell Lib Raw → ListObject Lib
    as_list (list_object x) = x
    as_list _ = record { type_meta = zero_type; list_meta = zero list_meta; items = none }
