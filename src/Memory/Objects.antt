-- ===== src/Memory/Objects.antt =====
-- The custom resources as they lie in memory: a pointer is an address or nil, and a slice is the
-- address of its array or nil. The objects of the Kubernetes libraries that they embed or point to are
-- of types of those libraries.
use kbrain.Prelude.{ℕ, Option, List}
use kbrain.Prelude.Int.{ℤ}
use kbrain.Prelude.Text.{Text}
use kbrain.Api.{
  ObjectMeta, Condition, SecretKeyRef, GitSpec, ResourceSpec, OllamaConfig, AgentTaskPhase, Time,
  Dict,
}

-- The library's types that the custom resources contain.
pub data LibKind : Type 0 where
  object_meta list_meta label_selector condition time_pointer : LibKind

pub record ListMeta : Type 0 where
  pub resource_version : Text
  pub continue_token : Text

-- What an object of the library stands for.
abbrev pub LibValue : LibKind → Type 0
LibValue object_meta = ObjectMeta
LibValue list_meta = ListMeta
LibValue label_selector = Dict
LibValue condition = Condition
LibValue time_pointer = Time

pub record TypeMeta : Type 0 where
  pub kind : Text
  pub api_version : Text

abbrev pub Pointer : Type 0
Pointer = Option ℕ

pub record TaskSpecObject : Type 0 where
  pub description : Text
  pub model_provider : Text
  pub model_name : Text
  pub agent_type : Text
  pub git : GitSpec
  pub approval_mode : Text
  pub api_key_secret_ref : Pointer
  pub git_credentials_secret_ref : Pointer
  pub resources : Pointer
  pub ollama_config : Pointer
  pub timeout : Text
  pub pool_ref : Text

pub record PoolSpecObject : Type 0 where
  pub max_concurrency : ℤ
  pub default_model_provider : Text
  pub default_model_name : Text
  pub default_agent_type : Text
  pub git : GitSpec
  pub default_api_key_secret_ref : Pointer
  pub default_git_credentials_secret_ref : Pointer
  pub selector : Pointer
  pub queue_strategy : Text

pub record PoolStatusObject : Type 0 where
  pub active_agents : ℤ
  pub queued_tasks : ℤ
  pub completed_tasks : ℤ
  pub failed_tasks : ℤ
  pub active_task_names : Pointer
  pub conditions : Pointer

module _ (Lib : LibKind → Type 0) where
  -- A time pointer that is not nil is one of the library's.
  pub record TaskStatusObject : Type 0 where
    pub phase : AgentTaskPhase
    pub pod_name : Text
    pub branch_name : Text
    pub merge_request_url : Text
    pub message : Text
    pub start_time : Option (Lib time_pointer)
    pub end_time : Option (Lib time_pointer)
    pub exit_code : Pointer
    pub output_summary : Text
    pub conditions : Pointer

  pub record TaskObject : Type 0 where
    pub type_meta : TypeMeta
    pub object_meta : Lib object_meta
    pub spec : TaskSpecObject
    pub status : TaskStatusObject

  pub record PoolObject : Type 0 where
    pub type_meta : TypeMeta
    pub object_meta : Lib object_meta
    pub spec : PoolSpecObject
    pub status : PoolStatusObject

  -- AgentTaskList and AgentPoolList.
  pub record ListObject : Type 0 where
    pub type_meta : TypeMeta
    pub list_meta : Lib list_meta
    pub items : Pointer

  -- What a cell holds: a struct, an array, or something of the library's.
  pub data Cell (Raw : Type 0) : Type 0 where
    secret_key_ref : SecretKeyRef → Cell Raw
    git_spec : GitSpec → Cell Raw
    resource_spec : ResourceSpec → Cell Raw
    ollama_config : OllamaConfig → Cell Raw
    int32_cell : ℤ → Cell Raw
    selector_cell : Lib label_selector → Cell Raw
    task_spec : TaskSpecObject → Cell Raw
    task_status : TaskStatusObject → Cell Raw
    task : TaskObject → Cell Raw
    pool_spec : PoolSpecObject → Cell Raw
    pool_status : PoolStatusObject → Cell Raw
    pool : PoolObject → Cell Raw
    list_object : ListObject → Cell Raw
    strings : List Text → Cell Raw
    conditions : List (Lib condition) → Cell Raw
    tasks : List TaskObject → Cell Raw
    pools : List PoolObject → Cell Raw
    raw : Raw → Cell Raw
