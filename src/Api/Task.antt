-- ===== src/Api/Task.antt =====
-- AgentTask (api/v1alpha1/agenttask_types.go). A pointer field is an Option. The type metadata is left
-- out.
use kbrain.Prelude.{Bool, Option, List}
use kbrain.Prelude.Int.{ℤ}
use kbrain.Prelude.Text.{Text}
use kbrain.Api.Meta.{Time, ObjectMeta, Condition, SecretKeyRef, GitSpec}

pub record ResourceSpec : Type 0 where
  pub cpu_request : Text
  pub memory_request : Text
  pub gpu_limit : Text

pub record OllamaConfig : Type 0 where
  pub image : Text
  pub use_gpu : Bool
  pub pull_timeout : Text

pub record AgentTaskSpec : Type 0 where
  pub description : Text
  pub model_provider : Text
  pub model_name : Text
  pub agent_type : Text
  pub git : GitSpec
  pub approval_mode : Text
  pub api_key_secret_ref : Option SecretKeyRef
  pub git_credentials_secret_ref : Option SecretKeyRef
  pub resources : Option ResourceSpec
  pub ollama_config : Option OllamaConfig
  pub timeout : Text
  pub pool_ref : Text

-- The string type `AgentTaskPhase`: its seven constants, the empty string, and any other string.
pub data AgentTaskPhase : Type 0 where
  unset pending initializing running pushing_branch creating_mr succeeded failed : AgentTaskPhase
  other : Text → AgentTaskPhase

pub record AgentTaskStatus : Type 0 where
  pub phase : AgentTaskPhase
  pub pod_name : Text
  pub branch_name : Text
  pub merge_request_url : Text
  pub message : Text
  pub start_time : Option Time
  pub end_time : Option Time
  pub exit_code : Option ℤ
  pub output_summary : Text
  pub conditions : List Condition

-- `open meta` is Go's embedding of ObjectMeta.
pub record AgentTask : Type 0 where
  pub meta : ObjectMeta
  pub open meta use *
  pub spec : AgentTaskSpec
  pub status : AgentTaskStatus
