-- ===== src/Api/Pool.antt =====
-- AgentPool (api/v1alpha1/agentpool_types.go). Of the label selector the match labels are kept,
-- the only part that the operator reads.
use kbrain.Prelude.{Option, List}
use kbrain.Prelude.Int.{ℤ}
use kbrain.Prelude.Text.{Text}
use kbrain.Api.Meta.{Dict, ObjectMeta, Condition, SecretKeyRef, GitSpec}

pub record AgentPoolSpec : Type 0 where
  pub max_concurrency : ℤ  -- int32
  pub default_model_provider : Text
  pub default_model_name : Text
  pub default_agent_type : Text
  pub git : GitSpec
  pub default_api_key_secret_ref : Option SecretKeyRef
  pub default_git_credentials_secret_ref : Option SecretKeyRef
  pub selector : Option Dict
  pub queue_strategy : Text

pub record AgentPoolStatus : Type 0 where
  pub active_agents : ℤ  -- int32, as the next three
  pub queued_tasks : ℤ
  pub completed_tasks : ℤ
  pub failed_tasks : ℤ
  pub active_task_names : List Text
  pub conditions : List Condition

pub record AgentPool : Type 0 where
  pub meta : ObjectMeta
  pub open meta use *
  pub spec : AgentPoolSpec
  pub status : AgentPoolStatus
