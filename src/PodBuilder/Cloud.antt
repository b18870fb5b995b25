-- ===== src/PodBuilder/Cloud.antt =====
-- cloud.go: the pod of a task whose model is served by a cloud API.
use kbrain.Prelude.{false, Option, none, some, List, [], ◌∷◌, ◌++◌, if◌then◌else◌}
use kbrain.Prelude.Text.{Text, lit, text_eq, is_empty}
use kbrain.Api.{AgentTask, SecretKeyRef, Pod, EnvVar, secret_key_ref, never, pod_pending}
use kbrain.PodBuilder.Base.{
  base_pod_meta, common_agent_env, agent_container, git_clone_init_container, workspace_volume,
  git_credentials_volume,
}

abbrev key_variable : Text → Text
key_variable agent_type =
    if text_eq agent_type (lit "codex")
    then lit "OPENAI_API_KEY"
    else if text_eq agent_type (lit "aider")
    then lit "ANTHROPIC_API_KEY"
    else lit "ANTHROPIC_API_KEY"

-- `apiKeyEnvVars`, after the test for a reference.
unfoldable pub api_key_env_vars : Text → Option SecretKeyRef → List EnvVar
api_key_env_vars agent_type none = []
api_key_env_vars agent_type (some ref) =
    record {
      name = key_variable agent_type;
      source =
          secret_key_ref
            (record { name = ref.name; key = if is_empty ref.key then lit "api-key" else ref.key });
    }
    ∷ []

-- `CloudPodBuilder.Build`; its error is always nil. A new pod has the zero status.
unfoldable pub build_cloud : AgentTask → Pod
build_cloud task = record {
  meta = base_pod_meta task;
  spec = record {
    restart_policy = never;
    automount_service_account_token = some false;
    init_containers = git_clone_init_container task ∷ [];
    containers =
        agent_container task (
          common_agent_env task
          ++ api_key_env_vars task.spec.agent_type task.spec.api_key_secret_ref)
        ∷ [];
    volumes = workspace_volume ∷ git_credentials_volume task ∷ [];
  };
  status = record { phase = pod_pending; container_statuses = [] };
}
