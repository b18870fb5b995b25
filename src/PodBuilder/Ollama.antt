-- ===== src/PodBuilder/Ollama.antt =====
-- ollama.go: the pod of a task whose model runs in a sidecar.
use kbrain.Prelude.{Bool, false, Option, none, some, [], ◌∷◌, ◌++◌, if◌then◌else◌}
use kbrain.Prelude.Text.{Text, lit, is_empty}
use kbrain.Api.{
  AgentTask, OllamaConfig, ResourceSpec, Dict, Pod, Container, Probe, never, empty_dir, pod_pending,
}
use kbrain.Effects.{Libs}
use kbrain.PodBuilder.Base.{
  base_pod_meta, common_agent_env, agent_container, git_clone_init_container, workspace_volume,
  git_credentials_volume, mount, env_var, bare_container,
}

unfoldable pub ollama_image : Option OllamaConfig → Text
ollama_image none = lit "ollama/ollama:latest"
ollama_image (some c) = if is_empty c.image then lit "ollama/ollama:latest" else c.image

unfoldable pub wants_gpu : Option OllamaConfig → Bool
wants_gpu none = false
wants_gpu (some c) = c.use_gpu

unfoldable pub gpu_limit : Option ResourceSpec → Text
gpu_limit none = lit "1"
gpu_limit (some r) = if is_empty r.gpu_limit then lit "1" else r.gpu_limit

-- The sidecar's limits; none is the panic of `resource.MustParse`.
unfoldable pub gpu_limits : Libs → AgentTask → Option Dict
gpu_limits libs task =
    let limit = gpu_limit task.spec.resources in
    if wants_gpu task.spec.ollama_config
    then if libs.is_quantity limit then some ((lit "nvidia.com/gpu", limit) ∷ []) else none
    else some []

abbrev tags_probe : Probe
tags_probe = record {
  path = lit "/api/tags";
  port = 11434;
  initial_delay_seconds = 0;
  period_seconds = 10;
  failure_threshold = 0;
}

unfoldable pub ollama_sidecar : AgentTask → Dict → Container
unfolding ollama_image
ollama_sidecar task limits =
    record (bare_container (lit "ollama") (ollama_image task.spec.ollama_config)) {
      ports = record { container_port = 11434; name = lit "ollama"; protocol = lit "TCP" } ∷ [];
      startup_probe = some (record tags_probe {
        initial_delay_seconds = 5;
        period_seconds = 5;
        failure_threshold = 60;
      });
      readiness_probe = some tags_probe;
      volume_mounts = mount (lit "ollama-cache") (lit "/root/.ollama") false ∷ [];
      limits = limits;
    }

unfoldable pub pull_script : Text → Text
pull_script model =
    lit
      "echo \"Waiting for ollama to be ready...\"\nuntil curl -sf http://localhost:11434/api/tags > /dev/null 2>&1; do\n  sleep 2\ndone\necho \"Pulling model "
    ++ (model
        ++ (lit "...\"\ncurl -sf -X POST http://localhost:11434/api/pull -d '{\"name\": \""
            ++ (model ++ lit "\"}' | head -c 0\necho \"Model pull complete.\"\n")))

unfoldable pub model_pull_init : AgentTask → Container
unfolding pull_script
model_pull_init task = record (bare_container (lit "model-pull") (lit "curlimages/curl:latest")) {
  command = lit "/bin/sh" ∷ lit "-c" ∷ [];
  args = pull_script task.spec.model_name ∷ [];
}

unfoldable pub ollama_pod : AgentTask → Dict → Pod
ollama_pod task limits = record {
  meta = base_pod_meta task;
  spec = record {
    restart_policy = never;
    automount_service_account_token = some false;
    init_containers = git_clone_init_container task ∷ model_pull_init task ∷ [];
    containers =
        ollama_sidecar task limits
        ∷ agent_container task (
            common_agent_env task
            ++ env_var (lit "OLLAMA_HOST") (lit "http://localhost:11434") ∷ [])
        ∷ [];
    volumes =
        workspace_volume
        ∷ git_credentials_volume task
        ∷ record { name = lit "ollama-cache"; source = empty_dir }
        ∷ [];
  };
  status = record { phase = pod_pending; container_statuses = [] };
}

-- `OllamaPodBuilder.Build`; its error is always nil, and none is a panic.
unfoldable pub build_ollama : Libs → AgentTask → Option Pod
unfolding ollama_pod
build_ollama libs task = elim (gpu_limits libs task) [
  | none ↦ none
  | some limits ↦ some (ollama_pod task limits)
]
