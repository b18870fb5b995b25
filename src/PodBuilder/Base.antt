-- ===== src/PodBuilder/Base.antt =====
-- podbuilder.go: names, branches, metadata, environment and volumes.
use kbrain.Prelude.{Bool, true, false, none, some, List, [], ◌∷◌, ◌++◌, if◌then◌else◌}
use kbrain.Prelude.Text.{Text, lit, text_eq, is_empty}
use kbrain.Api.{
  AgentTask, ObjectMeta, Container, EnvVar, value, Volume, VolumeMount, empty_dir, secret,
}

-- `agentImage`.
unfoldable pub agent_image : Text → Text
agent_image agent_type =
    if text_eq agent_type (lit "claude-code")
    then lit "ghcr.io/agath/kbrain-agent-claude:latest"
    else if text_eq agent_type (lit "aider")
    then lit "ghcr.io/agath/kbrain-agent-aider:latest"
    else if text_eq agent_type (lit "codex")
    then lit "ghcr.io/agath/kbrain-agent-codex:latest"
    else lit "ghcr.io/agath/kbrain-agent-claude:latest"

-- `workBranch`.
unfoldable pub work_branch : AgentTask → Text
work_branch task =
    if is_empty task.spec.git.work_branch
    then lit "kbrain/" ++ task.name
    else task.spec.git.work_branch

-- `WorkBranchFor`.
unfoldable pub work_branch_for : AgentTask → Text
work_branch_for task = work_branch task

-- `targetBranch`.
unfoldable pub target_branch : AgentTask → Text
target_branch task =
    if is_empty task.spec.git.target_branch
    then task.spec.git.base_branch
    else task.spec.git.target_branch

-- The name that `basePodMeta` and the controller give the pod of a task.
unfoldable pub pod_name : AgentTask → Text
pod_name task = lit "agent-" ++ task.name

-- `basePodMeta`.
unfoldable pub base_pod_meta : AgentTask → ObjectMeta
unfolding pod_name
base_pod_meta task = record {
  name = pod_name task;
  namespace = task.namespace;
  labels =
      (lit "app.kubernetes.io/name", lit "kbrain-agent")
      ∷ (lit "app.kubernetes.io/instance", task.name)
      ∷ (lit "app.kubernetes.io/managed-by", lit "kbrain")
      ∷ (lit "kbrain.io/task", task.name)
      ∷ (lit "kbrain.io/agent-type", task.spec.agent_type)
      ∷ [];
  annotations = [];
  finalizers = [];
  creation_timestamp = 0;
  deletion_timestamp = none;
  owner_references = [];
}

abbrev pub mount : Text → Text → Bool → VolumeMount
mount name path read_only = record { name = name; mount_path = path; read_only = read_only }

abbrev pub env_var : Text → Text → EnvVar
env_var name v = record { name = name; source = value v }

-- A container with the zero value in every field that a composite literal leaves out.
abbrev pub bare_container : Text → Text → Container
bare_container name image = record {
  name = name;
  image = image;
  command = [];
  args = [];
  env = [];
  volume_mounts = [];
  ports = [];
  startup_probe = none;
  readiness_probe = none;
  limits = [];
}

-- The script of the init container.
unfoldable pub clone_script : AgentTask → Text → Text
clone_script task branch =
    lit "set -e\ngit clone --branch "
    ++ (task.spec.git.base_branch
        ++ (lit " --single-branch "
            ++ (task.spec.git.repo_url
                ++ (lit " /workspace/repo\ncd /workspace/repo\ngit checkout -b "
                    ++ (branch
                        ++ lit
                            "\ngit config user.email \"kbrain-agent@kbrain.io\"\ngit config user.name \"kbrain-agent\"\n")))))

-- `gitCloneInitContainer`.
unfoldable pub git_clone_init_container : AgentTask → Container
git_clone_init_container task =
    record (bare_container (lit "git-clone") (lit "alpine/git:latest")) {
      command = lit "/bin/sh" ∷ lit "-c" ∷ [];
      args = clone_script task (work_branch task) ∷ [];
      volume_mounts =
          mount (lit "workspace") (lit "/workspace") false
          ∷ mount (lit "git-credentials") (lit "/etc/git-credentials") true
          ∷ [];
      env = env_var (lit "GIT_TERMINAL_PROMPT") (lit "0") ∷ [];
    }

-- `commonAgentEnv`.
unfoldable pub common_agent_env : AgentTask → List EnvVar
common_agent_env task =
    env_var (lit "TASK_DESCRIPTION") task.spec.description
    ∷ env_var (lit "MODEL_NAME") task.spec.model_name
    ∷ env_var (lit "GIT_BRANCH") (work_branch task)
    ∷ env_var (lit "TARGET_BRANCH") (target_branch task)
    ∷ env_var (lit "GIT_REPO_URL") task.spec.git.repo_url
    ∷ env_var (lit "AGENT_TYPE") task.spec.agent_type
    ∷ env_var (lit "WORKSPACE") (lit "/workspace/repo")
    ∷ []

-- `workspaceVolume`.
unfoldable pub workspace_volume : Volume
workspace_volume = record { name = lit "workspace"; source = empty_dir }

-- `gitCredentialsVolume`.
unfoldable pub git_credentials_volume : AgentTask → Volume
git_credentials_volume task = record {
  name = lit "git-credentials";
  source =
      secret
        (elim task.spec.git_credentials_secret_ref [
          | none ↦ lit "git-credentials"
          | some ref ↦ ref.name
        ])
        (some true);
}

-- The agent's container, which both builders write alike.
unfoldable pub agent_container : AgentTask → List EnvVar → Container
agent_container task env =
    record (bare_container (lit "agent") (agent_image task.spec.agent_type)) {
      command = lit "/entrypoint.sh" ∷ [];
      env = env;
      volume_mounts = mount (lit "workspace") (lit "/workspace") false ∷ [];
    }
