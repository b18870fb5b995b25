-- ===== src/Tests/Samples.antt =====
-- Sample library functions, tasks, pools and servers.
use kbrain.Prelude.{
  ℕ, Bool, true, false, Option, none, some, List, [], ◌∷◌, ◌++◌, ◌*◌, if◌then◌else◌,
}
use kbrain.Prelude.Int.{pos}
use kbrain.Prelude.Text.{Text, lit, text_eq}
use kbrain.Api.{
  ObjectMeta, SecretKeyRef, GitSpec, AgentTask, AgentTaskSpec, AgentTaskStatus, AgentTaskPhase,
  unset, AgentPool, Pod,
}
use kbrain.Effects.{
  Libs, Result, ok, err, api, not_found, Call, Answer, Server, get_task, get_pool, get_pod,
  get_secret, list_tasks, update_task, update_task_status, update_pool_status, create_pod,
  delete_pod, now, range_start, http_do,
}
use kbrain.TaskController.Outcome.{minute}
use kbrain.TaskController.Status.{with_status}
use kbrain.Tests.Sorting.{sort_by, sort_by-Perm, sort_by-IsSortedBy}
use kbrain.PoolController.Grants.{SortLaws}

abbrev pub without : Text → List Text → List Text
without s [] = []
without s (t ∷ ts) = let rest = without s ts in if text_eq t s then rest else t ∷ rest

abbrev pub has : Text → List Text → Bool
has s [] = false
has s (t ∷ ts) = if text_eq t s then true else has s ts

abbrev pub with_finalizers : AgentTask → List Text → AgentTask
with_finalizers t fs = record t { meta = record t.meta { finalizers = fs } }

-- Two durations and two quantities are understood, and each body of a response is taken for a URL.
abbrev pub sample_libs : Libs
sample_libs = record {
  quote = λ s. lit "\"" ++ (s ++ lit "\"");
  parse_duration = λ s.
      if text_eq s (lit "30m")
      then some (pos (30 * minute))
      else if text_eq s (lit "1m")
      then some (pos minute)
      else none;
  show_duration = λ d. lit "1m0s";
  marshal = λ d. lit "{}";
  unmarshal = λ url number body. ok (body, pos 7);
  url_error = λ url. none;
  is_quantity = λ s. if text_eq s (lit "1") then true else text_eq s (lit "2");
  contains_finalizer = λ t f. has f t.finalizers;
  add_finalizer = λ t f. with_finalizers t (f ∷ t.finalizers);
  remove_finalizer = λ t f. with_finalizers t (without f t.finalizers);
  set_controller_reference =
      λ t p. ok (record p { meta = record p.meta { owner_references = t.name ∷ [] } });
  set_string = λ d. lit "team=core";
  parse_selector = λ s. ok s;
  sort_slice = sort_by;
}

pub sample_libs-SortLaws : SortLaws sample_libs
sample_libs-SortLaws = record { rearranges = sort_by-Perm; sorts = sort_by-IsSortedBy }

abbrev pub meta_of : Text → ℕ → ObjectMeta
meta_of name created = record {
  name = name;
  namespace = lit "default";
  labels = [];
  annotations = [];
  finalizers = lit "agents.kbrain.io/finalizer" ∷ [];
  creation_timestamp = created;
  deletion_timestamp = none;
  owner_references = [];
}

abbrev pub sample_git : GitSpec
sample_git = record {
  repo_url = lit "https://github.com/acme/app.git";
  base_branch = lit "main";
  target_branch = [];
  work_branch = [];
  platform = lit "github";
}

abbrev pub api_key : SecretKeyRef
api_key = record { name = lit "anthropic"; key = [] }

abbrev pub sample_spec : AgentTaskSpec
sample_spec = record {
  description = lit "Fix the build\nand the tests";
  model_provider = lit "cloud";
  model_name = lit "sonnet";
  agent_type = lit "claude-code";
  git = sample_git;
  approval_mode = lit "manual";
  api_key_secret_ref = some api_key;
  git_credentials_secret_ref = some (record { name = lit "git"; key = lit "token" });
  resources = none;
  ollama_config = none;
  timeout = lit "1m";
  pool_ref = [];
}

abbrev pub no_status : AgentTaskStatus
no_status = record {
  phase = unset;
  pod_name = [];
  branch_name = [];
  merge_request_url = [];
  message = [];
  start_time = none;
  end_time = none;
  exit_code = none;
  output_summary = [];
  conditions = [];
}

abbrev pub in_phase : AgentTaskPhase → AgentTask
in_phase p = record {
  meta = meta_of (lit "fix") 5;
  spec = sample_spec;
  status = record no_status { phase = p };
}

-- A task of the pool `crew`, by its phase and its time of creation.
abbrev pub pooled : AgentTaskPhase → ℕ → AgentTask
pooled p created = record {
  meta = meta_of (lit "pooled") created;
  spec = record sample_spec { pool_ref = lit "crew" };
  status = record no_status { phase = p };
}

-- A task for ollama on a GPU.
abbrev pub gpu_task : AgentTask
gpu_task = record (in_phase unset) {
  spec = record sample_spec {
    model_provider = lit "ollama";
    ollama_config = some (record { image = []; use_gpu = true; pull_timeout = lit "10m" });
    resources = some (record { cpu_request = []; memory_request = []; gpu_limit = lit "many" });
  };
}

abbrev pub crew : AgentPool
crew = record {
  meta = meta_of (lit "crew") 1;
  spec = record {
    max_concurrency = pos 2;
    default_model_provider = [];
    default_model_name = [];
    default_agent_type = [];
    git = sample_git;
    default_api_key_secret_ref = none;
    default_git_credentials_secret_ref = none;
    selector = none;
    queue_strategy = lit "fifo";
  };
  status = record {
    active_agents = pos 0;
    queued_tasks = pos 0;
    completed_tasks = pos 0;
    failed_tasks = pos 0;
    active_task_names = [];
    conditions = [];
  };
}

-- The same pool with a selector.
abbrev pub labelled_crew : AgentPool
labelled_crew = record crew {
  spec = record crew.spec { selector = some ((lit "team", lit "core") ∷ []) };
}

abbrev pub crew_tasks : AgentTaskPhase → AgentTaskPhase → AgentTaskPhase → List AgentTask
crew_tasks p q r = pooled p 30 ∷ pooled q 10 ∷ pooled r 20 ∷ []

-- What a server holds: one task, one pool, its tasks, a pod or none, and the time.
pub record Cluster : Type 0 where
  pub task : AgentTask
  pub pool : AgentPool
  pub tasks : List AgentTask
  pub pod : Option Pod
  pub clock : ℕ

abbrev missing : {A : Type 0} → Result A
missing = err (api not_found (lit "not found"))

-- Reads answer what is held, writes are stored, and the git host creates what it is asked for.
abbrev sample_answer : (c : Call) → Cluster → Answer c × Cluster
sample_answer (get_task k) s = (ok s.task, s)
sample_answer (get_pool k) s = (ok s.pool, s)
sample_answer (get_pod k) s = (elim s.pod [ none ↦ missing | some p ↦ ok p ], s)
sample_answer (get_secret k) s = (ok (record { content = (lit "token", lit "t0k3n") ∷ [] }), s)
sample_answer (list_tasks o) s = (ok s.tasks, s)
sample_answer (update_task t) s = (ok t, record s { task = with_status t s.task.status })
sample_answer (update_task_status t) s = (ok t, record s { task = with_status s.task t.status })
sample_answer (update_pool_status p) s = (ok p, record s { pool = p })
sample_answer (create_pod p) s = (ok p, record s { pod = some p })
sample_answer (delete_pod p) s = (ok tt, record s { pod = none })
sample_answer now s = (s.clock, s)
sample_answer (range_start n) s = (0, s)
sample_answer (http_do r) s =
    (ok (record { status_code = 201; body = lit "https://github.com/acme/app/pull/7" }), s)

abbrev pub sample_server : Server Cluster
sample_server = record { answer = sample_answer }

abbrev pub cluster_of : AgentTask → Cluster
cluster_of t = record { task = t; pool = crew; tasks = []; pod = none; clock = 1000000000000 }
