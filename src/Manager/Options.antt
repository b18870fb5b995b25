-- ===== src/Manager/Options.antt =====
-- What the manager of the controller library is told: its servers, checks and controllers.
use kbrain.Prelude.{ℕ, Bool, Option, none, some, List, [], ◌∷◌, ◌*◌, if◌then◌else◌}
use kbrain.Prelude.Text.{Text, lit}
use kbrain.Api.{AgentTask}
use kbrain.Effects.{Key}
use kbrain.TaskController.Outcome.{second}
use kbrain.PoolController.Tasks.{map_task_to_pool}
use kbrain.Manager.Flags.{Flags}
use kbrain.Manager.Tls.{TlsOption, initial_tls_opts}

-- `filters.WithAuthenticationAndAuthorization`.
pub data FilterProvider : Type 0 where
  with_authentication_and_authorization : FilterProvider

pub record MetricsOptions : Type 0 where
  pub bind_address : Text
  pub secure_serving : Bool
  pub filter_provider : Option FilterProvider
  pub tls_opts : List TlsOption

pub record ManagerOptions : Type 0 where
  pub metrics : MetricsOptions
  pub webhook_tls_opts : List TlsOption
  pub health_probe_bind_address : Text
  pub leader_election : Bool
  pub leader_election_id : Text

-- The metrics server's options, before a certificate is added.
unfoldable pub metrics_options : Flags → MetricsOptions
metrics_options f = record {
  bind_address = f.metrics_addr;
  secure_serving = f.secure_metrics;
  filter_provider = if f.secure_metrics then some with_authentication_and_authorization else none;
  tls_opts = initial_tls_opts f.enable_http2;
}

unfoldable pub manager_options : Flags → List TlsOption → MetricsOptions → ManagerOptions
manager_options f webhook_tls_opts metrics = record {
  metrics = metrics;
  webhook_tls_opts = webhook_tls_opts;
  health_probe_bind_address = f.probe_addr;
  leader_election = f.enable_leader_election;
  leader_election_id = lit "917b3a45.kbrain.io";
}

-- The git client, by the timeout of its requests.
pub record GitClient : Type 0 where
  pub timeout : ℕ

abbrev pub new_client : GitClient
new_client = record { timeout = 30 * second }

pub data Kind : Type 0 where
  agent_task agent_pool pod : Kind

-- The reconcilers; their client and scheme are the manager's.
pub data Reconciler : Type 0 where
  agent_task_reconciler : GitClient → Reconciler
  agent_pool_reconciler : Reconciler

-- What a controller is built from: the kind that it reconciles, the kinds whose objects wake their
-- owner, and the kinds whose objects wake what a function maps them to.
pub record ControllerSetup : Type 0 where
  pub for_kind : Kind
  pub owns : List Kind
  pub watches : List (Kind × (Option AgentTask → List Key))
  pub name : Text
  pub reconciler : Reconciler

abbrev pub task_set_up : GitClient → ControllerSetup
task_set_up git_client = record {
  for_kind = agent_task;
  owns = pod ∷ [];
  watches = [];
  name = lit "agenttask";
  reconciler = agent_task_reconciler git_client;
}

abbrev pub pool_set_up : ControllerSetup
pool_set_up = record {
  for_kind = agent_pool;
  owns = [];
  watches = (agent_task, map_task_to_pool) ∷ [];
  name = lit "agentpool";
  reconciler = agent_pool_reconciler;
}
