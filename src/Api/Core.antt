-- ===== src/Api/Core.antt =====
-- The parts of corev1 objects that the operator builds or reads: pods and secrets.
use kbrain.Prelude.{ℕ, Bool, Option, List}
use kbrain.Prelude.Int.{ℤ}
use kbrain.Prelude.Text.{Text}
use kbrain.Api.Meta.{Dict, ObjectMeta, SecretKeyRef}

-- An environment variable's value, or the secret key that it is taken from.
pub data EnvValue : Type 0 where
  value : Text → EnvValue
  secret_key_ref : SecretKeyRef → EnvValue

pub record EnvVar : Type 0 where
  pub name : Text
  pub source : EnvValue

pub record VolumeMount : Type 0 where
  pub name : Text
  pub mount_path : Text
  pub read_only : Bool

-- An HTTP GET probe; a delay or threshold of 0 leaves the cluster's default.
pub record Probe : Type 0 where
  pub path : Text
  pub port : ℕ
  pub initial_delay_seconds : ℕ
  pub period_seconds : ℕ
  pub failure_threshold : ℕ

-- A named TCP port.
pub record ContainerPort : Type 0 where
  pub container_port : ℕ
  pub name : Text
  pub protocol : Text

pub record Container : Type 0 where
  pub name : Text
  pub image : Text
  pub command : List Text
  pub args : List Text
  pub env : List EnvVar
  pub volume_mounts : List VolumeMount
  pub ports : List ContainerPort
  pub startup_probe : Option Probe
  pub readiness_probe : Option Probe
  -- resource limits, with the quantities as they are written
  pub limits : Dict

pub data VolumeSource : Type 0 where
  empty_dir : VolumeSource
  -- the secret's name, and whether it may be missing
  secret : Text → Option Bool → VolumeSource

pub record Volume : Type 0 where
  pub name : Text
  pub source : VolumeSource

pub data RestartPolicy : Type 0 where
  always on_failure never : RestartPolicy

pub record PodSpec : Type 0 where
  pub restart_policy : RestartPolicy
  pub automount_service_account_token : Option Bool
  pub init_containers : List Container
  pub containers : List Container
  pub volumes : List Volume

pub data PodPhase : Type 0 where
  pod_pending pod_running pod_succeeded pod_failed pod_unknown : PodPhase

-- The exit code of a terminated container; none while it waits or runs.
pub record ContainerStatus : Type 0 where
  pub name : Text
  pub terminated : Option ℤ

pub record PodStatus : Type 0 where
  pub phase : PodPhase
  pub container_statuses : List ContainerStatus

pub record Pod : Type 0 where
  pub meta : ObjectMeta
  pub open meta use *
  pub spec : PodSpec
  pub status : PodStatus

pub record Secret : Type 0 where
  pub content : Dict
