-- ===== src/PodBuilder/WellFormed.antt =====
-- Every pod that is built is well formed: its mounts are declared, its containers have names of their
-- own, and it runs once, without the cluster's credentials.
use kbrain.Prelude.{
  Bool, true, false, some, List, [], ◌∷◌, ◌++◌, ◌≡◌, refl, All, map, not, ◌&&◌, ◌||◌,
}
use kbrain.Prelude.Text.{Text, lit, text_eq}
use kbrain.Api.{AgentTask, Dict, Pod, Container, never}
use kbrain.Effects.{Libs, ok}
use kbrain.PodBuilder.Base.{
  pod_name, base_pod_meta, git_clone_init_container, workspace_volume, git_credentials_volume,
  agent_container,
}
use kbrain.PodBuilder.Cloud.{build_cloud}
use kbrain.PodBuilder.Ollama.{ollama_pod, ollama_sidecar, model_pull_init}
use kbrain.PodBuilder.Build.{PodBuilder, build}
use kbrain.PodBuilder.Cases.{build_elim}

-- The text is one of the list.
unfoldable pub one_of : Text → List Text → Bool
unfolding text_eq
one_of s [] = false
one_of s (t ∷ ts) = text_eq s t || one_of s ts

unfoldable pub all_differ : List Text → Bool
unfolding one_of
all_differ [] = true
all_differ (t ∷ ts) = not (one_of t ts) && all_differ ts

abbrev pub all_containers : Pod → List Container
all_containers p = p.spec.init_containers ++ p.spec.containers

pub record IsWellFormed (t : AgentTask) (p : Pod) : Type 0 where
  pub named : p.name ≡ pod_name t
  pub placed : p.namespace ≡ t.namespace
  pub mounts_declared :
      All
        (λ c. All (λ m. one_of m.name (map (λ v. v.name) p.spec.volumes) ≡ true) c.volume_mounts)
        (all_containers p)
  pub names_differ : all_differ (map (λ c. c.name) (all_containers p)) ≡ true
  pub has_agent : one_of (lit "agent") (map (λ c. c.name) p.spec.containers) ≡ true
  pub runs_once : p.spec.restart_policy ≡ never
  pub no_token : p.spec.automount_service_account_token ≡ some false

build_cloud-IsWellFormed : (t : AgentTask) → IsWellFormed t (build_cloud t)
unfolding build_cloud base_pod_meta git_clone_init_container workspace_volume git_credentials_volume
    agent_container one_of all_differ lit
build_cloud-IsWellFormed t = record {
  named = refl;
  placed = refl;
  mounts_declared = ((refl, (refl, tt)), ((refl, tt), tt));
  names_differ = refl;
  has_agent = refl;
  runs_once = refl;
  no_token = refl;
}

ollama_pod-IsWellFormed : (t : AgentTask) (limits : Dict) → IsWellFormed t (ollama_pod t limits)
unfolding ollama_pod base_pod_meta git_clone_init_container workspace_volume git_credentials_volume
    agent_container ollama_sidecar model_pull_init one_of all_differ lit
ollama_pod-IsWellFormed t limits = record {
  named = refl;
  placed = refl;
  mounts_declared = ((refl, (refl, tt)), (tt, ((refl, tt), ((refl, tt), tt))));
  names_differ = refl;
  has_agent = refl;
  runs_once = refl;
  no_token = refl;
}

-- Whichever the builder, a pod that is built has the task's pod name and its namespace, mounts only
-- volumes that it declares, gives all its containers names that differ, has the agent among the
-- containers that are not init containers, never restarts, and mounts no service account token.
pub build-IsWellFormed :
    (libs : Libs) (b : PodBuilder) (t : AgentTask) (p : Pod)
    → build libs b t ≡ some (ok p)
    → IsWellFormed t p
build-IsWellFormed libs b t p h =
    build_elim libs t (λ _ q. IsWellFormed t q) (build_cloud-IsWellFormed t)
      (ollama_pod-IsWellFormed t) b p h
