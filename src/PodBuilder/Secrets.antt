-- ===== src/PodBuilder/Secrets.antt =====
-- Which containers of a pod see a secret key, and what the agent is told of the branches.
use kbrain.Prelude.{
  Option, none, some, List, [], ◌∷◌, ◌++◌, ◌≡◌, ◌≢◌, ◌⊎◌, inl, inr, refl, All, if◌then◌else◌,
}
use kbrain.Prelude.Text.{Text, lit, is_empty}
use kbrain.Api.{AgentTask, SecretKeyRef, Pod, EnvVar, EnvValue, value, secret_key_ref}
use kbrain.Effects.{Libs, ok}
use kbrain.PodBuilder.Base.{git_clone_init_container, agent_container, common_agent_env}
use kbrain.PodBuilder.Cloud.{build_cloud, api_key_env_vars}
use kbrain.PodBuilder.Ollama.{ollama_pod, ollama_sidecar, model_pull_init}
use kbrain.PodBuilder.Build.{PodBuilder, cloud_pod_builder, build}
use kbrain.PodBuilder.Cases.{build_elim}
use kbrain.PodBuilder.WellFormed.{all_containers}

-- The secret keys among the values of an environment.
abbrev pub secret_refs_value : EnvValue → List SecretKeyRef → List SecretKeyRef
secret_refs_value (value v) refs = refs
secret_refs_value (secret_key_ref r) refs = r ∷ refs

abbrev pub secret_refs : List EnvVar → List SecretKeyRef
secret_refs [] = []
secret_refs (e ∷ env) = secret_refs_value e.source (secret_refs env)

-- The secret key of the task's API key, seen by the agent of a cloud pod.
pub record IsApiKey (t : AgentTask) (b : PodBuilder) (container : Text) (r : SecretKeyRef)
    : Type 0 where
  pub for_cloud : b ≡ cloud_pod_builder
  pub by_agent : container ≡ lit "agent"
  pub ref : SecretKeyRef
  pub configured : t.spec.api_key_secret_ref ≡ some ref
  pub same_secret : r.name ≡ ref.name
  pub same_key : ((ref.key ≢ []) × (r.key ≡ ref.key)) ⊎ ((ref.key ≡ []) × (r.key ≡ lit "api-key"))

-- The key that is asked for, by the one that the reference names.
key_cases :
    (k : Text)
    → let asked = if is_empty k then lit "api-key" else k in
      ((k ≢ []) × (asked ≡ k)) ⊎ ((k ≡ []) × (asked ≡ lit "api-key"))
unfolding is_empty
key_cases [] = inr (refl, refl)
key_cases (c ∷ k) = inl ((λ e. cc e), refl)

abbrev SeesOnlyApiKey : AgentTask → PodBuilder → Pod → Type 0
SeesOnlyApiKey t b p = All (λ c. All (IsApiKey t b c.name) (secret_refs c.env)) (all_containers p)

cloud_env-secrets :
    (t : AgentTask) (o : Option SecretKeyRef)
    → t.spec.api_key_secret_ref ≡ o
    → All
        (IsApiKey t cloud_pod_builder (lit "agent"))
        (secret_refs (common_agent_env t ++ api_key_env_vars t.spec.agent_type o))
unfolding common_agent_env api_key_env_vars
cloud_env-secrets t none e = tt
cloud_env-secrets t (some r) e = (
  record {
    for_cloud = refl;
    by_agent = refl;
    ref = r;
    configured = e;
    same_secret = refl;
    same_key = key_cases r.key;
  },
  tt,
)

build_cloud-SeesOnlyApiKey : (t : AgentTask) → SeesOnlyApiKey t cloud_pod_builder (build_cloud t)
unfolding build_cloud git_clone_init_container agent_container
build_cloud-SeesOnlyApiKey t = (tt, (cloud_env-secrets t t.spec.api_key_secret_ref refl, tt))

-- In a pod that is built, the only secret key that any container sees in its environment is that of
-- the task's API key, the key that its reference names or `api-key` where it names none, and only the
-- agent of a cloud pod sees it.
pub build-SeesOnlyApiKey :
    (libs : Libs) (b : PodBuilder) (t : AgentTask) (p : Pod)
    → build libs b t ≡ some (ok p)
    → All (λ c. All (IsApiKey t b c.name) (secret_refs c.env)) (all_containers p)
unfolding ollama_pod git_clone_init_container agent_container ollama_sidecar model_pull_init
    common_agent_env
build-SeesOnlyApiKey libs b t p h =
    build_elim libs t (SeesOnlyApiKey t) (build_cloud-SeesOnlyApiKey t)
      (λ limits. (tt, (tt, (tt, (tt, tt))))) b p h
