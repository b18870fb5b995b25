-- ===== src/PodBuilder/Cases.antt =====
-- The pods that Build returns are those of the two builders, and when it panics.
use kbrain.Prelude.{true, false, Option, none, some, ◌≡◌, ◌↔◌, subst, Option-cases, inl, inr, arith}
use kbrain.Prelude.Text.{text_eq, lit}
use kbrain.Api.{AgentTask, Dict, Pod}
use kbrain.Effects.{Libs, Result, ok}
use kbrain.PodBuilder.Cloud.{build_cloud}
use kbrain.PodBuilder.Ollama.{build_ollama, ollama_pod, gpu_limits, gpu_limit, wants_gpu}
use kbrain.PodBuilder.Build.{
  PodBuilder, cloud_pod_builder, ollama_pod_builder, new_pod_builder, build,
}

none-some : {p : Pod} → ◌≡◌ {A = Option (Result Pod)} none (some (ok p)) → ⊥
none-some h = cc

some-some : {p q : Pod} → ◌≡◌ {A = Option (Result Pod)} (some (ok p)) (some (ok q)) → p ≡ q
some-some h = cc

-- What holds of the pods of both builders holds of every pod that is built.
pub build_elim {ℓ} :
    (libs : Libs) (t : AgentTask) (P : PodBuilder → Pod → Type ℓ)
    → P cloud_pod_builder (build_cloud t)
    → ((limits : Dict) → P ollama_pod_builder (ollama_pod t limits))
    → (b : PodBuilder) (p : Pod) → build libs b t ≡ some (ok p)
    → P b p
unfolding build build_ollama
build_elim libs t P c o cloud_pod_builder p h = subst (P cloud_pod_builder) (some-some h) c
build_elim libs t P c o ollama_pod_builder p h = elim (Option-cases (gpu_limits libs t)) [
  | inl e ↦ absurd (none-some (rw (e, build, build_ollama) at h))
  | inr (limits, e) ↦
      subst (P ollama_pod_builder) (some-some (rw (e, build, build_ollama) at h)) (o limits)
]

-- Building the pod of a task panics exactly if the model provider is ollama, a GPU is asked for, and
-- the limit for it is no quantity.
pub build-none_iff :
    (libs : Libs) (t : AgentTask)
    → (build libs (new_pod_builder t) t ≡ none) ↔ (
        (text_eq t.spec.model_provider (lit "ollama") ≡ true)
        × (wants_gpu t.spec.ollama_config ≡ true)
        × (libs.is_quantity (gpu_limit t.spec.resources) ≡ false))
unfolding build build_ollama gpu_limits new_pod_builder
build-none_iff libs t = (λ h. ground arith, λ h. ground arith)
