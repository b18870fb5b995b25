-- ===== src/Tests/Pods.antt =====
-- Instances of the theorems on the pods that are built.
use kbrain.Prelude.{true, false, none, some, ◌≡◌, ◌↔◌, refl, ◌⊎◌, inr, inl, All}
use kbrain.Prelude.Text.{lit, text_eq, is_empty}
use kbrain.Api.{AgentTask, Pod, unset, value}
use kbrain.PodBuilder.Cloud.{build_cloud}
use kbrain.PodBuilder.Ollama.{wants_gpu, gpu_limit}
use kbrain.PodBuilder.Build.{cloud_pod_builder, new_pod_builder, build}
use kbrain.PodBuilder.Cases.{build-none_iff}
use kbrain.PodBuilder.WellFormed.{IsWellFormed, all_containers, build-IsWellFormed}
use kbrain.PodBuilder.Secrets.{IsApiKey, secret_refs, build-SeesOnlyApiKey}
use kbrain.TaskController.CreatingMr.{source_branch, request_target}
use kbrain.TaskController.Status.{set_phase}
use kbrain.TaskController.Initializing.{pod_created}
use kbrain.TaskController.Footprints.Initializing.{launched}
use kbrain.TaskController.Branches.{env_value, branches_agree}
use kbrain.Tests.Samples.{sample_libs, in_phase, gpu_task}

abbrev task : AgentTask
task = in_phase unset

abbrev cloud_pod : Pod
cloud_pod = build_cloud task

-- The GPU limit "many" is no quantity.
gpu_panics : build sample_libs (new_pod_builder gpu_task) gpu_task ≡ none
unfolding text_eq is_empty lit
gpu_panics =
    (build-none_iff sample_libs gpu_task).1
      (unfold text_eq lit in refl, unfold wants_gpu in refl, unfold gpu_limit in refl)

build-none_iff_example : (build sample_libs (new_pod_builder gpu_task) gpu_task ≡ none) ↔ (
    (text_eq gpu_task.spec.model_provider (lit "ollama") ≡ true)
    × (wants_gpu gpu_task.spec.ollama_config ≡ true)
    × (sample_libs.is_quantity (gpu_limit gpu_task.spec.resources) ≡ false))
build-none_iff_example = build-none_iff sample_libs gpu_task

build-IsWellFormed_example : IsWellFormed task cloud_pod
build-IsWellFormed_example =
    build-IsWellFormed sample_libs cloud_pod_builder task cloud_pod (unfold build in refl)

build-SeesOnlyApiKey_example :
    All
      (λ c. All (IsApiKey task cloud_pod_builder c.name) (secret_refs c.env))
      (all_containers cloud_pod)
build-SeesOnlyApiKey_example =
    build-SeesOnlyApiKey sample_libs cloud_pod_builder task cloud_pod (unfold build in refl)

-- The task as it is written when its pod is created.
abbrev recorded : AgentTask
recorded = launched task cloud_pod 9

branches_agree_example :
    All
      (λ c.
        (text_eq c.name (lit "agent") ≡ false)
        ⊎ ((env_value (lit "GIT_BRANCH") c.env ≡ some (value (source_branch recorded)))
            × (env_value (lit "TARGET_BRANCH") c.env ≡ some (value (request_target recorded)))))
      cloud_pod.spec.containers
branches_agree_example =
    branches_agree sample_libs cloud_pod_builder task recorded cloud_pod cloud_pod
      (unfold build in refl) (unfold pod_created in unfold set_phase in inr (9, inl refl))
