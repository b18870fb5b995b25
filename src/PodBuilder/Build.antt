-- ===== src/PodBuilder/Build.antt =====
-- `NewPodBuilder` and the interface `PodBuilder`.
use kbrain.Prelude.{Option, none, some, if◌then◌else◌}
use kbrain.Prelude.Text.{lit, text_eq}
use kbrain.Api.{AgentTask, Pod}
use kbrain.Effects.{Libs, Result, ok}
use kbrain.PodBuilder.Cloud.{build_cloud}
use kbrain.PodBuilder.Ollama.{build_ollama}

-- The interface, by its two implementations.
pub data PodBuilder : Type 0 where
  cloud_pod_builder ollama_pod_builder : PodBuilder

-- `NewPodBuilder`.
unfoldable pub new_pod_builder : AgentTask → PodBuilder
new_pod_builder task =
    if text_eq task.spec.model_provider (lit "ollama")
    then ollama_pod_builder
    else if text_eq task.spec.model_provider (lit "cloud")
    then cloud_pod_builder
    else cloud_pod_builder

-- The method `Build`: none is a panic. Both implementations return a nil error.
unfoldable pub build : Libs → PodBuilder → AgentTask → Option (Result Pod)
build libs cloud_pod_builder task = some (ok (build_cloud task))
build libs ollama_pod_builder task = elim (build_ollama libs task) [
  | none ↦ none
  | some pod ↦ some (ok pod)
]
