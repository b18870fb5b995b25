-- ===== src/PodBuilder.antt =====
-- internal/podbuilder: the pod that runs an agent task. Base has the parts shared by both kinds of
-- pod (podbuilder.go), Cloud and Ollama the two builders (cloud.go, ollama.go).
pub mod Base
pub mod Cloud
pub mod Ollama
pub mod Build
pub mod Cases
pub mod WellFormed
pub mod Secrets
