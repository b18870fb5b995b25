-- ===== src/Tests/Histories.antt =====
-- Instances of the theorems on the status writes of a task.
use kbrain.Prelude.Text.{lit}
use kbrain.Api.{AgentTask, initializing}
use kbrain.Effects.{Key}
use kbrain.Effects.LastWrites.{WritesLast}
use kbrain.TaskController.Writes.{moved}
use kbrain.TaskController.Reconcile.{reconcile}
use kbrain.TaskController.LastWrites.{reconcile-WritesLast}
use kbrain.Tests.Samples.{sample_libs, gpu_task}

abbrev started : AgentTask
started = moved gpu_task initializing (lit "Validated, creating agent pod")

abbrev key : Key
key = record { name = lit "fix"; namespace = lit "default" }

reconcile-WritesLast_example : WritesLast (reconcile sample_libs key)
reconcile-WritesLast_example = reconcile-WritesLast sample_libs key
