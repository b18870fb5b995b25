-- ===== src/TaskController/Status.antt =====
-- setPhase and setFailed.
use kbrain.Prelude.{Bool, true, false, Option, none, some, if◌then◌else◌}
use kbrain.Prelude.Text.{Text, lit}
use kbrain.Api.{AgentTask, AgentTaskStatus, AgentTaskPhase, succeeded, failed, Time}
use kbrain.Effects.{wrap, ok, err, update_task_status, now, Program, done, perform, ◌>>=◌}
use kbrain.TaskController.Outcome.{Outcome, finished, failure, requeue_now}

-- `phase == Succeeded || phase == Failed`.
unfoldable pub is_terminal : AgentTaskPhase → Bool
is_terminal succeeded = true
is_terminal failed = true
is_terminal _ = false

abbrev pub with_status : AgentTask → AgentTaskStatus → AgentTask
with_status task status = record task { status = status }

-- `setPhase`.
unfoldable pub set_phase : AgentTask → AgentTaskPhase → Text → Program Outcome
set_phase task phase message = do
  updated ← perform (
      update_task_status
        (with_status task (record task.status { phase = phase; message = message })))
  elim updated [
    | err e ↦ done (failure (wrap (lit "updating status") e))
    | ok t ↦ done (if is_terminal phase then finished else requeue_now)
  ]

-- An end time that is set already is kept.
unfoldable pub or_now : Option Time → Time → Option Time
or_now none time = some time
or_now (some t) time = some t

-- `setFailed`.
unfoldable pub set_failed : AgentTask → Text → Program Outcome
unfolding set_phase or_now
set_failed task message = do
  time ← perform now
  set_phase (with_status task (record task.status { end_time = or_now task.status.end_time time }))
      failed message
