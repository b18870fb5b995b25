-- ===== src/Tests/Tasks.antt =====
-- Instances of the theorems on the task controller, and a run of it.
use mathlib.Core.List.{Memᴰ}
use kbrain.Prelude.Int.{pos}
use kbrain.Prelude.{
  ◌≢◌, ◌+◌, ◌-◌, sym, subst, take, ℕ, zero, suc, ◌*◌, ◌≤◌, ◌<◌, none, some, [], ◌∷◌, ◌++◌, ◌≡◌,
  refl, ◌⊎◌, inl, length, arith,
}
use kbrain.Prelude.Text.{Text, lit, text_eq, is_empty}
use kbrain.Api.{
  AgentTask, AgentTaskPhase, unset, initializing, running, Pod, pod_succeeded, pod_failed, Time,
}
use kbrain.Effects.{
  PanicFree, is_not_found, Key, now, Always, Anything, get_pod, delete_pod, update_task_status,
  calls, run,
}
use kbrain.PodBuilder.Cloud.{build_cloud}
use kbrain.PodBuilder.Build.{build, new_pod_builder}
use kbrain.TaskController.Outcome.{requeue_in, second, minute}
use kbrain.TaskController.Status.{set_phase}
use kbrain.TaskController.Title.{truncate}
use kbrain.TaskController.Title.Bounds.{OneLine, IsFirstLine, truncate_bounds}
use kbrain.TaskController.Running.{handle_running}
use kbrain.TaskController.Reconcile.{is_zero, reconcile_task, reconcile}
use kbrain.TaskController.Writes.{failed_at}
use kbrain.TaskController.Footprints.Initializing.{adopted}
use kbrain.TaskController.Tracking.{Tracks}
use kbrain.TaskController.Lifecycle.{FollowsLifecycle, Confined, Gated}
use kbrain.TaskController.Lawful.{reconcile-FollowsLifecycle, reconcile-Confined, reconcile-Gated}
use kbrain.TaskController.Settled.{IsSettledIn}
use kbrain.TaskController.Timeouts.{
  HasTimeout, own_pod, KeepsPods, adopted-calls, handle_running-times_out, adopted_never_times_out,
}
use kbrain.TaskController.Panics.{reconcile_task-PanicFree}
use kbrain.PodBuilder.Ollama.{wants_gpu}
use kbrain.Tests.Samples.{sample_libs, in_phase, Cluster, cluster_of, sample_server}

abbrev task_key : Key
task_key = record { name = lit "fix"; namespace = lit "default" }

reconcile-FollowsLifecycle_example : Tracks FollowsLifecycle none (reconcile sample_libs task_key)
reconcile-FollowsLifecycle_example = reconcile-FollowsLifecycle sample_libs task_key

reconcile-Confined_example : Tracks (Confined sample_libs) none (reconcile sample_libs task_key)
reconcile-Confined_example = reconcile-Confined sample_libs task_key

reconcile-Gated_example : Tracks Gated none (reconcile sample_libs task_key)
reconcile-Gated_example = reconcile-Gated sample_libs task_key

settled_in : (p : AgentTaskPhase) → IsSettledIn sample_libs (in_phase p)
unfolding text_eq
settled_in p = record { lives = unfold is_zero in refl; finalized = unfold lit in refl }

abbrev pod : Pod
pod = build_cloud (in_phase running)

-- Started 1000 seconds before the clock of the server, with a timeout of one minute, and no end.
abbrev long_running : AgentTask
long_running = record (in_phase running) {
  status = record (in_phase running).status { pod_name = lit "agent"; start_time = some 0 };
}

abbrev late_cluster : Cluster
late_cluster = record (cluster_of long_running) { pod = some pod }

minute_timeout : HasTimeout sample_libs long_running minute
unfolding text_eq lit
minute_timeout = inl refl

unfinished : (pod.status.phase ≢ pod_succeeded) × (pod.status.phase ≢ pod_failed)
unfolding build_cloud
unfinished = ((λ e. cc e), (λ e. cc e))

handle_running-times_out_example :
    ((0 + minute < 1000000000000)
      × (ended : Time) × (calls sample_server (handle_running sample_libs long_running) late_cluster
          ≡ get_pod (own_pod long_running)
            ∷ now
            ∷ delete_pod pod
            ∷ now
            ∷ update_task_status (
                failed_at long_running ended
                  (lit "task timed out after " ++ sample_libs.show_duration (pos minute)))
            ∷ []))
    ⊎ ((1000000000000 ≤ 0 + minute)
        × (calls sample_server (handle_running sample_libs long_running) late_cluster
            ≡ get_pod (own_pod long_running) ∷ now ∷ [])
        × ((run sample_server (handle_running sample_libs long_running) late_cluster).0
            ≡ some (requeue_in (15 * second))))
handle_running-times_out_example =
    handle_running-times_out sample_server sample_libs long_running pod 0 minute late_cluster
      late_cluster (unfold is_empty lit in refl) refl minute_timeout (omega arith) refl unfinished.0
      unfinished.1

abbrev new_task : AgentTask
new_task = in_phase initializing

abbrev found_cluster : Cluster
found_cluster = record (cluster_of new_task) { pod = some pod }

adopted_never_times_out_example :
    Always KeepsPods Anything (handle_running sample_libs (adopted new_task))
adopted_never_times_out_example =
    adopted_never_times_out sample_server sample_libs new_task (adopted new_task) pod found_cluster
      found_cluster refl refl
      (subst (Memᴰ (update_task_status (adopted new_task)))
        (sym
          (adopted-calls sample_server sample_libs new_task pod found_cluster found_cluster refl))
        (Memᴰ.tail (Memᴰ.head refl)))

truncate_bounds_example :
    (r : Text) × (line : Text) × (truncate (lit "Fix the build\nnow") 8 ≡ some r)
    × IsFirstLine (lit "Fix the build\nnow") line
    × OneLine r
    × (length r ≤ 8)
    × (((length line ≤ 8) × (r ≡ line))
        ⊎ ((8 < length line) × (length r ≡ 8) × (r ≡ take (8 - 3) line ++ lit "...")))
truncate_bounds_example = truncate_bounds (lit "Fix the build\nnow") 8 (omega arith)

-- A fresh task, on the sample cluster: validated by the first Reconcile, its pod created by the second.
abbrev after : ℕ → Cluster
after zero = cluster_of (in_phase unset)
after (suc n) = (run sample_server (reconcile sample_libs task_key) (after n)).1

first_validates : (after 1).task.status.phase ≡ initializing
unfolding run reconcile is_zero text_eq lit is_empty set_phase
first_validates = refl

second_launches : (after 2).task.status.phase ≡ running
unfolding run reconcile is_zero text_eq lit is_empty set_phase is_not_found build new_pod_builder
second_launches = refl

reconcile_task-PanicFree_example : PanicFree (reconcile_task sample_libs (in_phase unset))
reconcile_task-PanicFree_example =
    reconcile_task-PanicFree sample_libs (in_phase unset) (inl (settled_in unset).finalized)
      (inl (unfold wants_gpu in refl))
