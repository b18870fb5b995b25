-- ===== src/Tests/Cleanup.antt =====
-- An instance of the theorem on deletion, for a task whose pod is there.
use kbrain.Prelude.{true, false, some, [], ◌∷◌, ◌≡◌, ◌⊎◌}
use kbrain.Prelude.Text.{lit, is_empty}
use kbrain.Api.{AgentTask, Pod, running}
use kbrain.Effects.{ok, err, Error, get_pod, delete_pod, update_task, calls}
use kbrain.PodBuilder.Cloud.{build_cloud}
use kbrain.TaskController.Deletion.{task_finalizer, handle_deletion}
use kbrain.TaskController.Cleanup.{named_pod, handle_deletion-calls}
use kbrain.Tests.Samples.{sample_libs, in_phase, no_status, Cluster, cluster_of, sample_server}

abbrev doomed : AgentTask
doomed = record (in_phase running) {
  status = record no_status { phase = running; pod_name = lit "agent-fix" };
}

abbrev cluster : Cluster
cluster = record (cluster_of doomed) { pod = some (build_cloud doomed) }

handle_deletion-calls_example :
    let removal = update_task (sample_libs.remove_finalizer doomed task_finalizer) in
    ((is_empty doomed.status.pod_name ≡ true)
      × (calls sample_server (handle_deletion sample_libs doomed) cluster ≡ removal ∷ []))
    ⊎ (((is_empty doomed.status.pod_name ≡ false)
          × (p : Pod) × ((sample_server.answer (get_pod (named_pod doomed)) cluster).0 ≡ ok p)
          × (calls sample_server (handle_deletion sample_libs doomed) cluster
              ≡ get_pod (named_pod doomed) ∷ delete_pod p ∷ removal ∷ []))
        ⊎ ((is_empty doomed.status.pod_name ≡ false)
            × (e : Error) × ((sample_server.answer (get_pod (named_pod doomed)) cluster).0 ≡ err e)
            × (calls sample_server (handle_deletion sample_libs doomed) cluster
                ≡ get_pod (named_pod doomed) ∷ removal ∷ [])))
handle_deletion-calls_example = handle_deletion-calls sample_server sample_libs doomed cluster
