-- ===== src/Tests/Progress.antt =====
-- Instances of the theorems on a cluster and a git host that cooperate.
use kbrain.Prelude.{inl, some, [], ◌∷◌, ◌++◌, ◌≡◌, refl, inr}
use kbrain.Prelude.Int.{pos}
use kbrain.Prelude.Text.{Text, lit, is_empty, text_eq}
use kbrain.Api.{AgentTask, SecretKeyRef, Secret, Pod, initializing, creating_mr, lookup}
use kbrain.Effects.{
  Result, api, not_found, is_not_found, get_pod, get_secret, create_pod, now, update_task_status,
  calls, run,
}
use kbrain.PodBuilder.Cloud.{build_cloud}
use kbrain.PodBuilder.Build.{build, new_pod_builder}
use kbrain.GitOps.Client.{PrResult, post, create_git_hub_pr, create_pull_request}
use kbrain.GitOps.Urls.{parse_git_hub_repo}
use kbrain.GitOps.Strings.{cut, trim_prefix, trim_suffix}
use kbrain.TaskController.Pending.{waits_for_slot, handle_pending}
use kbrain.TaskController.Initializing.{handle_initializing}
use kbrain.TaskController.CreatingMr.{handle_creating_mr, request_options}
use kbrain.TaskController.Title.{truncate}
use kbrain.TaskController.Writes.{moved}
use kbrain.TaskController.Footprints.Pending.{Ready}
use kbrain.TaskController.Footprints.Initializing.{launched}
use kbrain.TaskController.Footprints.CreatingMr.{merged}
use kbrain.TaskController.Progress.{
  HoldsToken, key_calls, pod_key, handle_pending-starts, handle_initializing-launches,
  handle_creating_mr-merges,
}
use kbrain.Tests.Samples.{sample_libs, in_phase, gpu_task, sample_server, cluster_of}

gpu_task-Ready : Ready gpu_task
unfolding is_empty lit waits_for_slot
gpu_task-Ready = record { described = refl; has_repo = refl; has_base = refl; has_slot = refl }

gpu_task_starts :
    calls sample_server (handle_pending sample_libs gpu_task) (cluster_of gpu_task)
    ≡ update_task_status (moved gpu_task initializing (lit "Validated, creating agent pod")) ∷ []
gpu_task_starts =
    handle_pending-starts sample_server sample_libs gpu_task (cluster_of gpu_task) gpu_task-Ready
      (inr (unfold text_eq lit in refl))

abbrev fresh : AgentTask
fresh = in_phase initializing

abbrev built : Pod
built = build_cloud fresh

abbrev owned : Pod
owned = record built { meta = record built.meta { owner_references = lit "fix" ∷ [] } }

fresh-built : build sample_libs (new_pod_builder fresh) fresh ≡ some (Result.ok built)
unfolding build new_pod_builder text_eq lit
fresh-built = refl

fresh_task_launches :
    calls sample_server (handle_initializing sample_libs fresh) (cluster_of fresh)
    ≡ get_pod (pod_key fresh)
      ∷ create_pod owned
      ∷ now
      ∷ update_task_status (launched fresh owned 1000000000000)
      ∷ []
fresh_task_launches =
    handle_initializing-launches sample_server sample_libs fresh built owned owned
      (api not_found (lit "not found")) (cluster_of fresh) (cluster_of fresh)
      (record (cluster_of fresh) { pod = some owned }) refl (unfold is_not_found in refl)
      fresh-built refl refl

abbrev task : AgentTask
task = in_phase creating_mr

abbrev git_ref : SecretKeyRef
git_ref = record { name = lit "git"; key = lit "token" }

abbrev git_secret : Secret
git_secret = record { content = (lit "token", lit "t0k3n") ∷ [] }

abbrev title : Text
title = lit "Fix the build"

abbrev pull_request : PrResult
pull_request = record { url = lit "https://github.com/acme/app/pull/7"; number = pos 7 }

task_title : truncate task.spec.description 60 ≡ some title
unfolding truncate lit
task_title = refl

request_created :
    run sample_server
      (create_pull_request sample_libs (request_options task (lit "t0k3n") title))
      (cluster_of task)
    ≡ (some (Result.ok pull_request), cluster_of task)
unfolding create_pull_request request_options run text_eq lit is_empty create_git_hub_pr
    parse_git_hub_repo cut trim_prefix trim_suffix post
request_created = refl

token_held :
    HoldsToken sample_server git_ref git_secret (lit "t0k3n") (cluster_of task) (cluster_of task)
unfolding is_empty lookup text_eq lit
token_held = inl (refl, refl, refl)

merge_request_made :
    calls sample_server (handle_creating_mr sample_libs task) (cluster_of task)
    ≡ get_secret (record { name = lit "git"; namespace = lit "default" })
      ∷ (key_calls git_ref git_secret
          ++ (calls sample_server
                (create_pull_request sample_libs (request_options task (lit "t0k3n") title))
                (cluster_of task)
              ++ (now ∷ update_task_status (merged task pull_request 1000000000000) ∷ [])))
merge_request_made =
    handle_creating_mr-merges sample_server sample_libs task git_ref git_secret (lit "t0k3n") title
      pull_request (cluster_of task) (cluster_of task) (cluster_of task) (cluster_of task) refl refl
      token_held (unfold is_empty lit in refl) task_title request_created
