-- ===== src/Tests/Completion.antt =====
-- An instance of the theorem on a whole run, for a task of the cloud provider without an API key.
use kbrain.Prelude.{none, some, [], ◌∷◌, ◌≡◌, refl, sym, ap, ◌∙◌, inl}
use kbrain.Prelude.Int.{pos}
use kbrain.Prelude.Text.{Text, lit, is_empty, text_eq}
use kbrain.Api.{AgentTask, unset, initializing, creating_mr, succeeded, Pod, pod_succeeded, lookup}
use kbrain.Effects.{
  Key, Result, api, not_found, is_not_found, Call, get_pod, get_secret, update_task,
  update_task_status, run,
}
use kbrain.PodBuilder.Base.{base_pod_meta}
use kbrain.PodBuilder.Cloud.{build_cloud}
use kbrain.PodBuilder.Build.{build, new_pod_builder}
use kbrain.GitOps.Client.{PrResult, post, create_git_hub_pr, create_pull_request}
use kbrain.TaskController.Status.{set_phase}
use kbrain.GitOps.Urls.{parse_git_hub_repo}
use kbrain.GitOps.Strings.{cut, trim_prefix, trim_suffix}
use kbrain.TaskController.Progress.{pod_key}
use kbrain.TaskController.Writes.{moved}
use kbrain.TaskController.Title.{truncate}
use kbrain.TaskController.Pending.{waits_for_slot}
use kbrain.TaskController.Reconcile.{is_zero, reconcile}
use kbrain.TaskController.CreatingMr.{request_options}
use kbrain.TaskController.Footprints.Pending.{Ready}
use kbrain.TaskController.Footprints.Initializing.{launched}
use kbrain.TaskController.Settled.{IsSettledIn}
use kbrain.TaskController.Storing.{NoTaskWrite, Stores}
use kbrain.TaskController.Stages.{CanLaunch, CanMerge, FinalizerLaws, after}
use kbrain.TaskController.Completion.{reconcile-completes}
use kbrain.Tests.Samples.{
  sample_libs, in_phase, sample_spec, Cluster, sample_server, cluster_of, has,
}

abbrev task : AgentTask
task = record (in_phase unset) { spec = record sample_spec { api_key_secret_ref = none } }

abbrev task_of : Cluster → AgentTask
task_of s = s.task

abbrev key : Key
key = record { name = lit "fix"; namespace = lit "default" }

sample_server-Stores : Stores sample_server task_of
sample_server-Stores = record {
  reads = λ k s. refl;
  writes = λ u s. refl;
  updates = λ u s. refl;
  keeps = kept;
}
  where
    kept :
        (c : Call) (s : Cluster) → NoTaskWrite c → task_of (sample_server.answer c s).1 ≡ task_of s
    kept (update_task_status u) s h = absurd h
    kept (update_task u) s h = absurd h
    kept _ s h = refl

sample_libs-FinalizerLaws : FinalizerLaws sample_libs
sample_libs-FinalizerLaws = record { reads_meta = λ t u f e. ap (λ m. has f m.finalizers) e }

abbrev at_first : Cluster
at_first = cluster_of task

abbrev validated : Cluster
validated = record at_first { task = moved task initializing (lit "Validated, creating agent pod") }

abbrev built : Pod
built = build_cloud validated.task

abbrev owned : Pod
owned = record built { meta = record built.meta { owner_references = lit "fix" ∷ [] } }

abbrev done_pod : Pod
done_pod = record owned { status = record owned.status { phase = pod_succeeded } }

-- The state when the pod runs, and when it has succeeded.
abbrev at_work : Cluster
at_work = record validated { task = launched validated.task owned 1000000000000; pod = some owned }

abbrev agent_done : Cluster
agent_done = record at_work { pod = some done_pod }

abbrev to_merge : Cluster
to_merge = record agent_done {
  task = moved at_work.task creating_mr (lit "Agent completed, creating merge request");
}

first_run : after sample_server sample_libs key at_first ≡ validated
unfolding run reconcile is_zero text_eq lit is_empty set_phase
first_run = refl

second_run : after sample_server sample_libs key validated ≡ at_work
unfolding run reconcile is_zero text_eq lit is_not_found build new_pod_builder set_phase
second_run = refl

third_run : after sample_server sample_libs key agent_done ≡ to_merge
unfolding run reconcile is_zero text_eq lit is_empty build_cloud base_pod_meta set_phase
third_run = refl

validated-built :
    build sample_libs (new_pod_builder validated.task) validated.task ≡ some (Result.ok built)
unfolding build new_pod_builder text_eq lit
validated-built = refl

can_launch :
    CanLaunch sample_server sample_libs
      (task_of (after sample_server sample_libs key at_first))
      (after sample_server sample_libs key at_first)
can_launch = record {
  built = built;
  owned = owned;
  created = owned;
  missing = api not_found (lit "not found");
  looked = validated;
  made = record validated { pod = some owned };
  not_there = ap (λ x. sample_server.answer (get_pod (pod_key x.task)) x) first_run;
  is_missing = unfold is_not_found in refl;
  builds = ap (λ x. build sample_libs (new_pod_builder x.task) x.task) first_run ∙ validated-built;
  owns = ap (λ x. sample_libs.set_controller_reference x.task built) first_run;
  creates = refl;
  named = unfold is_empty lit build_cloud base_pod_meta in refl;
}

abbrev pull_request : PrResult
pull_request = record { url = lit "https://github.com/acme/app/pull/7"; number = pos 7 }

abbrev title : Text
title = lit "Fix the build"

request_created :
    run sample_server
      (create_pull_request sample_libs (request_options to_merge.task (lit "t0k3n") title))
      to_merge
    ≡ (some (Result.ok pull_request), to_merge)
unfolding create_pull_request request_options run text_eq lit is_empty create_git_hub_pr
    parse_git_hub_repo cut trim_prefix trim_suffix post
request_created = refl

can_merge :
    CanMerge sample_server sample_libs
      (task_of (after sample_server sample_libs key agent_done))
      (after sample_server sample_libs key agent_done)
can_merge = record {
  ref = record { name = lit "git"; key = lit "token" };
  secret = record { content = (lit "token", lit "t0k3n") ∷ [] };
  token = lit "t0k3n";
  title = title;
  result = pull_request;
  fetched = to_merge;
  read = to_merge;
  asked = to_merge;
  refers = ap (λ x. x.task.spec.git_credentials_secret_ref) third_run;
  reads =
      ap
        (λ x.
          sample_server.answer
            (get_secret (record { name = lit "git"; namespace = x.task.namespace })) x)
        third_run;
  holds = inl (unfold is_empty lit in refl, unfold lookup text_eq lit in refl, refl);
  has_token = unfold is_empty lit in refl;
  titled = ap (λ x. truncate x.task.spec.description 60) third_run ∙ (unfold truncate lit in refl);
  requests =
      ap
        (λ x.
          run sample_server
            (create_pull_request sample_libs (request_options x.task (lit "t0k3n") title)) to_merge)
        third_run
      ∙ request_created;
}

task-Ready : Ready task
unfolding is_empty lit waits_for_slot
task-Ready = record { described = refl; has_repo = refl; has_base = refl; has_slot = refl }

task-IsSettledIn : IsSettledIn sample_libs task
unfolding is_zero text_eq lit
task-IsSettledIn = record { lives = refl; finalized = refl }

reconcile-completes_example :
    let u =
      task_of
        (after sample_server sample_libs key (after sample_server sample_libs key agent_done)) in
    (u.status.phase ≡ succeeded)
    × (u.status.merge_request_url ≡ lit "https://github.com/acme/app/pull/7")
    × (u.meta ≡ task.meta)
    × (u.spec ≡ task.spec)
unfolding lit can_merge
reconcile-completes_example =
    reconcile-completes sample_server sample_libs task_of sample_server-Stores
      sample_libs-FinalizerLaws key at_first agent_done agent_done done_pod task-IsSettledIn
      (inl refl) task-Ready (inl refl) can_launch
      (sym (
        ap (λ x. task_of (after sample_server sample_libs key x)) first_run
        ∙ ap task_of second_run))
      refl refl can_merge
