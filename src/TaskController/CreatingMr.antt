-- ===== src/TaskController/CreatingMr.antt =====
-- handleCreatingMR and resolveSecretValue: the token, the request's options, and the request. The
-- git client is the package's own either way, so the test for a nil one is left out.
use kbrain.Prelude.{ℕ, ◌%◌, Option, none, some, [], ◌++◌, if◌then◌else◌, length, get_elem?}
use kbrain.Prelude.Text.{Text, lit, text_eq, is_empty}
use kbrain.Api.{AgentTask, SecretKeyRef, Secret, Dict, lookup, succeeded}
use kbrain.Effects.{
  Libs, errorf, Result, ok, err, error_text, get_secret, range_start, now, Program, done, perform,
  or_panic, ◌>>=◌,
}
use kbrain.PodBuilder.Base.{work_branch_for}
use kbrain.GitOps.Client.{PrOptions, PrResult, create_pull_request}
use kbrain.TaskController.Outcome.{Outcome}
use kbrain.TaskController.Status.{set_phase, set_failed, with_status}
use kbrain.TaskController.Title.{truncate}

-- The key that a `range` over the map yields first, or the empty key of an empty map.
unfoldable pub first_key : Dict → ℕ → Text
first_key content start = elim (get_elem? content (start % length content)) [
  | none ↦ []
  | some (k, v) ↦ k
]

-- The source branch of the request.
unfoldable pub source_branch : AgentTask → Text
source_branch task =
    if is_empty task.status.branch_name then work_branch_for task else task.status.branch_name

-- The branch that the request targets.
unfoldable pub request_target : AgentTask → Text
request_target task =
    if is_empty task.spec.git.target_branch
    then task.spec.git.base_branch
    else task.spec.git.target_branch

unfoldable pub platform_of : AgentTask → Text
platform_of task = if is_empty task.spec.git.platform then lit "github" else task.spec.git.platform

unfoldable pub request_body : AgentTask → Text
request_body task =
    lit "## kbrain Agent Task\n\n**Task:** "
    ++ (task.spec.description
        ++ (lit "\n\n**Agent:** "
            ++ (task.spec.agent_type
                ++ (lit "\n**Model:** "
                    ++ (task.spec.model_name ++ lit "\n\n---\n*Created by kbrain operator*")))))

unfoldable pub request_options : AgentTask → Text → Text → PrOptions
unfolding source_branch request_target platform_of
request_options task token title = record {
  platform = platform_of task;
  repo_url = task.spec.git.repo_url;
  source_branch = source_branch task;
  target_branch = request_target task;
  title = lit "[kbrain] " ++ title;
  description = request_body task;
  token = token;
  auto_merge = text_eq task.spec.approval_mode (lit "auto-merge");
}

unfoldable pub mr_created : AgentTask → PrResult → Program Outcome
mr_created task result = do
  time ← perform now
  set_phase
      (with_status task
        (record task.status { merge_request_url = result.url; end_time = some time }))
      succeeded (lit "MR created: " ++ result.url)

module _ (libs : Libs) where
  unfoldable pub value_of_key : Secret → SecretKeyRef → Text → Result Text
  value_of_key secret ref key = elim (lookup key secret.content) [
    | some v ↦ ok v
    | none ↦ err (
        errorf
          (lit "key " ++ (libs.quote key ++ (lit " not found in secret " ++ libs.quote ref.name))))
  ]

  -- `resolveSecretValue`.
  unfoldable pub resolve_secret_value : Text → Option SecretKeyRef → Program (Result Text)
  unfolding value_of_key
  resolve_secret_value namespace none = done (ok [])
  resolve_secret_value namespace (some ref) = do
    found ← perform (get_secret (record { name = ref.name; namespace = namespace }))
    elim found [
      | err e ↦ done (err e)
      | ok secret ↦
          if is_empty ref.key
          then (do
            start ← perform (range_start (length secret.content))
            done (value_of_key secret ref (first_key secret.content start)))
          else done (value_of_key secret ref ref.key)
    ]

  -- The request, once the token is known.
  unfoldable pub create_mr : AgentTask → Text → Program Outcome
  unfolding mr_created
  create_mr task token = do
    title ← or_panic (truncate task.spec.description 60)
    created ← create_pull_request libs (request_options task token title)
    elim created [
      | err e ↦ set_failed task (lit "failed to create MR: " ++ error_text e)
      | ok result ↦ mr_created task result
    ]

  -- `handleCreatingMR`.
  unfoldable pub handle_creating_mr : AgentTask → Program Outcome
  unfolding resolve_secret_value create_mr
  handle_creating_mr task = do
    resolved ← resolve_secret_value task.namespace task.spec.git_credentials_secret_ref
    elim resolved [
      | err e ↦ set_failed task (lit "failed to resolve git credentials: " ++ error_text e)
      | ok token ↦
          if is_empty token
          then set_failed task (lit "git credentials secret not configured")
          else create_mr task token
    ]
