-- ===== src/TaskController/Footprints/CreatingMr.antt =====
-- The footprint of handleCreatingMR.
use kbrain.Prelude.{false, ◌≡◌, refl, ◌⊎◌, inl, inr, some, ◌++◌}
use kbrain.Prelude.Text.{Text, lit, is_empty}
use kbrain.Api.{AgentTask, Time, succeeded}
use kbrain.Effects.{
  Libs, Call, get_secret, range_start, http_do, HttpRequest, update_task_status, now, Always,
  Always-call, Always-if, Always-result, Always-bind, Always-weaken, Always-or_panic, Anything,
}
use kbrain.GitOps.Client.{PrResult, create_pull_request}
use kbrain.GitOps.Requests.{RequestCall, create_pull_request-calls}
use kbrain.TaskController.CreatingMr.{
  handle_creating_mr, resolve_secret_value, create_mr, mr_created, request_options,
}
use kbrain.TaskController.Title.{truncate}
use kbrain.TaskController.Footprints.Secrets.{resolve_secret_value-calls}
use kbrain.TaskController.Status.{with_status}
use kbrain.TaskController.Writes.{moved, Fails, Always-set_phase, Always-set_failed}

-- What is written at a time when the request was created.
abbrev pub merged : AgentTask → PrResult → Time → AgentTask
merged t r time =
    moved (with_status t (record t.status { merge_request_url = r.url; end_time = some time }))
      succeeded (lit "MR created: " ++ r.url)

-- The request that belongs to the task, with a token that is not empty and the truncated title.
abbrev pub IsTaskRequest : Libs → AgentTask → HttpRequest → Type 0
IsTaskRequest libs t r =
    (token : Text) × (title : Text) × (is_empty token ≡ false)
    × (truncate t.spec.description 60 ≡ some title)
    × RequestCall libs (request_options t token title) (http_do r)

abbrev pub CreatingMrCall : Libs → AgentTask → Call → Type 0
CreatingMrCall libs t (get_secret k) = k.namespace ≡ t.namespace
CreatingMrCall libs t (range_start n) = Unit
CreatingMrCall libs t (http_do r) = IsTaskRequest libs t r
CreatingMrCall libs t now = Unit
CreatingMrCall libs t (update_task_status u) =
    ((r : PrResult) × (time : Time) × (u ≡ merged t r time)) ⊎ Fails t u
CreatingMrCall libs t _ = ⊥

module _ (libs : Libs) (t : AgentTask) where
  mr_created-calls : (r : PrResult) → Always (CreatingMrCall libs t) Anything (mr_created t r)
  unfolding mr_created
  mr_created-calls r = Always-call tt λ time. Always-set_phase _ _ _ (inl (r, time, refl))

  -- The calls of the request are among those of the handler.
  request-in :
      (token title : Text)
      → is_empty token ≡ false
      → truncate t.spec.description 60 ≡ some title
      → (c : Call) → RequestCall libs (request_options t token title) c
      → CreatingMrCall libs t c
  request-in token title a b (http_do r) h = (token, title, a, b, h)
  request-in token title a b _ h = absurd h

  create_mr-calls :
      (token : Text)
      → is_empty token ≡ false
      → Always (CreatingMrCall libs t) Anything (create_mr libs t token)
  unfolding create_mr
  create_mr-calls token h = Always-or_panic (truncate t.spec.description 60) _ λ title e.
      Always-bind (create_pull_request libs (request_options t token title)) _
        (Always-weaken (request-in token title h e) (λ _ _. tt)
          (create_pull_request-calls libs (request_options t token title)))
        λ r _.
          Always-result r (λ result _. mr_created-calls result)
            (λ e _. Always-set_failed t _ tt (λ u f. inr f))

  pub handle_creating_mr-calls : Always (CreatingMrCall libs t) Anything (handle_creating_mr libs t)
  unfolding handle_creating_mr
  handle_creating_mr-calls =
      Always-bind (resolve_secret_value libs t.namespace t.spec.git_credentials_secret_ref) _
        (resolve_secret_value-calls libs (CreatingMrCall libs t) t.namespace
          t.spec.git_credentials_secret_ref (λ k e. e) (λ n. tt))
        λ r _.
          Always-result r
            (λ token _.
              Always-if (is_empty token) (λ _. Always-set_failed t _ tt (λ u f. inr f))
                (create_mr-calls token))
            (λ e _. Always-set_failed t _ tt (λ u f. inr f))
