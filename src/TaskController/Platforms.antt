-- ===== src/TaskController/Platforms.antt =====
-- A task whose platform the git client does not support.
use kbrain.Prelude.{false, ◌≡◌}
use kbrain.Prelude.Text.{Text, lit, text_eq, is_empty}
use kbrain.Api.{AgentTask}
use kbrain.Effects.{
  Libs, Call, get_secret, range_start, now, update_task_status, Always, Anything, Always-if,
  Always-result, Always-bind, Always-or_panic,
}
use kbrain.GitOps.Client.{create_pull_request}
use kbrain.TaskController.Status.{set_failed}
use kbrain.TaskController.Title.{truncate}
use kbrain.TaskController.Footprints.Secrets.{resolve_secret_value-calls}
use kbrain.TaskController.CreatingMr.{
  handle_creating_mr, resolve_secret_value, create_mr, request_options, platform_of,
}
use kbrain.TaskController.Writes.{Fails, Always-set_failed}

-- No request is sent, and the only status write marks the task as failed.
abbrev pub OnlyFails : AgentTask → Call → Type 0
OnlyFails t (get_secret k) = Unit
OnlyFails t (range_start n) = Unit
OnlyFails t now = Unit
OnlyFails t (update_task_status u) = Fails t u
OnlyFails t _ = ⊥

module _ (libs : Libs) (t : AgentTask) where
  failing : (m : Text) → Always (OnlyFails t) Anything (set_failed t m)
  failing m = Always-set_failed t m tt (λ u f. f)

  module _ (h : text_eq (platform_of t) (lit "github") ≡ false)
      (g : text_eq (platform_of t) (lit "gitlab") ≡ false) where
    create_mr-OnlyFails : (token : Text) → Always (OnlyFails t) Anything (create_mr libs t token)
    unfolding create_mr create_pull_request request_options
    create_mr-OnlyFails token =
        Always-or_panic (truncate t.spec.description 60) _ λ title e. rw (h, g) (failing _)

    -- A task whose platform, github where none is given, is neither github nor gitlab never gets a
    -- merge request: on every path, handleCreatingMR sends no request to a git host, and the only
    -- status write that it makes marks the task as failed.
    pub unsupported_platform_fails : Always (OnlyFails t) Anything (handle_creating_mr libs t)
    unfolding handle_creating_mr
    unsupported_platform_fails =
        Always-bind (resolve_secret_value libs t.namespace t.spec.git_credentials_secret_ref) _
          (resolve_secret_value-calls libs (OnlyFails t) t.namespace
            t.spec.git_credentials_secret_ref (λ k e. tt) (λ n. tt))
          λ r _.
            Always-result r
              (λ token _.
                Always-if (is_empty token) (λ _. failing _) (λ _. create_mr-OnlyFails token))
              (λ e _. failing _)
