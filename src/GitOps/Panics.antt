-- ===== src/GitOps/Panics.antt =====
-- The git client panics on no path.
use kbrain.Prelude.Text.{Text, text_eq, lit}
use kbrain.Api.{Dict}
use kbrain.Effects.{
  Libs, PanicFree, PanicFree-done, PanicFree-call, PanicFree-if, PanicFree-result, PanicFree-option,
}
use kbrain.GitOps.Urls.{parse_git_hub_repo, parse_git_lab_project}
use kbrain.GitOps.Client.{
  PrOptions, Host, post, create_git_hub_pr, create_git_lab_mr, create_pull_request,
}

module _ (libs : Libs) where
  post-PanicFree :
      (host : Host) (url : Text) (headers : Dict) (body : Text)
      → PanicFree (post libs host url headers body)
  unfolding post
  post-PanicFree host url headers body =
      PanicFree-option (libs.url_error url)
        (PanicFree-call λ r. PanicFree-result r (λ resp. PanicFree-done) (λ e. PanicFree-done))
        (λ e. PanicFree-done)

  pub create_pull_request-PanicFree : (opts : PrOptions) → PanicFree (create_pull_request libs opts)
  unfolding create_pull_request create_git_hub_pr create_git_lab_mr
  create_pull_request-PanicFree opts =
      PanicFree-if (text_eq opts.platform (lit "github"))
        (PanicFree-result (parse_git_hub_repo opts.repo_url) (λ p. post-PanicFree _ _ _ _)
          (λ e. PanicFree-done))
        (PanicFree-if (text_eq opts.platform (lit "gitlab"))
          (PanicFree-result (parse_git_lab_project opts.repo_url) (λ p. post-PanicFree _ _ _ _)
            (λ e. PanicFree-done))
          PanicFree-done)
