-- ===== src/GitOps/AutoMerge.antt =====
-- The option to merge without a review changes nothing of the request.
use kbrain.Prelude.{Bool, ◌≡◌, refl}
use kbrain.Effects.{Libs}
use kbrain.GitOps.Client.{
  PrOptions, create_pull_request, create_git_hub_pr, create_git_lab_mr, git_hub_headers,
  git_hub_payload, git_lab_headers, git_lab_payload,
}

-- CreatePullRequest makes the same calls and returns the same results for every value of AutoMerge.
pub create_pull_request-auto_merge :
    (libs : Libs) (opts : PrOptions) (b : Bool)
    → create_pull_request libs (record opts { auto_merge = b }) ≡ create_pull_request libs opts
unfolding create_pull_request create_git_hub_pr create_git_lab_mr git_hub_headers git_hub_payload
    git_lab_headers git_lab_payload
create_pull_request-auto_merge libs opts b = refl
