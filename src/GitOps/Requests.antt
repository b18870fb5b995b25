-- ===== src/GitOps/Requests.antt =====
-- What CreatePullRequest sends to which host.
use kbrain.Prelude.{true, ◌≡◌, refl, ◌⊎◌, inl, inr}
use kbrain.Prelude.Text.{Text, lit, text_eq}
use kbrain.Api.{Dict}
use kbrain.Effects.{
  Libs, ok, Call, HttpRequest, http_do, Always, Always-call, Always-done, Always-if, Always-result,
  Always-option, Anything,
}
use kbrain.GitOps.Urls.{parse_git_hub_repo, parse_git_lab_project}
use kbrain.GitOps.Client.{
  PrOptions, Host, git_hub, git_lab, post, create_git_hub_pr, create_git_lab_mr,
  create_pull_request, git_hub_url, git_hub_headers, git_hub_payload, git_lab_url, git_lab_headers,
  git_lab_payload, encoded_path,
}

abbrev pub request_to : Text → Dict → Text → HttpRequest
request_to url headers body = record {
  method = lit "POST";
  url = url;
  headers = headers;
  body = body;
}

-- A request to GitHub for the repository that the options name.
pub record IsGitHubRequest (libs : Libs) (opts : PrOptions) (r : HttpRequest) : Type 0 where
  pub owner : Text
  pub repo : Text
  pub for_git_hub : text_eq opts.platform (lit "github") ≡ true
  pub parsed : parse_git_hub_repo opts.repo_url ≡ ok (owner, repo)
  pub sent :
      r
      ≡ request_to
          (git_hub_url owner repo)
          (git_hub_headers opts)
          (libs.marshal (git_hub_payload opts))

-- A request to the GitLab host that the repository's address names.
pub record IsGitLabRequest (libs : Libs) (opts : PrOptions) (r : HttpRequest) : Type 0 where
  pub host : Text
  pub path : Text
  pub for_git_lab : text_eq opts.platform (lit "gitlab") ≡ true
  pub parsed : parse_git_lab_project opts.repo_url ≡ ok (host, path)
  pub sent :
      r
      ≡ request_to
          (git_lab_url host (encoded_path path))
          (git_lab_headers opts)
          (libs.marshal (git_lab_payload opts))

abbrev pub RequestCall : Libs → PrOptions → Call → Type 0
RequestCall libs opts (http_do r) = IsGitHubRequest libs opts r ⊎ IsGitLabRequest libs opts r
RequestCall libs opts _ = ⊥

module _ (libs : Libs) where
  post-calls :
      (P : Call → Type 0) (host : Host) (url : Text) (headers : Dict) (body : Text)
      → P (http_do (request_to url headers body))
      → Always P Anything (post libs host url headers body)
  unfolding post
  post-calls P host url headers body h =
      Always-option (libs.url_error url)
        (λ _. Always-call h λ r. Always-result r (λ resp _. Always-done tt) (λ e _. Always-done tt))
        (λ e _. Always-done tt)

  module _ (opts : PrOptions) where
    create_git_hub_pr-calls :
        text_eq opts.platform (lit "github") ≡ true
        → Always (RequestCall libs opts) Anything (create_git_hub_pr libs opts)
    unfolding create_git_hub_pr
    create_git_hub_pr-calls h =
        Always-result (parse_git_hub_repo opts.repo_url)
          (λ p e.
            post-calls _ git_hub _ _ _
              (inl (record { owner = p.0; repo = p.1; for_git_hub = h; parsed = e; sent = refl })))
          (λ e _. Always-done tt)

    create_git_lab_mr-calls :
        text_eq opts.platform (lit "gitlab") ≡ true
        → Always (RequestCall libs opts) Anything (create_git_lab_mr libs opts)
    unfolding create_git_lab_mr
    create_git_lab_mr-calls h =
        Always-result (parse_git_lab_project opts.repo_url)
          (λ p e.
            post-calls _ git_lab _ _ _
              (inr (record { host = p.0; path = p.1; for_git_lab = h; parsed = e; sent = refl })))
          (λ e _. Always-done tt)

    -- Whatever the host answers, every call of CreatePullRequest is a POST request: for the platform
    -- github to api.github.com, for the owner and the repository that the address of the options is
    -- read as, and for gitlab to the host and the project that the address is read as, each with the
    -- headers and the payload of that platform for the options. For any other platform there is none.
    pub create_pull_request-calls :
        Always (RequestCall libs opts) Anything (create_pull_request libs opts)
    unfolding create_pull_request
    create_pull_request-calls =
        Always-if (text_eq opts.platform (lit "github")) create_git_hub_pr-calls λ _.
          Always-if (text_eq opts.platform (lit "gitlab")) create_git_lab_mr-calls
            λ _. Always-done tt
