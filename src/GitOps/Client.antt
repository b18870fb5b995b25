-- ===== src/GitOps/Client.antt =====
-- Client.CreatePullRequest and the two requests behind it (gitops.go). The HTTP client's transport
-- is a call of the program; `io.ReadAll`, whose error the code drops, is part of the answer.
use kbrain.Prelude.{Bool, none, some, [], ◌∷◌, ◌++◌, ◌==◌, if◌then◌else◌}
use kbrain.Prelude.Int.{ℤ}
use kbrain.Prelude.Text.{Text, lit, text_eq}
use kbrain.Api.{Dict}
use kbrain.Effects.{
  errorf, wrap, Result, ok, err, HttpResponse, http_do, Program, done, perform, ◌>>=◌, Libs,
}
use kbrain.GitOps.Strings.{replace_all, decimal}
use kbrain.GitOps.Urls.{parse_git_hub_repo, parse_git_lab_project}

pub record PrOptions : Type 0 where
  pub platform : Text
  pub repo_url : Text
  pub source_branch : Text
  pub target_branch : Text
  pub title : Text
  pub description : Text
  pub token : Text
  pub auto_merge : Bool

pub record PrResult : Type 0 where
  pub url : Text
  pub number : ℤ

-- What is said of a host's answers: the texts of the errors and the names of the JSON fields.
pub record Host : Type 0 where
  pub creating : Text
  pub returned : Text
  pub parsing : Text
  pub url_field : Text
  pub number_field : Text

abbrev pub git_hub : Host
git_hub = record {
  creating = lit "creating GitHub PR";
  returned = lit "GitHub API returned ";
  parsing = lit "parsing GitHub response";
  url_field = lit "html_url";
  number_field = lit "number";
}

abbrev pub git_lab : Host
git_lab = record {
  creating = lit "creating GitLab MR";
  returned = lit "GitLab API returned ";
  parsing = lit "parsing GitLab response";
  url_field = lit "web_url";
  number_field = lit "iid";
}

unfoldable pub git_hub_url : Text → Text → Text
git_hub_url owner repo =
    lit "https://api.github.com/repos/" ++ (owner ++ (lit "/" ++ (repo ++ lit "/pulls")))

unfoldable pub git_hub_payload : PrOptions → Dict
git_hub_payload opts =
    (lit "title", opts.title)
    ∷ (lit "body", opts.description)
    ∷ (lit "head", opts.source_branch)
    ∷ (lit "base", opts.target_branch)
    ∷ []

unfoldable pub git_hub_headers : PrOptions → Dict
git_hub_headers opts =
    (lit "Authorization", lit "Bearer " ++ opts.token)
    ∷ (lit "Accept", lit "application/vnd.github+json")
    ∷ (lit "Content-Type", lit "application/json")
    ∷ []

unfoldable pub git_lab_url : Text → Text → Text
git_lab_url host project =
    lit "https://" ++ (host ++ (lit "/api/v4/projects/" ++ (project ++ lit "/merge_requests")))

-- The project path with its slashes escaped.
unfoldable pub encoded_path : Text → Text
encoded_path = replace_all b'/' (lit "%2F")

unfoldable pub git_lab_payload : PrOptions → Dict
git_lab_payload opts =
    (lit "title", opts.title)
    ∷ (lit "description", opts.description)
    ∷ (lit "source_branch", opts.source_branch)
    ∷ (lit "target_branch", opts.target_branch)
    ∷ []

unfoldable pub git_lab_headers : PrOptions → Dict
git_lab_headers opts =
    (lit "PRIVATE-TOKEN", opts.token) ∷ (lit "Content-Type", lit "application/json") ∷ []

module _ (libs : Libs) where
  -- The end of both functions: the status must be 201, and the body must parse.
  unfoldable pub read_response : Host → HttpResponse → Result PrResult
  read_response host resp =
      if resp.status_code == 201
      then elim (libs.unmarshal host.url_field host.number_field resp.body) [
        | err e ↦ err (wrap host.parsing e)
        | ok (url, number) ↦ ok (record { url = url; number = number })
      ]
      else err (errorf (host.returned ++ (decimal resp.status_code ++ (lit ": " ++ resp.body))))

  -- Building the request, sending it, and reading the answer.
  unfoldable pub post : Host → Text → Dict → Text → Program (Result PrResult)
  unfolding read_response
  post host url headers body = elim (libs.url_error url) [
    | some e ↦ done (err (wrap (lit "creating request") e))
    | none ↦ do
      sent ←
          perform
            (http_do (record { method = lit "POST"; url = url; headers = headers; body = body }))
      elim sent [
        | err e ↦ done (err (wrap host.creating e))
        | ok resp ↦ done (read_response host resp)
      ]
  ]

  -- `createGitHubPR`.
  unfoldable pub create_git_hub_pr : PrOptions → Program (Result PrResult)
  create_git_hub_pr opts = elim (parse_git_hub_repo opts.repo_url) [
    | err e ↦ done (err e)
    | ok (owner, repo) ↦
        post git_hub (git_hub_url owner repo) (git_hub_headers opts)
          (libs.marshal (git_hub_payload opts))
  ]

  -- `createGitLabMR`.
  unfoldable pub create_git_lab_mr : PrOptions → Program (Result PrResult)
  create_git_lab_mr opts = elim (parse_git_lab_project opts.repo_url) [
    | err e ↦ done (err e)
    | ok (host, path) ↦
        post git_lab (git_lab_url host (encoded_path path)) (git_lab_headers opts)
          (libs.marshal (git_lab_payload opts))
  ]

  -- `CreatePullRequest`.
  unfoldable pub create_pull_request : PrOptions → Program (Result PrResult)
  create_pull_request opts =
      if text_eq opts.platform (lit "github")
      then create_git_hub_pr opts
      else if text_eq opts.platform (lit "gitlab")
      then create_git_lab_mr opts
      else done (err (errorf (lit "unsupported platform: " ++ opts.platform)))
