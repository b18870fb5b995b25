-- ===== src/Tests/Requests.antt =====
-- Instances of the theorems on the requests to the git hosts.
use kbrain.Prelude.{true, ◌∷◌, ◌++◌, ◌≡◌, arith}
use kbrain.Prelude.Text.{Text, lit}
use kbrain.Api.{creating_mr}
use kbrain.Effects.{ok, Always, Anything}
use kbrain.GitOps.Strings.{trim_suffix}
use kbrain.GitOps.Urls.{parse_git_hub_repo, parse_git_lab_project}
use kbrain.GitOps.Addresses.{
  slash, parse_git_hub_repo_roundtrip, parse_git_lab_project_roundtrip, parse_git_hub_repo_http,
}
use kbrain.GitOps.Client.{PrOptions, create_pull_request}
use kbrain.GitOps.Requests.{RequestCall, create_pull_request-calls}
use kbrain.GitOps.AutoMerge.{create_pull_request-auto_merge}
use kbrain.TaskController.CreatingMr.{request_options}
use kbrain.Tests.Samples.{sample_libs, in_phase}

abbrev acme : Text
acme = lit "acme"

abbrev deep_path : Text
deep_path = lit "group/app"

abbrev host : Text
host = lit "git.acme.io"

abbrev options : PrOptions
options = request_options (in_phase creating_mr) (lit "t0k3n") (lit "Fix the build")

parse_git_hub_repo_roundtrip_example :
    (parse_git_hub_repo (lit "https://github.com/" ++ (acme ++ slash ∷ lit "app") ++ lit ".git")
      ≡ ok (acme, lit "app"))
    × (parse_git_hub_repo (lit "git@github.com:" ++ (acme ++ slash ∷ lit "app") ++ lit ".git")
        ≡ ok (acme, lit "app"))
parse_git_hub_repo_roundtrip_example =
    parse_git_hub_repo_roundtrip acme (lit "app") (unfold lit in omega arith)
      (unfold lit in omega arith)

parse_git_lab_project_roundtrip_example :
    (parse_git_lab_project (lit "https://" ++ (host ++ slash ∷ deep_path) ++ lit ".git")
      ≡ ok (host, deep_path))
    × (parse_git_lab_project (lit "git@" ++ (host ++ b':' ∷ deep_path) ++ lit ".git")
        ≡ ok (host, deep_path))
parse_git_lab_project_roundtrip_example =
    parse_git_lab_project_roundtrip host deep_path (unfold lit in omega arith)
      (unfold lit in omega arith)

parse_git_hub_repo_http_example :
    parse_git_hub_repo (lit "http://" ++ lit "github.com/acme/app")
    ≡ ok (lit "http:", slash ∷ trim_suffix (lit "github.com/acme/app") (lit ".git"))
parse_git_hub_repo_http_example = parse_git_hub_repo_http (lit "github.com/acme/app")

create_pull_request-calls_example :
    Always (RequestCall sample_libs options) Anything (create_pull_request sample_libs options)
create_pull_request-calls_example = create_pull_request-calls sample_libs options

create_pull_request-auto_merge_example :
    create_pull_request sample_libs (record options { auto_merge = true })
    ≡ create_pull_request sample_libs options
create_pull_request-auto_merge_example = create_pull_request-auto_merge sample_libs options true
