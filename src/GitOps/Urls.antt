-- ===== src/GitOps/Urls.antt =====
-- parseGitHubRepo and parseGitLabProject (gitops.go).
use kbrain.Prelude.{Option, none, some, ◌++◌, if◌then◌else◌}
use kbrain.Prelude.Text.{Text, lit}
use kbrain.Effects.{errorf, Result, ok, err}
use kbrain.GitOps.Strings.{trim_suffix, trim_prefix, has_prefix, cut}

-- Two named parts of an address: owner and repository, or host and project path.
abbrev pub Address : Type 0
Address = Text × Text

abbrev parts_or : Text → Text → Option Address → Result Address
parts_or message url none = err (errorf (message ++ url))
parts_or message url (some parts) = ok parts

-- `parseGitHubRepo`.
unfoldable pub parse_git_hub_repo : Text → Result Address
parse_git_hub_repo repo_url =
    let url = trim_suffix repo_url (lit ".git") in
    let url' = trim_prefix url (lit "https://github.com/") in
    let url'' = trim_prefix url' (lit "git@github.com:") in
    parts_or (lit "cannot parse GitHub repo from URL: ") repo_url (cut b'/' url'')

-- `parseGitLabProject`.
unfoldable pub parse_git_lab_project : Text → Result Address
parse_git_lab_project repo_url =
    let url = trim_suffix repo_url (lit ".git") in
    let message = lit "cannot parse GitLab project from URL: " in
    if has_prefix url (lit "https://")
    then parts_or message repo_url (cut b'/' (trim_prefix url (lit "https://")))
    else parts_or message repo_url (cut b':' (trim_prefix url (lit "git@")))
