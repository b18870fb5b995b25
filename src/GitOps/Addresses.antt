-- ===== src/GitOps/Addresses.antt =====
-- The addresses that parseGitHubRepo and parseGitLabProject read, and one that they misread.
use kbrain.Prelude.{ℕ, true, false, ◌∷◌, ◌++◌, ◌≡◌, refl, arith}
use kbrain.Prelude.Text.{Text, text_eq, lit}
use kbrain.Effects.{ok}
use kbrain.GitOps.Strings.{strip_prefix, has_prefix, trim_prefix, trim_suffix, cut}
use kbrain.GitOps.Urls.{parse_git_hub_repo, parse_git_lab_project}
use kbrain.GitOps.Cutting.{
  Lacks, strip_prefix-append, strip_prefix-none, trim_prefix-append, trim_suffix-append, cut-append,
}

abbrev pub slash : ℕ
slash = b'/'

-- A path of two parts behind no SSH prefix.
no_ssh_prefix :
    (owner repo : Text)
    → Lacks b':' owner
    → trim_prefix (owner ++ slash ∷ repo) (lit "git@github.com:") ≡ owner ++ slash ∷ repo
unfolding trim_prefix
no_ssh_prefix owner repo h = rw (
  strip_prefix-none slash b':' (lit "git@github.com:") owner repo (unfold lit in omega arith) h
      (unfold lit in λ l. omega arith),
  trim_prefix,
)

no_https_prefix :
    (s : Text)
    → trim_prefix (lit "git@github.com:" ++ s) (lit "https://github.com/")
      ≡ lit "git@github.com:" ++ s
unfolding trim_prefix strip_prefix lit
no_https_prefix s = refl

-- An HTTPS or SSH address of a repository on GitHub, with the suffix .git, is read as its owner and
-- repository, if the owner holds neither a slash nor a colon.
pub parse_git_hub_repo_roundtrip :
    (owner repo : Text)
    → Lacks slash owner
    → Lacks b':' owner
    → (parse_git_hub_repo (lit "https://github.com/" ++ (owner ++ slash ∷ repo) ++ lit ".git")
        ≡ ok (owner, repo))
      × (parse_git_hub_repo (lit "git@github.com:" ++ (owner ++ slash ∷ repo) ++ lit ".git")
          ≡ ok (owner, repo))
unfolding parse_git_hub_repo
parse_git_hub_repo_roundtrip owner repo h k = (
  rw (
    trim_suffix-append (lit "https://github.com/" ++ (owner ++ slash ∷ repo)) (lit ".git"),
    trim_prefix-append (lit "https://github.com/") (owner ++ slash ∷ repo),
    no_ssh_prefix owner repo k,
    cut-append slash owner repo h,
    parse_git_hub_repo,
  ),
  rw (
    trim_suffix-append (lit "git@github.com:" ++ (owner ++ slash ∷ repo)) (lit ".git"),
    no_https_prefix (owner ++ slash ∷ repo),
    trim_prefix-append (lit "git@github.com:") (owner ++ slash ∷ repo),
    cut-append slash owner repo h,
    parse_git_hub_repo,
  ),
)

git_at_no_https : (s : Text) → has_prefix (lit "git@" ++ s) (lit "https://") ≡ false
unfolding has_prefix strip_prefix lit
git_at_no_https s = refl

https_prefix : (s : Text) → has_prefix (lit "https://" ++ s) (lit "https://") ≡ true
unfolding has_prefix
https_prefix s = rw (strip_prefix-append (lit "https://") s, has_prefix)

-- An HTTPS or SSH address of a project on a GitLab host, with the suffix .git, is read as its host and
-- the path of the project, however deep, if the host holds neither a slash nor a colon.
pub parse_git_lab_project_roundtrip :
    (host path : Text)
    → Lacks slash host
    → Lacks b':' host
    → (parse_git_lab_project (lit "https://" ++ (host ++ slash ∷ path) ++ lit ".git")
        ≡ ok (host, path))
      × (parse_git_lab_project (lit "git@" ++ (host ++ b':' ∷ path) ++ lit ".git")
          ≡ ok (host, path))
unfolding parse_git_lab_project
parse_git_lab_project_roundtrip host path h k = (
  rw (
    trim_suffix-append (lit "https://" ++ (host ++ slash ∷ path)) (lit ".git"),
    https_prefix (host ++ slash ∷ path),
    trim_prefix-append (lit "https://") (host ++ slash ∷ path),
    cut-append slash host path h,
    parse_git_lab_project,
  ),
  rw (
    trim_suffix-append (lit "git@" ++ (host ++ b':' ∷ path)) (lit ".git"),
    git_at_no_https (host ++ b':' ∷ path),
    trim_prefix-append (lit "git@") (host ++ b':' ∷ path),
    cut-append b':' host path k,
    parse_git_lab_project,
  ),
)

-- An address with the scheme http:// is not refused: whatever follows, its scheme is taken for the
-- owner and the rest, less the suffix .git, for the repository.
pub parse_git_hub_repo_http :
    (rest : Text)
    → parse_git_hub_repo (lit "http://" ++ rest)
      ≡ ok (lit "http:", slash ∷ trim_suffix rest (lit ".git"))
unfolding parse_git_hub_repo trim_suffix text_eq trim_prefix strip_prefix cut lit
parse_git_hub_repo_http rest = refl
