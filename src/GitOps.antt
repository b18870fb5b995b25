-- ===== src/GitOps.antt =====
-- internal/gitops: pull and merge requests. Strings has the functions of Go's `strings` that the
-- package uses, Urls the parsing of repository addresses, Client the requests.
pub mod Strings
pub mod Urls
pub mod Client
pub mod Requests
pub mod Cutting
pub mod Addresses
pub mod AutoMerge
pub mod Panics
pub mod Decimal
