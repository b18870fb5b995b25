-- ===== src/Manager.antt =====
-- cmd/main.go, which starts the operator: the flags, the servers' TLS options, and the manager of the
-- controller library with both controllers and its checks.
pub mod Flags
pub mod Tls
pub mod Registration
pub mod Options
pub mod Boot
pub mod Main
pub mod Plan
pub mod Servers
