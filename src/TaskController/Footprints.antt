-- ===== src/TaskController/Footprints.antt =====
-- What each handler of the state machine may call, from a task t: its footprint, over all answers
-- of the cluster and the git host.
pub mod Pending
pub mod Initializing
pub mod Running
pub mod Secrets
pub mod CreatingMr
