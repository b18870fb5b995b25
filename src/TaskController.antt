-- ===== src/TaskController.antt =====
-- internal/controller/agenttask_controller.go: the reconciler of AgentTask. Outcome, Status and
-- Title hold its helpers, the next modules one handler each, Reconcile the dispatch.
pub mod Outcome
pub mod Status
pub mod Title
pub mod Pending
pub mod Initializing
pub mod Running
pub mod CreatingMr
pub mod Deletion
pub mod Reconcile
pub mod Writes
pub mod Footprints
pub mod Tracking
pub mod Lifecycle
pub mod Lawful
pub mod Settled
pub mod StatusCalls
pub mod Timeouts
pub mod Branches
pub mod Panics
pub mod Progress
pub mod Cleanup
pub mod LastWrites
pub mod Storing
pub mod Stages
pub mod Completion
pub mod Platforms
