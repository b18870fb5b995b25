-- ===== src/PoolController.antt =====
-- internal/controller/agentpool_controller.go: the reconciler of AgentPool. Tasks lists a pool's
-- tasks and sorts them into groups, Slots grants the free slots, Reconcile composes them.
pub mod Tasks
pub mod Slots
pub mod Reconcile
pub mod Groups
pub mod Membership
pub mod Grants
pub mod Sends
