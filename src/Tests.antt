-- ===== src/Tests.antt =====
-- Sample data, runs of the controllers on it, and instances of the theorems.
mod Sorting
mod Samples
mod Tasks
mod Pools
mod Slots
mod Platforms
mod Completion
mod Histories
mod StartUp
mod Pods
mod Requests
mod Progress
mod Cleanup
mod Copies
mod Stale
