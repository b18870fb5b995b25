-- ===== src/System.antt =====
-- Both controllers at work on the tasks of one pool, in any order, with the users who create and
-- delete tasks.
pub mod Steps
pub mod Counting
pub mod Order
pub mod Granting
pub mod Changes
pub mod Slots
pub mod Invariant
pub mod Waiting
pub mod Ahead
pub mod Late
pub mod Stale
pub mod Refinement
pub mod Unique
pub mod Filling
pub mod Stuck
pub mod Ties
pub mod Histories
