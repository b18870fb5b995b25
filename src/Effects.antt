-- ===== src/Effects.antt =====
-- How the controllers meet the rest of the world: a handler is a tree of the calls that it makes,
-- each with a branch for every answer, so a statement about the tree covers every cluster, cache
-- and git host, stale or failing ones included.
mod Errors
mod Calls
mod Library
mod Programs
mod Rules
mod Panics
mod Servers
mod Reaching
pub mod LastWrites
unfoldable pub use Errors.*
pub use Calls.*
pub use Library.*
pub use Programs.*
pub use Rules.*
pub use Panics.*
unfoldable pub use Servers.*
pub use Reaching.*
