-- ===== src/Api.antt =====
-- The data that the operator works on: the two custom resources of api/v1alpha1 and the parts of
-- Kubernetes objects that the operator reads or writes.
mod Meta
mod Task
mod Pool
mod Core
unfoldable pub use Meta.*
pub use Task.*
pub use Pool.*
pub use Core.*
