-- ===== src/Memory.antt =====
-- api/v1alpha1/zz_generated.deepcopy.go: the custom resources in memory, where fields point to cells
-- that several objects may share, and the functions that copy them.
pub mod Heap
pub mod Views
pub mod Shapes
pub mod Copying
pub mod Objects
pub mod Cells
pub mod DeepCopy
pub mod Values
pub mod Copies
pub mod Structs
pub mod Independence
