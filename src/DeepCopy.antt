-- ===== src/DeepCopy.antt =====
-- api/v1alpha1/zz_generated.deepcopy.go: the deep copies of the API types, over a heap of addresses.
pub mod Heap
pub mod Copies
pub mod Pointers
pub mod Maps
pub mod Layout
pub mod Imported
pub mod Into
pub mod Meaning
pub mod Structs
pub mod Independent
