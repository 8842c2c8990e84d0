-- ===== src/DeepCopy.antt =====
-- api/v1alpha1/zz_generated.deepcopy.go: the DeepCopyInto, DeepCopy and DeepCopyObject methods of
-- the custom resources, over a memory of variables.
pub mod Types
pub mod Memory
pub mod Cells
pub mod Shapes
pub mod Reads
pub mod Copied
pub mod Shaped
pub mod Allocated
pub mod Sliced
pub mod Library
pub mod Objects
pub mod Keys
pub mod Policies
pub mod Buckets
pub mod Contents
pub mod KeyCopies
pub mod PolicyCopies
pub mod BucketCopies
pub mod Kinds
pub mod Runs
pub mod Snapshots
pub mod ObjectKinds
