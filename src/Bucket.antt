-- ===== src/Bucket.antt =====
-- internal/controller/bucket_controller.go and bucket_conditions.go.
pub mod Calls
pub mod Conditions
pub mod Types
pub mod Resolve
pub mod ConfigMaps
pub mod Reconciler
pub mod Identity
pub mod Stale
pub mod Owned
pub mod Ready
pub mod Conflict
pub mod Verified
pub mod Claims
pub mod Identified
