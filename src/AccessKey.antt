-- ===== src/AccessKey.antt =====
-- internal/controller/accesskey_controller.go and accesskey_conditions.go.
pub mod Calls
pub mod Conditions
pub mod Types
pub mod External
pub mod Reconciler
pub mod Settled
pub mod KeyLaws
pub mod Single
pub mod Claims
pub mod Identified
pub mod Deletion
pub mod Ownership
pub mod Ready
