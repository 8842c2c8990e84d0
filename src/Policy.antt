-- ===== src/Policy.antt =====
-- internal/controller/accesspolicy_controller.go and accesspolicy_conditions.go.
pub mod Quiet
pub mod Stored
pub mod Calls
pub mod Conditions
pub mod Types
pub mod Assign
pub mod Reconciler
pub mod Ready
pub mod Finalizer
pub mod Metadata
pub mod Waits
pub mod Grant
pub mod Labels
pub mod Enforced
pub mod Retry
pub mod Revoked
pub mod Found
pub mod Converged
