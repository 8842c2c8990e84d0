-- ===== src/Garage.antt =====
-- internal/garage: the client of Garage's admin API.
pub mod Types
pub mod Http
pub mod Keys
pub mod Buckets
pub mod Permissions
pub mod Answers
pub mod Recorded
pub mod Grant
pub mod Readback
pub mod Metrics
pub mod Client
