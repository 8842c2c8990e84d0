-- ===== src/Startup.antt =====
-- cmd/main.go: how the process is put together and started, and how it ends when a step fails.
pub mod Process
pub mod Flags
pub mod Servers
pub mod Controllers
pub mod Program
pub mod Protocols
pub mod Steps
pub mod Started
pub mod Failures
pub mod Exits
