-- ===== src/Controller.antt =====
-- internal/controller: the four reconcilers.
pub mod Bytes
pub mod LockAge
pub mod Repository
pub mod Pods
pub mod Restore
pub mod Scheduling
pub mod Backup
pub mod Retention
pub mod Commands
pub mod Secrets
pub mod Hardening
pub mod Footprints
pub mod Returns
