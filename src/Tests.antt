-- ===== src/Tests.antt =====
-- Concrete services and objects, runs on them, and the theorems applied to them.
mod Samples
mod Services
mod Conditions
mod Restic
mod Controller
mod Notifications
mod Lifecycle
mod Operator
mod Locks
mod Damaged
mod Pods
mod Completion
mod Interleaving
