-- ===== src/Api.antt =====
-- api/v1alpha1: the custom resources, and the Kubernetes objects that the operator builds.
pub mod Meta
pub mod Shared
pub mod Repository
pub mod Backup
pub mod Restore
pub mod Retention
pub mod Workload
