-- ===== src/Restic.antt =====
-- internal/restic: the restic command line and the operations on a repository.
pub mod Types
pub mod Command
pub mod Executor
