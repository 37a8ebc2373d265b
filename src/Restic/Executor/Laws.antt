-- ===== src/Restic/Executor/Laws.antt =====
-- What the operations of the executor promise: the arguments they pass, and their results.
pub mod Arguments
pub mod Results
