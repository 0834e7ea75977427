-- ===== src/ReadOnly.antt =====
-- lsmf/read_only_process.py: the executor of audits and verifications.
pub mod Output
pub mod Results
pub mod Commands
pub mod Executor
pub mod Cleanup
pub mod Answers
pub mod Success
