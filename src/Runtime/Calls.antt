-- ===== src/Runtime/Calls.antt =====
-- The invariant of a runtime under its methods, a file for each, and under histories of calls.
pub mod Prepare
pub mod Append
pub mod Commit
pub mod Complete
pub mod Initialize
pub mod History
pub mod Failures
