-- ===== src/Runtime/Atomicity.antt =====
-- What the methods of a runtime write (runtime.ts).
pub mod Rules
pub mod Reading
pub mod Writing
pub mod Results
