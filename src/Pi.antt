-- ===== src/Pi.antt =====
-- packages/harness-pi-no-compaction/src: a coding agent without compaction. A run is a sequence of
-- turns; a turn asks the language model once and then runs the tools that it called.
pub mod Instructions
pub mod Tools
pub mod Config
pub mod Calls
pub mod Tables
pub mod LlmInput
pub mod Work
pub mod Turn
pub mod Batch
pub mod Completion
pub mod Response
pub mod Input
pub mod Plan
pub mod Handle
pub mod Harness
pub mod Rows
pub mod CallIds
pub mod Pages
pub mod Lane
pub mod Order
pub mod Stale
pub mod Admitted
