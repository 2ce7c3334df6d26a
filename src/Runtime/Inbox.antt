-- ===== src/Runtime/Inbox.antt =====
-- The inbox as an ordered queue: its well-formedness, and what admission and consumption do to it.
pub mod Shape
pub mod Updates
pub mod Queue
pub mod Progress
pub mod Known
