-- ===== src/Contracts.antt =====
-- packages/contracts: validated JSON, its text and equality, and the wire types of sessions, inputs
-- and operations with their validators.
pub mod Text
pub mod Json
pub mod Validation
pub mod Session
pub mod Operation
pub mod Pattern
pub mod Llm
pub mod LlmMessage
pub mod Api
pub mod ToolExecution
pub mod ToolInput
pub mod ToolDefinition
pub mod Bash
pub mod ToolResult
