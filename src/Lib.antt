-- ===== src/Lib.antt =====
-- A model of the session runtime of managed agents and of what stands around it.
--
-- A session is a database with an inbox of events, one per row. The runtime
-- (packages/session-runtime/src/runtime.ts) admits inputs and completions of operations into it, plans the
-- transition that the first waiting event leads to by asking the session's harness, and commits that
-- transition in one transaction with the answers of the providers that its operations were submitted to.
-- The driver (packages/session-runtime/src/driver.ts) runs this loop, keeps answers between attempts, and
-- arms an alarm while work is left.
--
-- Files and what they model:
--   Common             names of the library, tests, lists, results, and methods of an object (Exec)
--   Contracts          packages/contracts/src: JSON values, their text and equality, and the validators
--     Session, Operation         session.ts, input.ts, operation.ts
--     Llm, LlmMessage, Pattern   llm.ts with its regular expressions
--     Api                        api.ts
--     ToolExecution              tool-execution.ts
--     ToolInput, ToolDefinition, ToolResult, Bash
--                                pi-bash.ts, pi-read.ts, pi-write.ts, pi-edit.ts, codex-apply-patch.ts
--   Runtime            packages/session-runtime/src and packages/harness-api/src
--     Event, Identity            input-hash.ts, operation-identity.ts, operation-definitions.ts
--     Storage                    storage/*.ts: rows, and the statements on them as functions
--     Harness                    the interface that a harness implements
--     Core                       the class SessionRuntime, a file for each method
--     Inbox, Invariant           well-formed inboxes and databases
--     Insertion, Preservation, Growth  what the transactions keep and add
--     Coherence, Calls           the invariant of a runtime object, for each method and for histories
--     Sessions, Replay, Retry    the required session, what transactions keep, and repeated inputs
--     Atomicity                  calls that throw
--   Driver             the class SessionDriver
--   Gateway            execution/packages/execution-gateway-protocol/src and
--                      execution/apps/execution-gateway/src/{registry,credentials}.ts: messages, the row of
--                      a machine and its secrets
--   Execution          packages/session-execution/src/index.ts: the runtime a session is pinned to
--   Pi                 packages/harness-pi-no-compaction/src: a coding agent, as a harness of the runtime
--     Config, Instructions, Tools    contracts.ts, instructions.ts, tools.ts
--     Calls, LlmInput                llm.ts
--     Tables, Pages                  state.ts, schema.ts
--     Work, Turn, Batch, Response, Completion, Input, Plan, Handle, Harness
--                                    harness.ts: the helpers, turns, batches of calls, outcomes of
--                                    operations, inputs, the end of handle, handle, apply
--     CallIds, Rows, Lane, Order, Stale, Admitted
--                                    lemmas on these
--   MinimalBash        packages/harness-minimal-bash/src: an agent with the bash tool alone
--     Config, Calls, State           contracts.ts and instructions.ts, openai.ts, state.ts and schema.ts
--     Work, Commands, Completion, Handle, Harness
--                                    harness.ts; what it shares word for word with the other agent is
--                                    the definition of Pi
--     Quiet, Refusals, Silent        lemmas on these
--   Examples           a small harness, and the theorems at concrete inputs
--
-- State and failure: a method is a function from the runtime to a result and a runtime. A transaction works
-- on a copy of the database, which is kept only when it returns. `#busy` is a field, so a call inside a call
-- would fail as it does in the code. Numbers are natural numbers with the bounds that the code checks, such
-- as safe integers for sequences and times.
--
-- Parameters: sha256 (@noble/hashes) as a function from texts to bytes, the clock as the time of a call,
-- Math.random as a number of steps of 2^-53, URL and JSON.parse as functions, and the harness as a record of functions.
--
-- Not modelled: logging, publication of statuses, RPC and HTTP layers, checks for promises and other values
-- that the types exclude, and the parts of the repository in Rust. The SQL handle of a planning context is
-- not modelled either: `handle` gets the tables as a value and returns a plan, so the test that lets only
-- SELECT statements through, and the expiry of the handle, have no counterpart. What interleaves with a slice
-- of the driver is the calls between a submission and its commit; the alarm that an admission arms is left
-- out there. No fuel is used: every function is by structural recursion; the driver's loop runs over a list
-- of rounds with the times at which the code tests its step and time limits, and the time is over behind the
-- last of them.
pub mod Common
pub mod Contracts
pub mod Runtime
pub mod Driver
pub mod Gateway
pub mod Execution
pub mod Pi
pub mod MinimalBash
pub mod Examples
