-- ===== src/MinimalBash/Harness.antt =====
-- `apply` of packages/harness-minimal-bash/src/harness.ts, and the harness as the runtime takes it.
use managed_agents.Common.{
  ℕ, String, Bool, Option, none, some, is_some, if◌then◌else◌, List, [], ◌∷◌, Result, ok, ◌>>=◌,
  ◌>>◌, refuse, error,
}
use managed_agents.Contracts.Json.{Json}
use managed_agents.Contracts.Llm.{llm_operation}
use managed_agents.Contracts.ToolDefinition.{pi_bash_operation}
use managed_agents.Contracts.ToolExecution.{Url}
use managed_agents.Runtime.Storage.{Envelope}
use managed_agents.Runtime.Harness.{TransitionPlan, ReadContext, HarnessDefinition}
use managed_agents.MinimalBash.Config.{
  bash_identity, parse_bash_config, config_json, stored_config, parse_bash_input,
}
use managed_agents.MinimalBash.State.{State, Tables, initial_state, read_state}
use managed_agents.MinimalBash.Work.{Changes}
use managed_agents.MinimalBash.Handle.{react_all}
use managed_agents.Pi.Harness.{insert_messages, insert_pending, resolve}

-- `save`, an UPDATE of the one row
unfoldable pub save : Option State → List ℕ → Option State → Option State
save none sequences row = row
save (some s) sequences none = none
save (some s) sequences (some before) =
    some (record s { active_assistant_sequence = resolve sequences s.active_assistant_sequence })

unfoldable pub apply_changes : Changes → Tables → Result Tables
apply_changes changes t = do
  let inserted = insert_messages changes.messages t.messages
  pending ← insert_pending changes.pending (if changes.promote_pending then [] else t.pending)
  ok (record {
    state = save changes.state inserted.1 t.state;
    messages = inserted.0;
    pending = pending;
  })

unfoldable pub initialize_tables : Tables → Result Tables
initialize_tables t = do
  refuse (is_some t.state) (error "SQLITE_CONSTRAINT")
  ok (record t { state = some initial_state })

abbrev pub no_tables : Tables
no_tables = record { state = none; messages = []; pending = [] }

module _ (parse_json : String → Result Json) (over_limit : String → Bool)
    (parse_url : String → Option Url) where
  unfoldable pub handle : Envelope → ReadContext → Tables → Result (TransitionPlan Changes)
  handle input read t = do
    config ← stored_config read.session.config
    s ← read_state t
    react_all parse_json over_limit config read t s input

  -- `minimalBashHarness`
  unfoldable pub minimal_bash : HarnessDefinition Tables Changes
  minimal_bash = record {
    identity = bash_identity;
    operations = llm_operation ∷ pi_bash_operation ∷ [];
    parse_config = λ value. parse_bash_config parse_url value >>= λ config. ok (config_json config);
    parse_input = parse_bash_input;
    initialize = λ session t. initialize_tables t;
    handle = handle;
    apply = λ changes session t. apply_changes changes t;
  }
