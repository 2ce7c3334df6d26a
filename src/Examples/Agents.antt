-- ===== src/Examples/Agents.antt =====
-- The coding agent at concrete inputs.

use managed_agents.Contracts.Validation.{defined, nonempty_string, only_keys, record_of}
use managed_agents.Pi.Admitted.{parse_pi_input-read}
use managed_agents.Pi.Harness.{no_tables}
use managed_agents.Pi.Input.{other, completed, input_of}
use managed_agents.Pi.Handle.{react_all}
use managed_agents.Pi.Stale.{no_plan, react_all-stale, NotAwaited}
use managed_agents.Contracts.Text.{includes, utf8_bytes, is_blank}
use managed_agents.Common.{
  true≢false, sym, eq_iff, some_eq, ◌≡◌, ◌≢◌, refl, ℕ, String, false, none, some, List, [], ◌∷◌, ok,
  err, Result, error, arith,
}
use managed_agents.Contracts.Json.{quote, stringify, get, Json, obj, end}
use managed_agents.Contracts.Session.{event_body, parse_event_body, EventBody}
use managed_agents.Contracts.Operation.{cancelled}
use managed_agents.Runtime.Event.{external, operation_completed}
use managed_agents.Runtime.Storage.{Envelope}
use managed_agents.Runtime.Harness.{ReadContext}
use managed_agents.Examples.Toy.{info}
use managed_agents.Pi.Config.{
  object_of, fields_of, check_input, as_input, PiConfig, openai, parse_pi_input,
}
use managed_agents.Pi.Tables.{active, done, State, Tables, Phase, initial_state, page_rows}
use managed_agents.Pi.Pages.{Leaves, IsPage, page_rows-Leaves}

abbrev pub config : PiConfig
config = record {
  provider = openai;
  model_id = "gpt-5.6-sol";
  account_id = "01234567-89ab-4def-8123-456789abcdef";
  reasoning = "medium";
  machine_id = "01234567-89ab-4def-8123-456789abcdef";
  execution_token =
      "me1.01234567-89ab-4def-8123-456789abcdef.1.abcdefghijklmnopqrstuvwxyzabcdefghijklmnopq";
  execution_gateway_url = "https://gateway.example";
  cwd = "/work";
  max_output_tokens = 128000;
}

abbrev pub context : ReadContext
context = record { session = info; operation_id = λ key. ok key }

abbrev sizes : List ℕ
sizes = 2097150 ∷ 1 ∷ 2 ∷ 3 ∷ []

page_rows-Leaves_example :
    (rest : List ℕ) × Leaves (page_rows 100 (λ n. n) sizes) sizes rest
    × IsPage 100 (λ n. n) sizes (page_rows 100 (λ n. n) sizes)
page_rows-Leaves_example = page_rows-Leaves 100 (λ n. n) sizes (omega arith)

abbrev pub unread : String → Result Json
unread text = err (error "unread")

abbrev late_answer : Envelope
late_answer = record {
  event_id = "e";
  sequence = 3;
  received_at = 9;
  event = operation_completed "o" "llm" none cancelled;
}

-- a run whose call has a result already, and one whose call still runs
abbrev running_state : State
running_state = record initial_state { phase = Phase.tools }

abbrev call_tables : Tables
call_tables = record no_tables {
  batch =
      record { call_index = 0; status = done; operation_id = some "o"; result = none }
      ∷ record { call_index = 1; status = active; operation_id = some "p"; result = none }
      ∷ [];
}

late_answer-NotAwaited : NotAwaited call_tables running_state "o"
late_answer-NotAwaited = (
  λ phase. cc,
  λ phase. (λ status. cc, (λ status own. true≢false (sym ((eq_iff "p" "o").1 (some_eq own))), tt)),
)

late_answer-input : input_of late_answer.event ≡ completed "o" cancelled
unfolding input_of
late_answer-input = refl

react_all-stale_example :
    react_all unread (λ text. false) config context call_tables running_state late_answer
    ≡ ok no_plan
react_all-stale_example =
    react_all-stale unread (λ text. false) config context call_tables running_state late_answer "o"
      cancelled late_answer-input late_answer-NotAwaited

abbrev resume_event : EventBody
resume_event = record { type = "pi_no_compaction.resume"; payload = obj end }

resume-admitted : parse_pi_input resume_event ≡ ok resume_event
unfolding parse_pi_input as_input parse_event_body event_body record_of only_keys includes get
    nonempty_string is_blank utf8_bytes stringify quote check_input fields_of defined object_of
resume-admitted = refl

parse_pi_input-read_example : input_of (external "pi_no_compaction.resume" (obj end)) ≢ other
parse_pi_input-read_example = parse_pi_input-read resume_event resume_event resume-admitted
