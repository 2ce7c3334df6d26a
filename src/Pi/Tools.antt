-- ===== src/Pi/Tools.antt =====
-- packages/harness-pi-no-compaction/src/tools.ts: the four tools and the operation that a call asks
-- for. `JSON.parse` is the platform's.
use managed_agents.Common.{
  ℕ, String, Bool, true, false, Option, none, some, if◌then◌else◌, str_eq, List, [], ◌∷◌, Result,
  ◌>>=◌, ok,
}
use managed_agents.Contracts.Json.{
  Json, num, str, arr, obj, Items, nil, cons, Fields, end, field, whole,
}
use managed_agents.Contracts.Operation.{
  OperationDefinition, OperationRequest, parse_operation_request,
}
use managed_agents.Contracts.ToolInput.{
  pi_read_operation, pi_write_operation, pi_edit_operation, ReadToolInput, WriteToolInput,
  EditReplacement, EditToolInput, parse_read_tool_input, parse_write_tool_input,
  parse_edit_tool_input,
}
use managed_agents.Contracts.Bash.{BashToolInput, parse_bash_tool_input}
use managed_agents.Contracts.ToolDefinition.{
  pi_bash_operation, pi_bash_tool, pi_read_tool, pi_write_tool, pi_edit_tool,
}

pub data ToolName : Type 0 where
  bash read edit write : ToolName

pub record ToolCall : Type 0 where
  pub call_id : String
  pub name : ToolName
  pub arguments : String

unfoldable pub tool_text : ToolName → String
tool_text bash = "bash"
tool_text read = "read"
tool_text edit = "edit"
tool_text write = "write"

-- `isToolName`, with the name that it recognises
unfoldable pub tool_name : Option Json → Option ToolName
tool_name (some (str s)) =
    if str_eq s "bash"
    then some bash
    else if str_eq s "read"
    then some read
    else if str_eq s "edit"
    then some edit
    else if str_eq s "write"
    then some write
    else none
tool_name _ = none

unfoldable pub is_mutation : ToolName → Bool
is_mutation edit = true
is_mutation write = true
is_mutation _ = false

abbrev pub tools : Items
tools = cons pi_read_tool (cons pi_bash_tool (cons pi_edit_tool (cons pi_write_tool nil)))

abbrev pub tool_operations : List OperationDefinition
tool_operations =
    pi_bash_operation ∷ pi_read_operation ∷ pi_edit_operation ∷ pi_write_operation ∷ []

-- a property that is spread into an object only if it is defined
abbrev optional_field : String → Option Json → Fields → Fields
optional_field key none rest = rest
optional_field key (some value) rest = field key value rest

abbrev count_json : Option ℕ → Option Json
count_json none = none
count_json (some n) = some (num (whole n))

abbrev bash_fields : BashToolInput → Fields → Fields
bash_fields input rest =
    field "command" (str input.command)
      (optional_field "timeout" (elim input.timeout [ none ↦ none | some n ↦ some (num n) ]) rest)

abbrev read_fields : ReadToolInput → Fields → Fields
read_fields input rest = field "path" (str input.path) (
    optional_field "offset" (count_json input.offset)
      (optional_field "limit" (count_json input.limit) rest))

abbrev write_fields : WriteToolInput → Fields → Fields
write_fields input rest = field "path" (str input.path) (field "content" (str input.content) rest)

abbrev edit_items : List EditReplacement → Items
edit_items [] = nil
edit_items (e ∷ edits) =
    cons (obj (field "oldText" (str e.old_text) (field "newText" (str e.new_text) end)))
      (edit_items edits)

abbrev edit_fields : EditToolInput → Fields → Fields
edit_fields input rest =
    field "path" (str input.path) (field "edits" (arr (edit_items input.edits)) rest)

-- `{ ...operation, input }`
abbrev request_json : OperationDefinition → Fields → Json
request_json op input = obj (
    field "provider" (str op.provider) (
      field "type" (str op.type)
        (field "version" (str op.version) (field "input" (obj input) end))))

module _ (parse_json : String → Result Json) (over_limit : String → Bool) where
  -- the operation and the parsed arguments of a tool, before the fields of the machine
  unfoldable pub tool_input : ToolName → Json → Fields → Result Json
  tool_input bash value rest = parse_bash_tool_input over_limit value >>= λ input.
      ok (request_json pi_bash_operation (bash_fields input rest))
  tool_input read value rest = parse_read_tool_input value >>= λ input.
      ok (request_json pi_read_operation (read_fields input rest))
  tool_input edit value rest = parse_edit_tool_input value >>= λ input.
      ok (request_json pi_edit_operation (edit_fields input rest))
  tool_input write value rest = parse_write_tool_input value >>= λ input.
      ok (request_json pi_write_operation (write_fields input rest))

  unfoldable pub tool_request : ToolCall → String → String → Result OperationRequest
  tool_request call machine_id cwd = do
    value ← parse_json call.arguments
    request ←
        tool_input call.name value (field "machineId" (str machine_id) (field "cwd" (str cwd) end))
    parse_operation_request request
