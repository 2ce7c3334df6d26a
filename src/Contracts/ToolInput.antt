-- ===== src/Contracts/ToolInput.antt =====
-- The inputs of the tools: packages/contracts/src/pi-read.ts, pi-write.ts, pi-edit.ts and
-- codex-apply-patch.ts. The trusted caller adds the machine and its directory.
use managed_agents.Common.{
  ℕ, String, ◌&&◌, ◌||◌, Option, none, some, List, [], ◌∷◌, leb, ltb, ◌==◌, str_eq, Result, ok, err,
  ◌>>=◌, ◌>>◌, require, refuse, contract, invalid_request,
}
use managed_agents.Contracts.Text.{utf16_length, concat}
use managed_agents.Contracts.Json.{Json, num, str, arr, Fields, get, count, whole}
use managed_agents.Contracts.Validation.{defined, max_safe_integer, record_of, nonempty_string}
use managed_agents.Contracts.Operation.{OperationDefinition}
use managed_agents.Contracts.Pattern.{has_nul, is_absolute_machine_path}
use managed_agents.Contracts.Llm.{parse_uuid, map_items}

abbrev pub pi_read_operation : OperationDefinition
pi_read_operation = record { provider = "tool-pi-read"; type = "read"; version = "v1" }

abbrev pub pi_write_operation : OperationDefinition
pi_write_operation = record { provider = "tool-pi-write"; type = "write"; version = "v1" }

abbrev pub pi_edit_operation : OperationDefinition
pi_edit_operation = record { provider = "tool-pi-edit"; type = "edit"; version = "v1" }

abbrev pub codex_apply_patch_operation : OperationDefinition
codex_apply_patch_operation = record {
  provider = "tool-codex-apply-patch";
  type = "apply_patch";
  version = "v1";
}

abbrev pub pi_edit_max_edits : ℕ
pi_edit_max_edits = 256

-- a tool's arguments on a machine
pub record OnMachine (A : Type 0) : Type 0 where
  pub machine_id : String
  pub cwd : String
  pub arguments : A

unfoldable pub checked_cwd : Fields → Result String
checked_cwd r = do
  cwd ← nonempty_string (get "cwd" r) "cwd" invalid_request
  require (is_absolute_machine_path cwd && leb (utf16_length cwd) 8192)
      (contract invalid_request "cwd must be an absolute machine path of at most 8192 characters.")
  ok cwd

-- the input of a tool, from the arguments that its own validator reads
unfoldable pub on_machine :
    {A : Type 0} → List String → String → (Fields → Result A) → Json → Result (OnMachine A)
on_machine keys path arguments_of value = do
  r ← record_of (some value) keys path invalid_request
  cwd ← checked_cwd r
  machine_id ← parse_uuid (get "machineId" r)
  arguments ← arguments_of r
  ok (record { machine_id = machine_id; cwd = cwd; arguments = arguments })

-- the arguments are validated again as an object of their own, which must hold no undefined property
unfoldable pub passed_on : List String → Fields → Result (Unit {0})
passed_on [] r = ok tt
passed_on (key ∷ keys) r = defined (get key r) >> passed_on keys r

unfoldable pub checked_path : Fields → Result String
checked_path r = do
  path ← nonempty_string (get "path" r) "path" invalid_request
  refuse (has_nul path || ltb 8192 (utf16_length path))
      (contract invalid_request "path must contain no NUL bytes and be at most 8192 characters.")
  ok path

pub record ReadToolInput : Type 0 where
  pub path : String
  pub offset : Option ℕ
  pub limit : Option ℕ

unfoldable pub positive_of : Option Json → String → Result (Option ℕ)
positive_of none key = ok none
positive_of (some (num (whole n))) key =
    require (leb 1 n && leb n max_safe_integer)
      (contract invalid_request (concat (key ∷ " must be a positive safe integer." ∷ [])))
    >> ok (some n)
positive_of (some _) key =
    err (contract invalid_request (concat (key ∷ " must be a positive safe integer." ∷ [])))

unfoldable pub read_arguments : Fields → Result ReadToolInput
read_arguments r = do
  path ← checked_path r
  offset ← positive_of (get "offset" r) "offset"
  limit ← positive_of (get "limit" r) "limit"
  ok (record { path = path; offset = offset; limit = limit })

unfoldable pub parse_read_tool_input : Json → Result ReadToolInput
parse_read_tool_input value =
    record_of (some value) ("path" ∷ "offset" ∷ "limit" ∷ []) "read arguments" invalid_request
    >>= read_arguments

unfoldable pub parse_read_input : Json → Result (OnMachine ReadToolInput)
parse_read_input value =
    on_machine ("machineId" ∷ "cwd" ∷ "path" ∷ "offset" ∷ "limit" ∷ []) "read input"
      (λ r. passed_on ("path" ∷ []) r >> read_arguments r) value

pub record WriteToolInput : Type 0 where
  pub path : String
  pub content : String

unfoldable pub content_text : Option Json → Result String
content_text (some (str s)) = ok s
content_text _ = err (contract invalid_request "content must be a string.")

unfoldable pub write_arguments : Fields → Result WriteToolInput
write_arguments r = do
  path ← checked_path r
  content ← content_text (get "content" r)
  ok (record { path = path; content = content })

unfoldable pub parse_write_tool_input : Json → Result WriteToolInput
parse_write_tool_input value =
    record_of (some value) ("path" ∷ "content" ∷ []) "write arguments" invalid_request
    >>= write_arguments

unfoldable pub parse_write_input : Json → Result (OnMachine WriteToolInput)
parse_write_input value =
    on_machine ("machineId" ∷ "cwd" ∷ "path" ∷ "content" ∷ []) "write input"
      (λ r. passed_on ("path" ∷ "content" ∷ []) r >> write_arguments r) value

pub record EditReplacement : Type 0 where
  pub old_text : String
  pub new_text : String

pub record EditToolInput : Type 0 where
  pub path : String
  pub edits : List EditReplacement

unfoldable pub replacement_of : Option Json → Option Json → Result EditReplacement
replacement_of (some (str old)) (some (str new)) =
    refuse (str_eq old "")
      (contract invalid_request "oldText must be a nonempty string and newText must be a string.")
    >> ok (record { old_text = old; new_text = new })
replacement_of _ _ =
    err (contract invalid_request "oldText must be a nonempty string and newText must be a string.")

unfoldable pub edit_replacement : Json → Result EditReplacement
edit_replacement value = do
  edit ← record_of (some value) ("oldText" ∷ "newText" ∷ []) "edit replacement" invalid_request
  replacement_of (get "oldText" edit) (get "newText" edit)

unfoldable pub edits_of : Option Json → Result (List EditReplacement)
edits_of (some (arr items)) =
    refuse (count items == 0 || ltb pi_edit_max_edits (count items))
      (contract invalid_request "edits must contain between 1 and 256 replacements.")
    >> map_items edit_replacement items
edits_of _ = err (contract invalid_request "edits must contain between 1 and 256 replacements.")

unfoldable pub edit_arguments : Fields → Result EditToolInput
edit_arguments r = do
  path ← checked_path r
  edits ← edits_of (get "edits" r)
  ok (record { path = path; edits = edits })

unfoldable pub parse_edit_tool_input : Json → Result EditToolInput
parse_edit_tool_input value =
    record_of (some value) ("path" ∷ "edits" ∷ []) "edit arguments" invalid_request
    >>= edit_arguments

unfoldable pub parse_edit_input : Json → Result (OnMachine EditToolInput)
parse_edit_input value =
    on_machine ("machineId" ∷ "cwd" ∷ "path" ∷ "edits" ∷ []) "edit input"
      (λ r. passed_on ("path" ∷ "edits" ∷ []) r >> edit_arguments r) value

unfoldable pub parse_apply_patch_tool_input : Option Json → Result String
parse_apply_patch_tool_input (some (str patch)) = ok patch
parse_apply_patch_tool_input _ =
    err (contract invalid_request "apply_patch input must be raw patch text.")

unfoldable pub parse_apply_patch_input : Json → Result (OnMachine String)
parse_apply_patch_input value =
    on_machine ("machineId" ∷ "cwd" ∷ "patch" ∷ []) "apply_patch input"
      (λ r. parse_apply_patch_tool_input (get "patch" r)) value
