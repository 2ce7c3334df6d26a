-- ===== src/Contracts/Llm.antt =====
-- packages/contracts/src/llm.ts: what a call of a language model is made of. A message, a tool and a
-- response are the JSON that was validated, as the code returns it.
use managed_agents.Common.{
  String, Bool, ◌&&◌, ◌||◌, Option, none, some, List, [], ◌∷◌, if◌then◌else◌, starts_with, Result,
  ok, err, ◌>>=◌, ◌>>◌, require, contract, invalid_request,
}
use managed_agents.Contracts.Text.{includes}
use managed_agents.Contracts.Json.{Json, str, arr, obj, Items, nil, cons, Fields, get}
use managed_agents.Contracts.Validation.{record_of}
use managed_agents.Contracts.Operation.{OperationDefinition, is_text}
use managed_agents.Contracts.Pattern.{is_uuid}

abbrev pub llm_operation : OperationDefinition
llm_operation = record { provider = "llm"; type = "generate"; version = "v1" }

unfoldable pub invalid : {A : Type 0} → String → Result A
invalid message = err (contract invalid_request message)

unfoldable pub object : Option Json → Result Fields
object (some (obj r)) = ok r
object _ = invalid "Expected a JSON object."

unfoldable pub string : Option Json → Result String
string (some (str s)) = ok s
string _ = invalid "Expected a string."

unfoldable pub parse_uuid : Option Json → Result String
parse_uuid value = do
  id ← string value
  require (is_uuid id) (contract invalid_request "Expected a UUID.")
  ok id

unfoldable pub array : Option Json → Result Items
array (some (arr items)) = ok items
array _ = invalid "Expected an array."

-- a check of a property that may be absent
unfoldable pub if_present :
    {A : Type 0} → Option Json → (Option Json → Result A) → Result (Unit {0})
if_present none check = ok tt
if_present (some v) check = check (some v) >> ok tt

unfoldable pub optional_string : Fields → String → Result (Unit {0})
optional_string r key = if_present (get key r) string

unfoldable pub metadata : Fields → Result (Unit {0})
metadata r = if_present (get "metadata" r) object

-- `for (const x of items)`, which stops at the first throw
unfoldable pub each : (Json → Result (Unit {0})) → Items → Result (Unit {0})
each check nil = ok tt
each check (cons v rest) = check v >> each check rest

unfoldable pub map_items : {A : Type 0} → (Json → Result A) → Items → Result (List A)
map_items f nil = ok []
map_items f (cons v rest) = f v >>= λ first. map_items f rest >>= λ others. ok (first ∷ others)

unfoldable pub text_part : Fields → Result (Unit {0})
text_part p = do
  record_of (some (obj p)) ("type" ∷ "text" ∷ "metadata" ∷ []) "text" invalid_request
  string (get "text" p)
  ok tt

unfoldable pub image_detail : Option Json → Result (Unit {0})
image_detail value = do
  detail ← string value
  require (includes ("auto" ∷ "low" ∷ "high" ∷ "original" ∷ []) detail)
      (contract invalid_request "Invalid image detail.")

unfoldable pub image_part : Fields → Result (Unit {0})
image_part p = do
  record_of (some (obj p)) ("type" ∷ "url" ∷ "detail" ∷ "metadata" ∷ []) "image" invalid_request
  url ← string (get "url" p)
  require (starts_with url "http://" || starts_with url "https://")
      (contract invalid_request "Image URL must use HTTP or HTTPS.")
  if_present (get "detail" p) image_detail

unfoldable pub part : Bool → Json → Result (Unit {0})
part images value = do
  p ← object (some value)
  if is_text (get "type" p) "text"
      then text_part p
      else if images && is_text (get "type" p) "image"
      then image_part p
      else invalid "Unsupported content part."
  metadata p

unfoldable pub content : Option Json → Bool → Result (Unit {0})
content value images = array value >>= each (part images)

unfoldable pub tool_error : Fields → Result (Unit {0})
tool_error outcome = do
  record_of (some (obj outcome)) ("status" ∷ "error" ∷ []) "tool outcome" invalid_request
  error ← record_of (get "error" outcome) ("message" ∷ "name" ∷ []) "tool error" invalid_request
  string (get "message" error)
  optional_string error "name"

unfoldable pub tool_success : Fields → Result (Unit {0})
tool_success outcome =
    record_of (some (obj outcome)) ("status" ∷ []) "tool outcome" invalid_request >> ok tt

unfoldable pub tool_outcome : Fields → Result (Unit {0})
tool_outcome outcome =
    if is_text (get "status" outcome) "success"
    then tool_success outcome
    else if is_text (get "status" outcome) "error"
    then tool_error outcome
    else invalid "Invalid tool result outcome."
