-- ===== src/Contracts/ToolExecution.antt =====
-- packages/contracts/src/tool-execution.ts. `parse_url` is the platform's `URL`.
use managed_agents.Common.{
  ℕ, ◌+◌, ◌-◌, ◌*◌, code, Char, String, Bool, true, false, not, ◌&&◌, ◌||◌, Option, none, some,
  List, [], ◌∷◌, leb, ltb, ◌==◌, if◌then◌else◌, str_eq, Result, ok, err, ◌>>=◌, ◌>>◌, require,
  contract, invalid_request,
}
use managed_agents.Contracts.Text.{utf16_length, is_white_space}
use managed_agents.Contracts.Json.{Json, str, get}
use managed_agents.Contracts.Validation.{defined, max_safe_integer, record_of, nonempty_string}
use managed_agents.Contracts.Operation.{ProviderSubmission, parse_provider_submission}
use managed_agents.Contracts.Pattern.{digit, letter, matches, times, all_of}
use managed_agents.Contracts.Llm.{parse_uuid}
use managed_agents.Contracts.LlmMessage.{SessionDestination, short_ids}

pub record ToolExecutionContext : Type 0 where
  pub gateway_url : String
  pub token : String
  pub runtime_generation : String

pub record ToolExecutionSubmission : Type 0 where
  pub destination : SessionDestination
  pub execution : ToolExecutionContext
  pub submission : ProviderSubmission

abbrev alphanumeric : ℕ → Bool
alphanumeric c = digit c || letter c

-- `text.split(".")`
unfoldable pub put_first : Char → List String → List String
put_first c [] = String.◌∷◌ c "" ∷ []
put_first c (part ∷ parts) = String.◌∷◌ c part ∷ parts

unfoldable pub split_dots : String → List String
split_dots String.[] = "" ∷ []
split_dots (String.◌∷◌ c rest) =
    let parts = split_dots rest in if code c == b'.' then "" ∷ parts else put_first c parts

unfoldable pub digits_value : ℕ → String → ℕ
digits_value n String.[] = n
digits_value n (String.◌∷◌ c rest) = digits_value (n * 10 + (code c - b'0')) rest

-- `^[1-9][0-9]*$` and a safe integer
unfoldable pub is_version : String → Bool
is_version String.[] = false
is_version (String.◌∷◌ c rest) =
    leb b'1' (code c)
    && leb (code c) b'9'
    && all_of digit rest
    && leb (digits_value 0 (String.◌∷◌ c rest)) max_safe_integer

abbrev secret_character : ℕ → Bool
secret_character c = alphanumeric c || c == b'_' || c == b'-'

unfoldable pub is_secret : String → Bool
is_secret s = matches (times 43 secret_character) s

abbrev not_a_secret : {A : Type 0} → Result A
not_a_secret = err (contract invalid_request "Expected a machine execution secret.")

unfoldable pub token_parts : String → List String → Result String
token_parts token (scheme ∷ machine ∷ version ∷ secret ∷ []) =
    require (str_eq scheme "me1" && is_version version && is_secret secret)
      (contract invalid_request "Expected a machine execution secret.")
    >> parse_uuid (some (str machine))
    >> ok token
token_parts token _ = not_a_secret

unfoldable pub parse_execution_token : Option Json → Result String
parse_execution_token value = do
  json ← defined value
  token ← nonempty_string (some json) "execution token" invalid_request
  token_parts token (split_dots token)

abbrev token_character : ℕ → Bool
token_character c = alphanumeric c || c == b'.' || c == b'_' || c == b'~' || c == b'-'

-- `https://` under the flag `i`
unfoldable pub https_prefix : List (ℕ → Bool)
https_prefix =
    (λ c. c == b'h' || c == b'H')
    ∷ (λ c. c == b't' || c == b'T')
    ∷ (λ c. c == b't' || c == b'T')
    ∷ (λ c. c == b'p' || c == b'P')
    ∷ (λ c. c == b's' || c == b'S')
    ∷ (λ c. c == b':')
    ∷ (λ c. c == 0x2f)
    ∷ (λ c. c == 0x2f)
    ∷ []

abbrev authority_character : ℕ → Bool
authority_character c = not (c == 0x2f || c == 0x3f || c == b'#' || c == b'@' || c == 0x5c)

-- `[^/?#@\\]+\/?$`, with whether a character was read
unfoldable pub is_authority : Bool → String → Bool
is_authority seen String.[] = seen
is_authority seen (String.◌∷◌ c rest) =
    let more = is_authority true rest in
    if authority_character (code c) then more else seen && code c == 0x2f && str_eq rest ""

unfoldable pub behind_classes : List (ℕ → Bool) → String → Option String
behind_classes [] text = some text
behind_classes (p ∷ ps) String.[] = none
behind_classes (p ∷ ps) (String.◌∷◌ c rest) =
    let more = behind_classes ps rest in if p (code c) then more else none

unfoldable pub is_https_origin : Option String → Bool
is_https_origin none = false
is_https_origin (some rest) = is_authority false rest

abbrev visible : ℕ → Bool
visible c = not (is_white_space c || ltb c 0x20 || c == 0x7f)

-- what the code reads of a parsed URL
pub record Url : Type 0 where
  pub protocol : String
  pub hostname : String
  pub username : String
  pub password : String
  pub search : String
  pub hash : String
  pub pathname : String
  pub origin : String

abbrev bad_gateway : {A : Type 0} → Result A
bad_gateway = err (
    contract invalid_request
      "executionGatewayUrl must be an HTTPS origin without credentials, path, query or fragment.")

unfoldable pub is_plain_origin : Url → Bool
is_plain_origin url =
    str_eq url.protocol "https:"
    && not (str_eq url.hostname "")
    && str_eq url.username ""
    && str_eq url.password ""
    && str_eq url.search ""
    && str_eq url.hash ""
    && str_eq url.pathname "/"

unfoldable pub origin_of : Option Url → Result String
origin_of none = bad_gateway
origin_of (some url) = if is_plain_origin url then ok url.origin else bad_gateway

-- `executionIdentity`
unfoldable pub is_identity : String → Bool
is_identity String.[] = false
is_identity (String.◌∷◌ c rest) =
    alphanumeric (code c)
    && all_of (λ c. alphanumeric c || c == b'_' || c == b'.' || c == b':' || c == b'@' || c == b'-')
        rest

unfoldable pub execution_identity : Option Json → Result String
execution_identity value = do
  json ← defined value
  id ← nonempty_string (some json) "execution identity" invalid_request
  require (leb (utf16_length id) 128 && is_identity id)
      (contract invalid_request "Invalid execution identity.")
  ok id

module _ (parse_url : String → Option Url) where
  unfoldable pub parse_execution_gateway_url : Option Json → Result String
  parse_execution_gateway_url (some (str value)) =
      if leb (utf16_length value) 2048
        && is_https_origin (behind_classes https_prefix value)
        && all_of visible value
      then origin_of (parse_url value)
      else bad_gateway
  parse_execution_gateway_url _ = bad_gateway

  unfoldable pub parse_tool_execution_context : Option Json → Result ToolExecutionContext
  parse_tool_execution_context value = do
    json ← defined value
    r ←
        record_of (some json) ("gatewayUrl" ∷ "token" ∷ "runtimeGeneration" ∷ [])
          "execution context" invalid_request
    token ← nonempty_string (get "token" r) "execution.token" invalid_request
    require (leb (utf16_length token) 32768 && all_of token_character token)
        (contract invalid_request "Invalid execution token encoding.")
    parse_execution_token (some (str token))
    gateway_url ← parse_execution_gateway_url (get "gatewayUrl" r)
    generation ← parse_uuid (get "runtimeGeneration" r)
    ok (record { gateway_url = gateway_url; token = token; runtime_generation = generation })

  unfoldable pub parse_tool_execution_submission : Json → Result ToolExecutionSubmission
  parse_tool_execution_submission value = do
    r ←
        record_of (some value) ("destination" ∷ "execution" ∷ "submission" ∷ [])
          "execution submission" invalid_request
    d ←
        record_of (get "destination" r) ("routeKey" ∷ "sessionId" ∷ []) "destination"
          invalid_request
    route_key ← execution_identity (get "routeKey" d)
    session_id ← execution_identity (get "sessionId" d)
    submission ← parse_provider_submission (get "submission" r)
    short_ids (record { route_key = route_key; session_id = session_id }) submission
    execution ← parse_tool_execution_context (get "execution" r)
    ok (record {
      destination = record { route_key = route_key; session_id = session_id };
      execution = execution;
      submission = submission;
    })
