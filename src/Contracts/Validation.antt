-- ===== src/Contracts/Validation.antt =====
-- packages/contracts/src/validation.ts
use managed_agents.Common.{
  none, ℕ, String, Bool, true, ◌&&◌, Option, some, List, [], ◌∷◌, leb, if◌then◌else◌, Result, ok,
  err, contract, ContractErrorCode, invalid_request,
}
use managed_agents.Contracts.Text.{concat, decimal, is_blank, includes}
use managed_agents.Contracts.Json.{Json, num, str, obj, Fields, end, field, whole}

abbrev pub max_safe_integer : ℕ
max_safe_integer = 9007199254740991

-- `Object.keys(value).some(key => !allowedKeys.includes(key))`, negated
unfoldable pub only_keys : List String → Fields → Bool
only_keys allowed end = true
only_keys allowed (field k v rest) = includes allowed k && only_keys allowed rest

-- `parseJsonValue` of a value that may be absent; a value of `Json` passes it
unfoldable pub defined : Option Json → Result Json
defined (some value) = ok value
defined none = err (contract invalid_request "Expected a JSON-compatible value.")

-- `undefined` is `none`
unfoldable pub record_of : Option Json → List String → String → ContractErrorCode → Result Fields
record_of (some (obj fields)) allowed path c =
    if only_keys allowed fields
    then ok fields
    else err (contract c (concat (path ∷ " contains unsupported fields." ∷ [])))
record_of _ allowed path c = err (contract c (concat (path ∷ " must be an object." ∷ [])))

unfoldable pub nonempty_string : Option Json → String → ContractErrorCode → Result String
nonempty_string (some (str s)) path c =
    if is_blank s
    then err (contract c (concat (path ∷ " must be a nonempty string." ∷ [])))
    else ok s
nonempty_string _ path c = err (contract c (concat (path ∷ " must be a nonempty string." ∷ [])))

unfoldable pub integer : Option Json → ℕ → String → Result ℕ
integer (some (num (whole n))) minimum path =
    if leb n max_safe_integer && leb minimum n
    then ok n
    else err (
        contract invalid_request
          (concat (path ∷ " must be a safe integer >= " ∷ decimal minimum ∷ "." ∷ [])))
integer _ minimum path = err (
    contract invalid_request
      (concat (path ∷ " must be a safe integer >= " ∷ decimal minimum ∷ "." ∷ [])))
