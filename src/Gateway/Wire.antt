-- ===== src/Gateway/Wire.antt =====
-- execution/packages/execution-gateway-protocol/src/validation.ts: the values of the gateway's messages.
use managed_agents.Common.{
  ℕ, suc, ◌+◌, String, Bool, false, not, ◌&&◌, ◌||◌, Option, none, some, List, ◌∷◌, ◌++◌, leb, ltb,
  ◌==◌, Result, ok, err, ◌>>=◌, ◌>>◌, require, Failure, gateway_error,
}
use managed_agents.Contracts.Text.{utf16_length}
use managed_agents.Contracts.Json.{
  Json, null, bool as bool_value, num, str, arr, obj, Items, nil, cons, Fields, end, field, whole,
}
use managed_agents.Contracts.Validation.{max_safe_integer, only_keys}
use managed_agents.Contracts.Pattern.{digit, dash, matches, times, all_of}
use managed_agents.Contracts.ToolExecution.{is_identity}

unfoldable pub invalid_value : String → Failure
invalid_value message = gateway_error 400 "INVALID_REQUEST" message false false

unfoldable pub plain_object : Option Json → Result Fields
plain_object (some (obj fields)) = ok fields
plain_object _ = err (invalid_value "Expected an object.")

unfoldable pub object_with : List String → Option Json → Result Fields
object_with allowed value = do
  fields ← plain_object value
  require (only_keys allowed fields) (invalid_value "Unexpected field.")
  ok fields

abbrev not_control : ℕ → Bool
not_control c = not (ltb c 0x20 || c == 0x7f)

unfoldable pub text : ℕ → Option Json → Result String
text max (some (str s)) =
    require (leb 1 (utf16_length s) && leb (utf16_length s) max && all_of not_control s)
      (invalid_value "Expected a bounded nonempty string without control characters.")
    >> ok s
text max _ = err (invalid_value "Expected a bounded nonempty string without control characters.")

unfoldable pub message_text : ℕ → Option Json → Result String
message_text max (some (str s)) =
    require (leb 1 (utf16_length s) && leb (utf16_length s) max)
      (invalid_value "Invalid error message.")
    >> ok s
message_text max _ = err (invalid_value "Invalid error message.")

unfoldable pub identity : Option Json → Result String
identity value = do
  s ← text 128 value
  require (is_identity s) (invalid_value "Invalid identity.")
  ok s

abbrev lower_hexadecimal : ℕ → Bool
lower_hexadecimal c = digit c || (leb b'a' c && leb c b'f')

unfoldable pub lower_uuid : List (ℕ → Bool)
lower_uuid =
    times 8 lower_hexadecimal
    ++ dash ∷ times 4 lower_hexadecimal
    ++ dash ∷ times 4 lower_hexadecimal
    ++ dash ∷ times 4 lower_hexadecimal
    ++ dash ∷ times 12 lower_hexadecimal

unfoldable pub uuid : Option Json → Result String
uuid value = do
  s ← text 36 value
  require (matches lower_uuid s) (invalid_value "Expected a lowercase UUID.")
  ok s

unfoldable pub integer_between : ℕ → ℕ → Option Json → Result ℕ
integer_between min max (some (num (whole n))) =
    require (leb n max_safe_integer && leb min n && leb n max)
      (invalid_value "Integer is out of range.")
    >> ok n
integer_between min max _ = err (invalid_value "Integer is out of range.")

unfoldable pub boolean : Option Json → Result Bool
boolean (some (bool_value b)) = ok b
boolean _ = err (invalid_value "Expected boolean.")

-- `visit`: the values that were counted so far, and how deep this one stands
unfoldable pub visit_counted : ℕ → ℕ → Result ℕ
visit_counted count depth =
    require (leb (count + 1) 100000 && leb depth 64)
      (invalid_value "JSON structure exceeds limits.")
    >> ok (count + 1)

unfoldable mutual
  pub visit : ℕ → Json → ℕ → Result ℕ
  visit depth (arr items) count = visit_counted count depth >>= visit_items (suc depth) items
  visit depth (obj fields) count = visit_counted count depth >>= visit_fields (suc depth) fields
  visit depth null count = visit_counted count depth
  visit depth (bool_value b) count = visit_counted count depth
  visit depth (num n) count = visit_counted count depth
  visit depth (str s) count = visit_counted count depth

  pub visit_items : ℕ → Items → ℕ → Result ℕ
  visit_items depth nil count = ok count
  visit_items depth (cons v rest) count = visit depth v count >>= visit_items depth rest

  pub visit_fields : ℕ → Fields → ℕ → Result ℕ
  visit_fields depth end count = ok count
  visit_fields depth (field k v rest) count = visit depth v count >>= visit_fields depth rest

unfoldable pub json_value : Option Json → Result Json
json_value none = err (invalid_value "Expected JSON.")
json_value (some value) = visit 0 value 0 >> ok value
