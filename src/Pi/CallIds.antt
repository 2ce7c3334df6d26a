-- ===== src/Pi/CallIds.antt =====
-- What the calls of packages/harness-pi-no-compaction/src/llm.ts are when they are accepted.
use managed_agents.Common.{
  err≢ok, if-cases, arith, ◌≡◌, refl, String, true, false, not, ◌&&◌, ◌||◌, Option, none, some,
  is_some, List, [], ◌∷◌, ◌++◌, any, All, All-append, inl, inr, leb, str_eq, eq_iff, Result, ok,
  >>=-eq-ok, require-eq-ok, refuse-eq-ok, ok_eq, subst,
}
use managed_agents.Contracts.Text.{utf16_length, is_blank}
use managed_agents.Contracts.Json.{
  num, bool, Json, str, arr, null, Items, nil, cons, Fields, get, obj,
}
use managed_agents.Contracts.Operation.{is_text}
use managed_agents.Pi.Tools.{ToolCall, ToolName, tool_name}
use managed_agents.Pi.Calls.{
  object, bad_call, is_new_id, add_named, add_call, openai_item, fireworks_call, collect,
  fireworks_calls, fireworks_message, content_of, openai_message, tool_calls, is_optional_text,
}

-- an id that is not blank and has at most 2048 units
abbrev pub IsId : ToolCall → Type 0
IsId call = (is_blank call.call_id ≡ false) × (leb (utf16_length call.call_id) 2048 ≡ true)

unfoldable pub IsDistinct : List ToolCall → Type 0
IsDistinct [] = Unit
IsDistinct (call ∷ calls) =
    (any (λ c. str_eq c.call_id call.call_id) calls ≡ false) × IsDistinct calls

unfoldable pub AreCalls : List ToolCall → Type 0
AreCalls calls = All IsId calls × IsDistinct calls

any-append_call :
    (id : String) (calls : List ToolCall) (call : ToolCall)
    → any (λ c. str_eq c.call_id id) (calls ++ call ∷ [])
      ≡ (any (λ c. str_eq c.call_id id) calls || str_eq call.call_id id)
any-append_call id [] call = ground arith
any-append_call id (c ∷ calls) call = ground (arith, any-append_call id calls call)

append-IsDistinct :
    (calls : List ToolCall) (call : ToolCall)
    → IsDistinct calls
    → any (λ c. str_eq c.call_id call.call_id) calls ≡ false
    → IsDistinct (calls ++ call ∷ [])
unfolding IsDistinct
append-IsDistinct [] call h fresh = (refl, tt)
append-IsDistinct (c ∷ calls) call (first, h) fresh = (
  ground (
    arith,
    any-append_call c.call_id calls call,
    eq_iff c.call_id call.call_id,
    eq_iff call.call_id c.call_id,
  ),
  append-IsDistinct calls call h (ground (arith, fresh)),
)

add_named-AreCalls :
    (id : String) (name : Option ToolName) (args : Option Json) (calls after : List ToolCall)
    → AreCalls calls
    → add_named id name args calls ≡ ok after
    → AreCalls after
unfolding add_named AreCalls is_new_id
add_named-AreCalls id (some name) (some (str args)) calls after (ids, distinct) e =
    let (new, same) = require-eq-ok (is_new_id id calls) bad_call _ e in
    subst AreCalls (ok_eq same) (
      All-append IsId calls _ ids ((ground (arith, new), ground (arith, new)), tt),
      append-IsDistinct calls (record { call_id = id; name = name; arguments = args }) distinct
          (ground (arith, new)),
    )
add_named-AreCalls id none args calls after h e = cc
add_named-AreCalls id (some name) none calls after h e = cc
add_named-AreCalls id (some name) (some null) calls after h e = cc
add_named-AreCalls id (some name) (some (bool b)) calls after h e = cc
add_named-AreCalls id (some name) (some (num n)) calls after h e = cc
add_named-AreCalls id (some name) (some (arr items)) calls after h e = cc
add_named-AreCalls id (some name) (some (obj r)) calls after h e = cc

add_call-AreCalls :
    (id name args : Option Json) (calls after : List ToolCall)
    → AreCalls calls
    → add_call id name args calls ≡ ok after
    → AreCalls after
unfolding add_call
add_call-AreCalls (some (str id)) name args calls after h e =
    add_named-AreCalls id (tool_name name) args calls after h e
add_call-AreCalls none name args calls after h e = cc
add_call-AreCalls (some null) name args calls after h e = cc
add_call-AreCalls (some (bool b)) name args calls after h e = cc
add_call-AreCalls (some (num n)) name args calls after h e = cc
add_call-AreCalls (some (arr items)) name args calls after h e = cc
add_call-AreCalls (some (obj r)) name args calls after h e = cc

-- a step that keeps the calls as they must be
Keeps : (Json → List ToolCall → Result (List ToolCall)) → Type 0
Keeps step =
    (raw : Json) (calls after : List ToolCall)
    → AreCalls calls
    → step raw calls ≡ ok after
    → AreCalls after

openai_item-Keeps : Keeps openai_item
unfolding Keeps openai_item
openai_item-Keeps raw calls after h e =
    let (item, _, e₁) = >>=-eq-ok (object (some raw)) _ e in
    elim (if-cases (is_text (get "type" item) "function_call") _ _ e₁) [
      | inl (_, e₂) ↦
          let (_, e₃) =
            refuse-eq-ok
              (is_some (get "status" item) && not (is_text (get "status" item) "completed")) _ _
              e₂ in
          add_call-AreCalls (get "call_id" item) (get "name" item) (get "arguments" item) calls
            after h e₃
      | inr (_, e₂) ↦
          elim (if-cases
            (is_text (get "type" item) "message" || is_text (get "type" item) "reasoning") _ _ e₂) [
              | inl (_, e₃) ↦ subst AreCalls (ok_eq e₃) h
              | inr (_, e₃) ↦ err≢ok e₃
            ]
    ]

fireworks_call-Keeps : Keeps fireworks_call
unfolding Keeps fireworks_call
fireworks_call-Keeps raw calls after h e =
    let (call, _, e₁) = >>=-eq-ok (object (some raw)) _ e in
    let (fn, _, e₂) = >>=-eq-ok (object (get "function" call)) _ e₁ in
    let (_, e₃) = require-eq-ok (is_text (get "type" call) "function") _ _ e₂ in
    add_call-AreCalls (get "id" call) (get "name" fn) (get "arguments" fn) calls after h e₃

collect-AreCalls :
    (step : Json → List ToolCall → Result (List ToolCall)) (items : Items)
    (calls after : List ToolCall)
    → Keeps step
    → AreCalls calls
    → collect step items calls ≡ ok after
    → AreCalls after
unfolding collect Keeps
collect-AreCalls step nil calls after keeps h e = subst AreCalls (ok_eq e) h
collect-AreCalls step (cons raw rest) calls after keeps h e =
    let (next, first, later) = >>=-eq-ok (step raw calls) _ e in
    collect-AreCalls step rest next after keeps (keeps raw calls next h first) later

none-AreCalls : AreCalls []
unfolding AreCalls IsDistinct
none-AreCalls = (tt, tt)

fireworks_calls-AreCalls :
    (value : Option Json) (after : List ToolCall)
    → fireworks_calls value ≡ ok after
    → AreCalls after
unfolding fireworks_calls
fireworks_calls-AreCalls none after e = subst AreCalls (ok_eq e) none-AreCalls
fireworks_calls-AreCalls (some null) after e = subst AreCalls (ok_eq e) none-AreCalls
fireworks_calls-AreCalls (some (arr items)) after e =
    collect-AreCalls fireworks_call items [] after fireworks_call-Keeps none-AreCalls e
fireworks_calls-AreCalls (some (bool b)) after e = cc
fireworks_calls-AreCalls (some (num n)) after e = cc
fireworks_calls-AreCalls (some (str s)) after e = cc
fireworks_calls-AreCalls (some (obj r)) after e = cc

fireworks_message-AreCalls :
    (items : Items) (after : List ToolCall) → fireworks_message items ≡ ok after → AreCalls after
unfolding fireworks_message
fireworks_message-AreCalls nil after e = cc
fireworks_message-AreCalls (cons only (cons x rest)) after e = cc
fireworks_message-AreCalls (cons only nil) after e =
    let (item, _, e₁) = >>=-eq-ok (object (some only)) _ e in
    let (_, e₂) =
      require-eq-ok
        (is_text (get "role" item) "assistant"
          && is_optional_text (get "content" item)
          && is_optional_text (get "reasoning_content" item))
        _ _ e₁ in
    fireworks_calls-AreCalls (get "tool_calls" item) after e₂

pub tool_calls-AreCalls :
    (message : Fields) (calls : List ToolCall) → tool_calls message ≡ ok calls → AreCalls calls
unfolding tool_calls openai_message
tool_calls-AreCalls message calls e =
    elim (if-cases (is_text (get "provider" message) "openai") _ _ e) [
      | inl (_, e₁) ↦
          let (items, _, e₂) = >>=-eq-ok (content_of message) _ e₁ in
          collect-AreCalls openai_item items [] calls openai_item-Keeps none-AreCalls e₂
      | inr (_, e₁) ↦ elim (if-cases (is_text (get "provider" message) "fireworks") _ _ e₁) [
        | inl (_, e₂) ↦
            let (items, _, e₃) = >>=-eq-ok (content_of message) _ e₂ in
            fireworks_message-AreCalls items calls e₃
        | inr (_, e₂) ↦ err≢ok e₂
      ]
    ]
