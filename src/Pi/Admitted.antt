-- ===== src/Pi/Admitted.antt =====
-- The boundary of packages/harness-pi-no-compaction/src/contracts.ts: what was admitted is what the
-- harness reads.
use managed_agents.Common.{
  [], leb, true≢false, ◌∷◌, str_eq, List, require, Failure, Bool-cases, ◌≡◌, ◌≢◌, refl, sym, ap,
  subst, String, Bool, true, false, Option, none, some, ok, err, Result, >>=-eq-ok, require-eq-ok,
  ok_eq, inl, inr, err≢ok,
}
use managed_agents.Contracts.Validation.{only_keys, defined}
use managed_agents.Contracts.Json.{Json, null, bool, num, str, arr, obj, Fields, get, stringify}
use managed_agents.Contracts.Text.{utf8_bytes}
use managed_agents.Contracts.Session.{EventBody, parse_event_body}
use managed_agents.Runtime.Event.{external}
use managed_agents.Pi.Config.{
  object_of, is_run_id, parse_pi_input, body_json, as_input, check_input, check_message,
  check_cancel, fields_of,
}
use managed_agents.Pi.Input.{resume, other, input_of, payload_field, message_input, cancel_input}

object_of-eq :
    (payload : Json) (keys : List String) (r : Fields)
    → object_of payload keys ≡ ok r
    → payload ≡ obj r
unfolding object_of
object_of-eq (obj r) keys r' e = ap obj (ok_eq (require-eq-ok (only_keys keys r) _ _ e).1)
object_of-eq null keys r e = err≢ok e
object_of-eq (bool b) keys r e = err≢ok e
object_of-eq (num n) keys r e = err≢ok e
object_of-eq (str s) keys r e = err≢ok e
object_of-eq (arr items) keys r e = err≢ok e

defined-eq : (value : Option Json) (json : Json) → defined value ≡ ok json → value ≡ some json
unfolding defined
defined-eq none json e = err≢ok e
defined-eq (some v) json e = ap some (ok_eq e)

as_input-eq : (m : Result EventBody) (e : EventBody) → as_input m ≡ ok e → m ≡ ok e
unfolding as_input
as_input-eq (ok a) e h = h
as_input-eq (err failure) e h = err≢ok h

require_eq : (b : Bool) (e : Failure) → require b e ≡ ok tt → b ≡ true
require_eq true e h = refl
require_eq false e h = err≢ok h

message-read :
    (event : EventBody)
    → check_message event ≡ ok tt
    → message_input (payload_field "message" event.payload) ≢ other
unfolding check_message fields_of defined
message-read event e =
    let (p, fields, e₁) = >>=-eq-ok (fields_of (some event.payload) ("message" ∷ [])) _ e in
    let (value, present, e₂) = >>=-eq-ok (defined (get "message" p)) _ e₁ in
    rw
      (
        object_of-eq event.payload ("message" ∷ []) p fields,
        defined-eq (get "message" p) value present,
      )
      (λ h. cc)

run_id-read : (value : Option Json) → is_run_id value ≡ true → cancel_input value ≢ other
unfolding is_run_id
run_id-read (some (str s)) e = λ h. cc
run_id-read none e = true≢false (sym e)
run_id-read (some null) e = true≢false (sym e)
run_id-read (some (bool b)) e = true≢false (sym e)
run_id-read (some (num n)) e = true≢false (sym e)
run_id-read (some (obj r)) e = true≢false (sym e)
run_id-read (some (arr items)) e = true≢false (sym e)

cancel-read :
    (event : EventBody)
    → check_cancel event ≡ ok tt
    → cancel_input (payload_field "runId" event.payload) ≢ other
unfolding check_cancel fields_of defined
cancel-read event e =
    let (p, fields, e₁) = >>=-eq-ok (fields_of (some event.payload) ("runId" ∷ [])) _ e in
    rw (object_of-eq event.payload ("runId" ∷ []) p fields)
      (run_id-read (get "runId" p) (require_eq (is_run_id (get "runId" p)) _ e₁))

resume≢other : resume ≢ other
resume≢other h = cc

check_input-read :
    (event : EventBody)
    → check_input event ≡ ok tt
    → input_of (external event.type event.payload) ≢ other
unfolding check_input input_of
check_input-read event e = elim (Bool-cases (str_eq event.type "pi_no_compaction.message")) [
  | inl m ↦ rw m (message-read event (rw m at e))
  | inr not_m ↦ rw not_m (elim (Bool-cases (str_eq event.type "pi_no_compaction.cancel")) [
    | inl c ↦ rw c (cancel-read event (rw c at (rw not_m at e)))
    | inr not_c ↦ rw not_c (elim (Bool-cases (str_eq event.type "pi_no_compaction.resume")) [
      | inl r ↦ rw r resume≢other
      | inr not_r ↦ err≢ok (rw not_r at (rw not_c at (rw not_m at e)))
    ])
  ])
]

-- An input that the harness admits is one that its handler reads: it is never passed over as an event of
-- no known type or without its field.
pub parse_pi_input-read :
    (value event : EventBody)
    → parse_pi_input value ≡ ok event
    → input_of (external event.type event.payload) ≢ other
unfolding parse_pi_input
parse_pi_input-read value event e =
    let (parsed, _, e₁) =
      >>=-eq-ok (parse_event_body (body_json value)) _ (as_input-eq _ event e) in
    let (small, e₂) =
      require-eq-ok (leb (utf8_bytes (stringify (body_json parsed))) 1800000) _ _ e₁ in
    let (_, checked, e₃) = >>=-eq-ok (check_input parsed) _ e₂ in
    subst (λ v. input_of (external v.type v.payload) ≢ other) (ok_eq e₃)
      (check_input-read parsed checked)
