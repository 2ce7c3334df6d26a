-- ===== src/Runtime/Event.antt =====
-- Events in the inbox and their hash: `RuntimeEvent` of packages/contracts/src/operation.ts and
-- packages/session-runtime/src/input-hash.ts. The code tells a runtime event by its type, which
-- admission reserves; here it is a constructor. `sha256` is the library @noble/hashes.
use Prim.Native.String.{◌++◌ as append}
use managed_agents.Common.{
  ℕ, ◌+◌, ◌-◌, ◌/◌, ◌%◌, code, String, Bool, true, false, Option, List, [], ◌∷◌, ltb, ◌==◌,
  if◌then◌else◌,
}
use managed_agents.Contracts.Text.{hex}
use managed_agents.Contracts.Json.{
  Json, null, bool, num, str, arr, obj, Items, nil, cons, Fields, end, field, quote, number_text,
}
use managed_agents.Contracts.Operation.{OperationOutcome, outcome_json, text_or_null}

pub data Event : Type 0 where
  external : String → Json → Event
  operation_completed : String → String → Option String → OperationOutcome → Event

abbrev pub completed_type : String
completed_type = "runtime.operation.completed"

unfoldable pub event_type : Event → String
event_type (external type payload) = type
event_type (operation_completed id provider job_id outcome) = completed_type

unfoldable pub event_payload : Event → Json
event_payload (external type payload) = payload
event_payload (operation_completed id provider job_id outcome) = obj (
    field "operationId" (str id) (
      field "provider" (str provider)
        (field "jobId" (text_or_null job_id) (field "outcome" (outcome_json outcome) end))))

unfoldable pub event_json : Event → Json
event_json e = obj (field "type" (str (event_type e)) (field "payload" (event_payload e) end))

-- the UTF-16 units of a string, by which `Array.prototype.sort` compares
units_of : ℕ → List ℕ → List ℕ
units_of c rest =
    if ltb c 0x10000
    then c ∷ rest
    else (0xd800 + (c - 0x10000) / 0x400) ∷ (0xdc00 + (c - 0x10000) % 0x400) ∷ rest

utf16 : String → List ℕ
unfolding units_of
utf16 String.[] = []
utf16 (String.◌∷◌ c rest) = units_of (code c) (utf16 rest)

units_le : List ℕ → List ℕ → Bool
units_le [] ys = true
units_le (x ∷ xs) [] = false
units_le (x ∷ xs) (y ∷ ys) = if ltb x y then true else if x == y then units_le xs ys else false

key_le : String → String → Bool
unfolding utf16 units_le
key_le s t = units_le (utf16 s) (utf16 t)

-- a member's key with the text that is written for it
insert_member : String → String → List (String × String) → List (String × String)
unfolding key_le
insert_member k text [] = (k, text) ∷ []
insert_member k text ((j, other) ∷ rest) =
    if key_le k j then (k, text) ∷ (j, other) ∷ rest else (j, other) ∷ insert_member k text rest

after_first : List (String × String) → String
after_first [] = "}"
after_first ((k, text) ∷ rest) = append "," (append text (after_first rest))

members_text : List (String × String) → String
unfolding after_first
members_text [] = "{}"
members_text ((k, text) ∷ rest) = append "{" (append text (after_first rest))

-- what `visit` writes: the keys of an object in order
unfoldable mutual
  unfolding members_text insert_member

  pub canonical : Json → String
  canonical null = "null"
  canonical (bool true) = "true"
  canonical (bool false) = "false"
  canonical (num n) = number_text n
  canonical (str s) = quote s
  canonical (arr nil) = "[]"
  canonical (arr (cons v rest)) = append "[" (append (canonical v) (canonical_items rest))
  canonical (obj fs) = members_text (canonical_members fs)

  pub canonical_items : Items → String
  canonical_items nil = "]"
  canonical_items (cons v rest) = append "," (append (canonical v) (canonical_items rest))

  pub canonical_members : Fields → List (String × String)
  canonical_members end = []
  canonical_members (field k v rest) =
      insert_member k (append (quote k) (append ":" (canonical v))) (canonical_members rest)

unfoldable pub input_hash : (String → List ℕ) → Event → String
input_hash sha256 e = hex (sha256 (canonical (event_json e)))
