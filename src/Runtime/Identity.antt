-- ===== src/Runtime/Identity.antt =====
-- packages/session-runtime/src/operation-identity.ts and operation-definitions.ts
use Prim.Native.String.{◌++◌ as append}
use managed_agents.Common.{
  ℕ, zero, suc, ◌+◌, ◌-◌, ◌*◌, code, String, Bool, true, false, ◌&&◌, ◌||◌, Option, none, some,
  List, [], ◌∷◌, leb, ltb, ◌==◌, if◌then◌else◌, Result, ok, err, ◌>>=◌, contract, error,
  completion_conflict,
}
use managed_agents.Contracts.Text.{concat, decimal, hex, includes, utf16_length}
use managed_agents.Contracts.Json.{num, str, arr, nil, cons, whole, stringify}
use managed_agents.Contracts.Validation.{max_safe_integer}
use managed_agents.Contracts.Session.{SessionIdentity}
use managed_agents.Contracts.Operation.{OperationDefinition}

-- the text that an operation's identity hashes
unfoldable pub identity_text : SessionIdentity → ℕ → String → String
identity_text session sequence key = stringify (
    arr (
      cons (str session.session_id) (
        cons (str session.harness.id)
          (cons (str session.harness.version) (cons (num (whole sequence)) (cons (str key) nil))))))

unfoldable pub identity_prefix : String → String
identity_prefix rest = append "replay-v1:" rest

unfoldable pub operation_id : (String → List ℕ) → SessionIdentity → ℕ → String → Result String
operation_id sha256 session sequence key =
    if utf16_length key == 0 || ltb 2048 (utf16_length key)
    then err (error "Operation keys must contain 1–2048 characters.")
    else ok (
        identity_prefix (
          append (decimal sequence)
            (append ":" (hex (sha256 (identity_text session sequence key))))))

is_digit : ℕ → Bool
is_digit c = leb b'0' c && leb c b'9'

is_hex_digit : ℕ → Bool
unfolding is_digit
is_hex_digit c = is_digit c || (leb b'a' c && leb c b'f')

-- `[a-f0-9]{n}` up to the end of the text
unfoldable pub is_hex : ℕ → String → Bool
unfolding is_hex_digit
is_hex zero String.[] = true
is_hex (suc n) (String.◌∷◌ c rest) = is_hex_digit (code c) && is_hex n rest
is_hex _ _ = false

-- the number that the digits up to the colon spell, with the digest behind it
unfoldable pub read_sequence : ℕ → String → Option ℕ
unfolding is_digit
read_sequence n String.[] = none
read_sequence n (String.◌∷◌ c rest) =
    let more = read_sequence (n * 10 + (code c - b'0')) rest in
    if is_digit (code c)
    then more
    else if code c == b':'
    then (if is_hex 64 rest then some n else none)
    else none

-- `[1-9][0-9]*`
unfoldable pub read_positive : String → Option ℕ
read_positive String.[] = none
read_positive (String.◌∷◌ c rest) =
    if leb b'1' (code c) && leb (code c) b'9' then read_sequence 0 (String.◌∷◌ c rest) else none

-- the text behind a given beginning
unfoldable pub behind : String → String → Option String
behind String.[] text = some text
behind (String.◌∷◌ c s) String.[] = none
behind (String.◌∷◌ c s) (String.◌∷◌ d text) = if code c == code d then behind s text else none

foreign_operation : Result ℕ
foreign_operation =
    err (contract completion_conflict "Operation does not belong to this session/namespace.")

safe_sequence : Option ℕ → Result ℕ
unfolding foreign_operation
safe_sequence none = foreign_operation
safe_sequence (some n) = if leb n max_safe_integer then ok n else foreign_operation

sequence_behind : Option String → Result ℕ
unfolding safe_sequence
sequence_behind none = safe_sequence none
sequence_behind (some text) = safe_sequence (read_positive text)

-- `operationIdentity(id).sequence`
unfoldable pub operation_identity : String → Result ℕ
unfolding sequence_behind
operation_identity id = sequence_behind (behind "replay-v1:" id)

-- `JSON.stringify([operation.provider, operation.type, operation.version])`
unfoldable pub operation_key : OperationDefinition → String
operation_key d =
    stringify (arr (cons (str d.provider) (cons (str d.type) (cons (str d.version) nil))))

-- the keys of the declared operations; a key that stands twice is refused
unfoldable pub definition_keys : List String → List OperationDefinition → Result (List String)
definition_keys seen [] = ok []
definition_keys seen (d ∷ rest) =
    if includes seen (operation_key d)
    then err (error (concat ("Duplicate harness operation: " ∷ operation_key d ∷ [])))
    else (definition_keys (operation_key d ∷ seen) rest >>= λ keys. ok (operation_key d ∷ keys))
