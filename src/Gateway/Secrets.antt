-- ===== src/Gateway/Secrets.antt =====
-- Secrets of machines: execution/packages/execution-gateway-protocol/src/crypto.ts and
-- execution/apps/execution-gateway/src/credentials.ts. `sha256` is the platform's digest in hexadecimal.
use managed_agents.Common.{
  not, ℕ, String, Bool, false, ◌&&◌, ◌||◌, Option, none, some, List, [], ◌∷◌, ◌==◌, leb,
  if◌then◌else◌, str_eq, Failure, Result, ok, err, ◌>>=◌, ◌>>◌, require, gateway_error,
}
use managed_agents.Contracts.Json.{Json, str, num, whole}
use managed_agents.Contracts.Pattern.{digit, matches, times, all_of}
use managed_agents.Contracts.ToolExecution.{split_dots, is_version, is_secret, digits_value}
use managed_agents.Gateway.Wire.{invalid_value, text, uuid, integer_between}
use managed_agents.Gateway.Protocol.{SecretKind, daemon, execution}
use managed_agents.Gateway.Registry.{MachineRow, MachineTable, get, version_of, hash_of}

abbrev lower_hexadecimal : ℕ → Bool
lower_hexadecimal c = digit c || (leb b'a' c && leb c b'f')

unfoldable pub digest : Option Json → Result String
digest value = do
  s ← text 64 value
  require (matches (times 64 lower_hexadecimal) s) (invalid_value "Expected SHA-256 digest.")
  ok s

pub record Credential : Type 0 where
  pub machine_id : String
  pub version : ℕ

abbrev pub invalid_secret : Failure
invalid_secret = gateway_error 401 "INVALID_SECRET" "Invalid machine secret." false false

unfoldable pub scheme_of : SecretKind → String
scheme_of daemon = "md1"
scheme_of execution = "me1"

unfoldable pub known_machine : Result String → ℕ → Result Credential
known_machine (err e) version = err invalid_secret
known_machine (ok id) version = ok (record { machine_id = id; version = version })

unfoldable pub secret_parts : SecretKind → List String → Result Credential
secret_parts kind (scheme ∷ machine ∷ version ∷ secret ∷ []) =
    require (str_eq scheme (scheme_of kind) && is_version version && is_secret secret)
      invalid_secret
    >> known_machine (uuid (some (str machine))) (digits_value 0 version)
secret_parts kind _ = err invalid_secret

unfoldable pub machine_secret : String → SecretKind → Result Credential
machine_secret value kind = secret_parts kind (split_dots value)

abbrev pub revoked_secret : Failure
revoked_secret =
    gateway_error 401 "INVALID_SECRET" "Machine secret is invalid or revoked." false false

unfoldable pub admits : MachineRow → String → SecretKind → Credential → String → Bool
admits row id kind credential hash =
    str_eq credential.machine_id id
    && str_eq row.machine_id id
    && credential.version == version_of kind row
    && str_eq hash (hash_of kind row)

unfoldable pub authorize :
    (String → String) → MachineTable → String → String → SecretKind → Result MachineRow
authorize sha256 table id token kind = do
  credential ← machine_secret token kind
  row ← get table
  require (admits row id kind credential (sha256 token)) revoked_secret
  ok row

-- a limit of the configuration: a number, or the text of one
unfoldable pub configured : Option Json → ℕ → ℕ → ℕ → Result ℕ
configured none fallback min max = ok fallback
configured (some (num (whole n))) fallback min max =
    elim (integer_between min max (some (num (whole n)))) [
      | ok value ↦ ok value
      | err e ↦
          err (gateway_error 503 "INVALID_CONFIGURATION" "Invalid configured limit." false false)
    ]
configured (some (str s)) fallback min max =
    elim (if not (str_eq s "") && all_of digit s
      then integer_between min max (some (num (whole (digits_value 0 s))))
      else err (invalid_value "Integer is out of range.")) [
        | ok value ↦ ok value
        | err e ↦
            err (gateway_error 503 "INVALID_CONFIGURATION" "Invalid configured limit." false false)
      ]
configured (some _) fallback min max =
    err (gateway_error 503 "INVALID_CONFIGURATION" "Invalid configured limit." false false)
