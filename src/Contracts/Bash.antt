-- ===== src/Contracts/Bash.antt =====
-- packages/contracts/src/pi-bash.ts: the arguments of the bash tool. `over_limit` tells of a fractional
-- number of seconds whether its thousandfold passes the limit, which is the platform's arithmetic.
use managed_agents.Common.{
  ℕ, ◌*◌, String, Bool, false, not, ◌&&◌, Option, none, some, [], ◌∷◌, leb, starts_with, Result, ok,
  err, ◌>>=◌, ◌>>◌, require, refuse, contract, invalid_request,
}
use managed_agents.Contracts.Json.{Json, num, str, Fields, get, Number, whole, negative, fraction}
use managed_agents.Contracts.Validation.{record_of}
use managed_agents.Contracts.Pattern.{has_nul}
use managed_agents.Contracts.ToolInput.{OnMachine, on_machine, passed_on}

abbrev pub pi_bash_max_timeout_ms : ℕ
pi_bash_max_timeout_ms = 2147483647

pub record BashToolInput : Type 0 where
  pub command : String
  pub timeout : Option Number

unfoldable pub command_of : Option Json → Result String
command_of (some (str command)) =
    refuse (has_nul command)
      (contract invalid_request "command must be a string without NUL bytes.")
    >> ok command
command_of _ = err (contract invalid_request "command must be a string without NUL bytes.")

module _ (over_limit : String → Bool) where
  -- positive, and not above the limit
  unfoldable pub is_timeout : Number → Bool
  is_timeout (whole n) = leb 1 n && leb (n * 1000) pi_bash_max_timeout_ms
  is_timeout (negative n) = false
  is_timeout (fraction text) = not (starts_with text "-") && not (over_limit text)

  unfoldable pub timeout_of : Option Json → Result (Option Number)
  timeout_of none = ok none
  timeout_of (some (num n)) =
      require (is_timeout n)
        (contract invalid_request "timeout must be positive and at most 2147483.647 seconds.")
      >> ok (some n)
  timeout_of (some _) =
      err (contract invalid_request "timeout must be positive and at most 2147483.647 seconds.")

  unfoldable pub bash_arguments : Fields → Result BashToolInput
  bash_arguments r = do
    command ← command_of (get "command" r)
    timeout ← timeout_of (get "timeout" r)
    ok (record { command = command; timeout = timeout })

  unfoldable pub parse_bash_tool_input : Json → Result BashToolInput
  parse_bash_tool_input value =
      record_of (some value) ("command" ∷ "timeout" ∷ []) "bash arguments" invalid_request
      >>= bash_arguments

  unfoldable pub parse_bash_input : Json → Result (OnMachine BashToolInput)
  parse_bash_input value =
      on_machine ("machineId" ∷ "cwd" ∷ "command" ∷ "timeout" ∷ []) "bash input"
        (λ r. passed_on ("command" ∷ []) r >> bash_arguments r) value
