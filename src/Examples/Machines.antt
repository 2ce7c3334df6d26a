-- ===== src/Examples/Machines.antt =====
-- The theorems about machines at concrete inputs.
use managed_agents.Common.{true, false, none, some, ◌≡◌, refl, ok, err}
use managed_agents.Gateway.Protocol.{daemon}
use managed_agents.Gateway.Registry.{
  MachineRow, register, rotate, rotate_row, apply_rotation, version_of, rotated, get, delete,
  connected,
}
use managed_agents.Gateway.Credentials.{delete-final, rotate-retry, machine_deleted}
use managed_agents.Common.{String}
use managed_agents.Contracts.Text.{utf16_length}
use managed_agents.Contracts.Pattern.{matches, times, all_of}
use managed_agents.Contracts.ToolExecution.{
  split_dots, put_first, is_version, is_secret, digits_value,
}
use managed_agents.Gateway.Wire.{text, uuid, lower_uuid}
use managed_agents.Gateway.Protocol.{execution}
use managed_agents.Gateway.Registry.{hash_of}
use managed_agents.Gateway.Secrets.{
  authorize, machine_secret, secret_parts, scheme_of, known_machine, admits, revoked_secret,
}
use managed_agents.Gateway.Revocation.{rotate-revokes}

abbrev machine : MachineRow
machine = record {
  machine_id = "m";
  name = "laptop";
  deleted = false;
  daemon_hash = "d1";
  execution_hash = "x1";
  daemon_version = 1;
  execution_version = 1;
  connection_epoch = 0;
  created_at = 3;
  last_connected_at = none;
  last_disconnected_at = none;
  daemon_metadata = none;
}

abbrev rotated_machine : MachineRow
rotated_machine = record machine { daemon_version = 2; daemon_hash = "d2" }

machine-rotated :
    rotate daemon 1 "d2" (some machine) ≡ ok (rotated_machine, true, some rotated_machine)
unfolding rotate rotate_row apply_rotation version_of rotated get
machine-rotated = refl

rotate-retry_example :
    rotate daemon 1 "d2" (some rotated_machine) ≡ ok (rotated_machine, false, some rotated_machine)
rotate-retry_example =
    rotate-retry daemon 1 "d2" (some machine) (some rotated_machine) rotated_machine machine-rotated

abbrev deleted_machine : MachineRow
deleted_machine = record machine { deleted = true; daemon_hash = ""; execution_hash = "" }

machine-deleted : delete (some machine) ≡ ok (some deleted_machine)
unfolding delete
machine-deleted = refl

delete-final_example :
    (register 9 "n" "other" "d" "x" (some deleted_machine) ≡ err machine_deleted)
    × (rotate daemon 1 "d2" (some deleted_machine) ≡ err machine_deleted)
    × (connected 9 (some deleted_machine) ≡ err machine_deleted)
    × (delete (some deleted_machine) ≡ ok (some deleted_machine))
delete-final_example =
    delete-final (some machine) (some deleted_machine) 9 "n" "other" "d" "x" daemon 1 "d2"
      machine-deleted

abbrev machine_uuid : String
machine_uuid = "01234567-89ab-cdef-0123-456789abcdef"

abbrev token : String
token = "me1.01234567-89ab-cdef-0123-456789abcdef.1.abcdefghijklmnopqrstuvwxyzABCDEFGHIJKLMNOPQ"

abbrev known : MachineRow
known = record machine { machine_id = machine_uuid }

abbrev known_rotated : MachineRow
known_rotated = record known { execution_version = 2; execution_hash = "x2" }

token-authorized : authorize (λ t. "x1") (some known) machine_uuid token execution ≡ ok known
unfolding authorize machine_secret secret_parts scheme_of known_machine admits split_dots put_first
    is_version is_secret digits_value matches times all_of text uuid lower_uuid utf16_length
    version_of hash_of get
token-authorized = refl

known-rotated : rotate execution 1 "x2" (some known) ≡ ok (known_rotated, true, some known_rotated)
unfolding rotate rotate_row apply_rotation version_of rotated get
known-rotated = refl

rotate-revokes_example :
    authorize (λ t. "x1") (some known_rotated) machine_uuid token execution ≡ err revoked_secret
rotate-revokes_example =
    rotate-revokes (λ t. "x1") machine_uuid token execution 1 "x2" (some known) (some known_rotated)
      known known_rotated token-authorized known-rotated
