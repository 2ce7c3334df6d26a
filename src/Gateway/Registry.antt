-- ===== src/Gateway/Registry.antt =====
-- execution/apps/execution-gateway/src/registry.ts: the one row of a machine.
use managed_agents.Common.{
  ℕ, ◌+◌, String, Bool, true, false, ◌&&◌, Option, none, some, ◌==◌, if◌then◌else◌, str_eq, Result,
  ok, err, ◌>>=◌, ◌>>◌, require, gateway_error,
}
use managed_agents.Gateway.Protocol.{SecretKind, daemon, execution}

pub record MachineRow : Type 0 where
  pub machine_id : String
  pub name : String
  pub deleted : Bool
  pub daemon_hash : String
  pub execution_hash : String
  pub daemon_version : ℕ
  pub execution_version : ℕ
  pub connection_epoch : ℕ
  pub created_at : ℕ
  pub last_connected_at : Option ℕ
  pub last_disconnected_at : Option ℕ
  pub daemon_metadata : Option String

-- the table, which holds at most the singleton
abbrev pub MachineTable : Type 0
MachineTable = Option MachineRow

unfoldable pub get : MachineTable → Result MachineRow
get none = err (gateway_error 404 "MACHINE_NOT_FOUND" "Machine is not registered." false false)
get (some row) =
    if row.deleted
    then err (gateway_error 410 "MACHINE_DELETED" "Machine has been deleted." false false)
    else ok row

unfoldable pub same_registration :
    MachineRow → String → String → String → String → Result MachineRow
same_registration row id name daemon_hash execution_hash = do
  get (some row)
  require (str_eq row.machine_id id && str_eq row.name name) (
      gateway_error 409 "REGISTRATION_CONFLICT"
        "Machine ID identifies different registration input." false false)
  require (row.daemon_version == 1 && row.execution_version == 1) (
      gateway_error 409 "REGISTRATION_ROTATED"
        "Credentials have rotated; recover the rotation response or configure the current daemon secret."
        false false)
  require (str_eq row.daemon_hash daemon_hash && str_eq row.execution_hash execution_hash) (
      gateway_error 503 "ISSUANCE_KEY_CHANGED"
        "Credential issuance key changed; rotate credentials explicitly." false false)
  ok row

unfoldable pub new_machine : ℕ → String → String → String → String → MachineRow
new_machine now id name daemon_hash execution_hash = record {
  machine_id = id;
  name = name;
  deleted = false;
  daemon_hash = daemon_hash;
  execution_hash = execution_hash;
  daemon_version = 1;
  execution_version = 1;
  connection_epoch = 0;
  created_at = now;
  last_connected_at = none;
  last_disconnected_at = none;
  daemon_metadata = none;
}

-- an operation returns its row, whether the row is an old one or has changed, and the table
unfoldable pub register :
    ℕ → String → String → String → String → MachineTable → Result (MachineRow × Bool × MachineTable)
register now id name daemon_hash execution_hash (some row) =
    same_registration row id name daemon_hash execution_hash >>= λ same. ok (same, true, some row)
register now id name daemon_hash execution_hash none =
    get (some (new_machine now id name daemon_hash execution_hash)) >>= λ row.
    ok (row, false, some row)

unfoldable pub version_of : SecretKind → MachineRow → ℕ
version_of daemon row = row.daemon_version
version_of execution row = row.execution_version

unfoldable pub hash_of : SecretKind → MachineRow → String
hash_of daemon row = row.daemon_hash
hash_of execution row = row.execution_hash

unfoldable pub rotated : SecretKind → String → MachineRow → MachineRow
rotated daemon hash row = record row { daemon_version = row.daemon_version + 1; daemon_hash = hash }
rotated execution hash row = record row {
  execution_version = row.execution_version + 1;
  execution_hash = hash;
}

unfoldable pub repeat_rotation :
    SecretKind → String → MachineRow → Result (MachineRow × Bool × MachineTable)
repeat_rotation kind hash row =
    require (str_eq (hash_of kind row) hash)
      (gateway_error 503 "ISSUANCE_KEY_CHANGED" "Credential issuance key changed." false false)
    >> ok (row, false, some row)

unfoldable pub apply_rotation :
    SecretKind → ℕ → String → MachineRow → Result (MachineRow × Bool × MachineTable)
apply_rotation kind expected hash row =
    require (version_of kind row == expected)
      (gateway_error 409 "VERSION_CONFLICT" "Secret version changed." false false)
    >> (get (some (rotated kind hash row)) >>= λ new. ok (new, true, some new))

unfoldable pub rotate_row :
    SecretKind → ℕ → String → MachineRow → Result (MachineRow × Bool × MachineTable)
rotate_row kind expected hash row =
    if version_of kind row == expected + 1
    then repeat_rotation kind hash row
    else apply_rotation kind expected hash row

unfoldable pub rotate :
    SecretKind → ℕ → String → MachineTable → Result (MachineRow × Bool × MachineTable)
rotate kind expected hash table = get table >>= rotate_row kind expected hash

-- the tombstone stays
unfoldable pub delete : MachineTable → Result MachineTable
delete none = err (gateway_error 404 "MACHINE_NOT_FOUND" "Machine is not registered." false false)
delete (some row) = ok (some (record row { deleted = true; daemon_hash = ""; execution_hash = "" }))

unfoldable pub connected : ℕ → MachineTable → Result (MachineRow × MachineTable)
connected now table = do
  row ← get table
  new ← get (
      some (record row {
        connection_epoch = row.connection_epoch + 1;
        last_connected_at = some now;
        last_disconnected_at = none;
      }))
  ok (new, some new)

unfoldable pub disconnected : ℕ → ℕ → MachineTable → MachineTable
disconnected now epoch none = none
disconnected now epoch (some row) =
    if row.connection_epoch == epoch
    then some (record row { last_disconnected_at = some now })
    else some row

unfoldable pub metadata : String → MachineTable → MachineTable
metadata value none = none
metadata value (some row) = some (record row { daemon_metadata = some value })
