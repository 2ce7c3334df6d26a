-- ===== src/Gateway/Credentials.antt =====
-- Rotation, deletion and registration of a machine (registry.ts).
use managed_agents.Common.{
  ℕ, ◌+◌, String, true, false, none, some, ◌≡◌, ◌≢◌, refl, inl, inr, Bool-cases, subst, ap, ◌∙◌,
  ◌==◌, str_eq, eq_refl, arith, Failure, ok, err, ok_eq, >>=-eq-ok, require-eq-ok, gateway_error,
}
use managed_agents.Gateway.Protocol.{SecretKind, daemon, execution}
use managed_agents.Gateway.Registry.{
  MachineRow, MachineTable, get, register, same_registration, version_of, hash_of, rotated,
  repeat_rotation, apply_rotation, rotate_row, rotate, delete, connected,
}

abbrev pub machine_deleted : Failure
machine_deleted = gateway_error 410 "MACHINE_DELETED" "Machine has been deleted." false false

-- A deleted machine stays deleted: no registration, under whatever ID and secrets, no rotation and no
-- connection succeeds on the table that a deletion leaves, and deleting again keeps the tombstone.
pub delete-final :
    (table tomb : MachineTable) (now : ℕ) (id name daemon_hash execution_hash : String)
    (kind : SecretKind) (expected : ℕ) (hash : String)
    → delete table ≡ ok tomb
    → (register now id name daemon_hash execution_hash tomb ≡ err machine_deleted)
      × (rotate kind expected hash tomb ≡ err machine_deleted)
      × (connected now tomb ≡ err machine_deleted)
      × (delete tomb ≡ ok tomb)
unfolding delete register same_registration get rotate connected
delete-final none tomb now id name daemon_hash execution_hash kind expected hash e = cc
delete-final (some row) tomb now id name daemon_hash execution_hash kind expected hash e =
    subst
      (λ t.
        (register now id name daemon_hash execution_hash t ≡ err machine_deleted)
        × (rotate kind expected hash t ≡ err machine_deleted)
        × (connected now t ≡ err machine_deleted)
        × (delete t ≡ ok t))
      (ok_eq e) (refl, refl, refl, refl)

pub rotated-version_of :
    (kind : SecretKind) (hash : String) (row : MachineRow)
    → version_of kind (rotated kind hash row) ≡ version_of kind row + 1
unfolding version_of rotated
rotated-version_of daemon hash row = refl
rotated-version_of execution hash row = refl

rotated-hash_of :
    (kind : SecretKind) (hash : String) (row : MachineRow)
    → hash_of kind (rotated kind hash row) ≡ hash
unfolding hash_of rotated
rotated-hash_of daemon hash row = refl
rotated-hash_of execution hash row = refl

==-sound : (a b : ℕ) → (a == b) ≡ true → a ≡ b
==-sound a b h = ground arith

==-same : (a : ℕ) → (a == a) ≡ true
==-same a = ground arith

pub get-live : (row found : MachineRow) → get (some row) ≡ ok found → row ≡ found
unfolding get
get-live row found e = ground arith

rotate_again :
    (kind : SecretKind) (expected : ℕ) (hash : String) (row : MachineRow)
    → get (some row) ≡ ok row
    → version_of kind row ≡ expected + 1
    → hash_of kind row ≡ hash
    → rotate kind expected hash (some row) ≡ ok (row, false, some row)
unfolding rotate rotate_row repeat_rotation
rotate_again kind expected hash row live version same =
    rw (live, version, ==-same (expected + 1), same, eq_refl hash) refl

pub repeat_rotation-unchanged :
    (kind : SecretKind) (hash : String) (old row : MachineRow) (after : MachineTable)
    → repeat_rotation kind hash old ≢ ok (row, true, after)
unfolding repeat_rotation
repeat_rotation-unchanged kind hash old row after e =
    let (_, same) = require-eq-ok (str_eq (hash_of kind old) hash) _ _ e in
    let flag : false ≡ true = ap (λ x. x.1) (ok_eq same) in cc

apply_rotation-retry :
    (kind : SecretKind) (expected : ℕ) (hash : String) (old row : MachineRow) (after : MachineTable)
    → apply_rotation kind expected hash old ≡ ok (row, true, after)
    → rotate kind expected hash after ≡ ok (row, false, after)
unfolding apply_rotation
apply_rotation-retry kind expected hash old row after e =
    let (current, applied) = require-eq-ok (version_of kind old == expected) _ _ e in
    let (new, live, same) = >>=-eq-ok (get (some (rotated kind hash old))) _ applied in
    let this = get-live (rotated kind hash old) new live in
    let version =
      rotated-version_of kind hash old
      ∙ ap (λ n. n + 1) (==-sound (version_of kind old) expected current) in
    subst (λ x. rotate kind expected hash x.2 ≡ ok (x.0, false, x.2)) (ok_eq same)
      (rotate_again kind expected hash new (subst (λ r. get (some r) ≡ ok new) this live)
        (subst (λ r. version_of kind r ≡ expected + 1) this version)
        (subst (λ r. hash_of kind r ≡ hash) this (rotated-hash_of kind hash old)))

-- A rotation that changed a secret and is sent again, with the same expected version and the same new
-- secret, answers with the same row and changes nothing.
pub rotate-retry :
    (kind : SecretKind) (expected : ℕ) (hash : String) (table after : MachineTable)
    (row : MachineRow)
    → rotate kind expected hash table ≡ ok (row, true, after)
    → rotate kind expected hash after ≡ ok (row, false, after)
unfolding rotate rotate_row
rotate-retry kind expected hash table after row e =
    let (old, found, rotating) = >>=-eq-ok (get table) (rotate_row kind expected hash) e in
    elim (Bool-cases (version_of kind old == expected + 1)) [
      | inl repeated ↦
          absurd (repeat_rotation-unchanged kind hash old row after (rw repeated at rotating))
      | inr first ↦ apply_rotation-retry kind expected hash old row after (rw first at rotating)
    ]
