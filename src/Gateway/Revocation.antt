-- ===== src/Gateway/Revocation.antt =====
-- Rotations and the secrets before them (credentials.ts and registry.ts).
use managed_agents.Common.{
  ℕ, ◌+◌, String, true, false, some, ◌≡◌, refl, inl, inr, Bool-cases, subst, ◌==◌, arith, ok, err,
  ok_eq, >>=-eq-ok, require-eq-ok,
}
use managed_agents.Gateway.Protocol.{SecretKind}
use managed_agents.Gateway.Registry.{
  MachineRow, MachineTable, get, version_of, rotated, apply_rotation, rotate_row, rotate,
}
use managed_agents.Gateway.Credentials.{repeat_rotation-unchanged, get-live, rotated-version_of}
use managed_agents.Gateway.Secrets.{Credential, machine_secret, admits, authorize, revoked_secret}

apply_rotation-version :
    (kind : SecretKind) (expected : ℕ) (hash : String) (old row : MachineRow) (after : MachineTable)
    → apply_rotation kind expected hash old ≡ ok (row, true, after)
    → (after ≡ some row)
      × (get (some row) ≡ ok row)
      × (version_of kind row ≡ version_of kind old + 1)
unfolding apply_rotation
apply_rotation-version kind expected hash old row after e =
    let (current, applied) = require-eq-ok (version_of kind old == expected) _ _ e in
    let (new, live, same) = >>=-eq-ok (get (some (rotated kind hash old))) _ applied in
    let this = get-live (rotated kind hash old) new live in
    subst
      (λ x.
        (x.2 ≡ some x.0)
        × (get (some x.0) ≡ ok x.0)
        × (version_of kind x.0 ≡ version_of kind old + 1))
      (ok_eq same)
      (
        refl,
        subst (λ r. get (some r) ≡ ok new) this live,
        subst (λ r. version_of kind r ≡ version_of kind old + 1) this
            (rotated-version_of kind hash old),
      )

rotate-version :
    (kind : SecretKind) (expected : ℕ) (hash : String) (table after : MachineTable)
    (old row : MachineRow)
    → get table ≡ ok old
    → rotate kind expected hash table ≡ ok (row, true, after)
    → (after ≡ some row)
      × (get (some row) ≡ ok row)
      × (version_of kind row ≡ version_of kind old + 1)
unfolding rotate rotate_row
rotate-version kind expected hash table after old row found e =
    elim (Bool-cases (version_of kind old == expected + 1)) [
      | inl repeated ↦
          absurd (repeat_rotation-unchanged kind hash old row after (rw (found, repeated) at e))
      | inr first ↦ apply_rotation-version kind expected hash old row after (rw (found, first) at e)
    ]

admits-later :
    (old row : MachineRow) (id : String) (kind : SecretKind) (c : Credential) (hash : String)
    → admits old id kind c hash ≡ true
    → version_of kind row ≡ version_of kind old + 1
    → admits row id kind c hash ≡ false
unfolding admits
admits-later old row id kind c hash a v = ground arith

-- A secret that the gateway accepted is refused as revoked once a secret of its kind was rotated.
pub rotate-revokes :
    (sha256 : String → String) (id token : String) (kind : SecretKind) (expected : ℕ)
    (hash : String) (table after : MachineTable) (old row : MachineRow)
    → authorize sha256 table id token kind ≡ ok old
    → rotate kind expected hash table ≡ ok (row, true, after)
    → authorize sha256 after id token kind ≡ err revoked_secret
unfolding authorize
rotate-revokes sha256 id token kind expected hash table after old row a e =
    let (credential, read, a₁) = >>=-eq-ok (machine_secret token kind) _ a in
    let (found, live, a₂) = >>=-eq-ok (get table) _ a₁ in
    let (admitted, same) = require-eq-ok (admits found id kind credential (sha256 token)) _ _ a₂ in
    let (stored, known, version) = rotate-version kind expected hash table after found row live e in
    rw
      (
        read,
        stored,
        known,
        admits-later found row id kind credential (sha256 token) admitted version,
      )
      refl
