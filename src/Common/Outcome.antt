-- ===== src/Common/Outcome.antt =====
-- The failures that the code throws, and computations that may throw.
-- Source: packages/contracts/src/errors.ts; HarnessFailure of packages/harness-pi-no-compaction/src/llm.ts.
use Prim.Native.Nat.{ℕ}
use Prim.Native.String.{String}
use mathlib.Core.Path.{◌≡◌, refl}
use mathlib.Core.Logic.{◌⊎◌, inl, inr}
use mathlib.Core.Bool.{Bool, true, false}

pub data ContractErrorCode : Type 0 where
  invalid_request invalid_config invalid_input session_not_initialized : ContractErrorCode
  initialization_conflict input_conflict operation_not_found completion_conflict : ContractErrorCode

-- `contract` is a ContractException, `harness_failure` a HarnessFailure,
-- `syntax_error` a SyntaxError of `JSON.parse`, `error` any other Error.
pub data Failure : Type 0 where
  contract : ContractErrorCode → String → Failure
  harness_failure : String → String → Failure
  error syntax_error : String → Failure
  gateway_error : (status : ℕ) (code message : String) (retryable uncertain : Bool) → Failure

pub data Result {ℓ} (A : Type ℓ) : Type ℓ where
  ok : A → Result A
  err : Failure → Result A

-- what follows a step that returned
infixl 5 ◌>>=◌ ◌>>◌
abbrev pub ◌>>=◌ {ℓ κ} : {A : Type ℓ} {B : Type κ} → Result A → (A → Result B) → Result B
err failure >>= next = err failure
ok value >>= next = next value

abbrev pub ◌>>◌ {ℓ κ} : {A : Type ℓ} {B : Type κ} → Result A → Result B → Result B
first >> second = first >>= λ _. second

-- `if (!test) throw e`
abbrev pub require : Bool → Failure → Result (Unit {0})
require true e = ok tt
require false e = err e

-- `if (test) throw e`
abbrev pub refuse : Bool → Failure → Result (Unit {0})
refuse true e = err e
refuse false e = ok tt

-- a chain that returned went through its first step
pub >>=-eq-ok {ℓ κ} :
    {A : Type ℓ} {B : Type κ} (first : Result A) (next : A → Result B) {b : B}
    → (first >>= next) ≡ ok b
    → (value : A) × (first ≡ ok value) × (next value ≡ ok b)
>>=-eq-ok (err failure) next e = cc
>>=-eq-ok (ok value) next e = (value, refl, e)

pub ok_eq {ℓ} : {A : Type ℓ} {a b : A} → ok a ≡ ok b → a ≡ b
ok_eq h = cc

pub require-eq-ok {ℓ} :
    {A : Type ℓ} (b : Bool) (e : Failure) (m : Result A) {a : A}
    → (require b e >> m) ≡ ok a
    → (b ≡ true) × (m ≡ ok a)
require-eq-ok true e m h = (refl, h)
require-eq-ok false e m h = cc

pub refuse-eq-ok {ℓ} :
    {A : Type ℓ} (b : Bool) (e : Failure) (m : Result A) {a : A}
    → (refuse b e >> m) ≡ ok a
    → (b ≡ false) × (m ≡ ok a)
refuse-eq-ok true e m h = cc
refuse-eq-ok false e m h = (refl, h)

-- `error.message`
unfoldable pub message_of : Failure → String
message_of (contract code message) = message
message_of (harness_failure code message) = message
message_of (error message) = message
message_of (syntax_error message) = message
message_of (gateway_error status code message retryable uncertain) = message

-- what was thrown is no result
pub err≢ok {ℓ κ} : {A : Type ℓ} {B : Type κ} {e : Failure} {a : A} → err e ≡ ok a → B
err≢ok h = cc

pub Result-cases {ℓ} :
    {A : Type ℓ} (r : Result A) → ((e : Failure) × (r ≡ err e)) ⊎ ((a : A) × (r ≡ ok a))
Result-cases (err e) = inl (e, refl)
Result-cases (ok a) = inr (a, refl)
