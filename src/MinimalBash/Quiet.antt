-- ===== src/MinimalBash/Quiet.antt =====
-- The operations that a transition of packages/harness-minimal-bash/src/harness.ts asks for.

use managed_agents.Common.{
  ◌≢◌, ◌≡◌, refl, ◌∙◌, ap, String, Option, none, some, List, [], ◌∷◌, Result, ok, err, Failure,
  harness_failure, contract, syntax_error, error, gateway_error,
}
use managed_agents.Common.Exec.{pure, lift, gets, continue, ◌>>=◌}
use managed_agents.Contracts.Json.{Json}
use managed_agents.Contracts.Operation.{OperationOutcome, succeeded, failed, cancelled}
use managed_agents.Runtime.Harness.{ReadContext, PlannedOperation}
use managed_agents.MinimalBash.State.{Tables}
use managed_agents.MinimalBash.Calls.{ToolCall}
use managed_agents.MinimalBash.Work.{
  Work, Turn, modify, append, push_message, promote_rows, promote_steering,
}
use managed_agents.MinimalBash.Commands.{
  refuse_arguments, BashResult, tool_result, error_result, skip_calls, settle_bash, keep_parts,
  keep_result, invalid_bash_result, recovered,
}
use managed_agents.Pi.Tables.{PiError, PendingRow}
use managed_agents.Pi.Work.{ProposedMessage, assert_message_size}

-- a step that asks for no operation, whether it returns or throws
unfoldable pub Keeps : {A : Type 0} → Turn A → Type 0
Keeps m = (w : Work) → (m w).1.operations ≡ w.operations

-- a call that asks for no operation if it ends in a HarnessFailure
unfoldable pub Refuses : {A : Type 0} → List PlannedOperation → Result A × Work → Type 0
Refuses asked call = (c m : String) → call.0 ≡ err (harness_failure c m) → call.1.operations ≡ asked

continue-keeps :
    {A B : Type 0} (asked : List PlannedOperation) (result : Result A) (f : A → Turn B) (w : Work)
    → w.operations ≡ asked
    → ((a : A) → (f a w).1.operations ≡ asked)
    → (continue result f w).1.operations ≡ asked
continue-keeps asked (ok a) f w h next = next a
continue-keeps asked (err e) f w h next = h

pub by_keeping :
    {A : Type 0} (m : Turn A) → ((w : Work) → (m w).1.operations ≡ w.operations) → Keeps m
unfolding Keeps
by_keeping m h = h

unchanged_at : {A : Type 0} (m : Turn A) → Keeps m → (w : Work) → (m w).1.operations ≡ w.operations
unfolding Keeps
unchanged_at m h = h

pub lift-Keeps : {A : Type 0} (result : Result A) → Keeps (lift result)
lift-Keeps result = by_keeping (lift result) (λ w. refl)

pub pure-Keeps : {A : Type 0} (a : A) → Keeps (pure a)
pure-Keeps a = by_keeping (pure a) (λ w. refl)

pub throws_only :
    {A : Type 0} (m : Turn A) (e : Failure) → ((w : Work) → m w ≡ (err e, w)) → Keeps m
throws_only m e h = by_keeping m (λ w. ap (λ call. call.1.operations) (h w))

pub gets-Keeps : {A : Type 0} (f : Work → A) → Keeps (gets f)
gets-Keeps f = by_keeping (gets f) (λ w. refl)

pub >>=-Keeps :
    {A B : Type 0} (m : Turn A) (f : A → Turn B)
    → Keeps m
    → ((a : A) → Keeps (f a))
    → Keeps (m >>= f)
unfolding Keeps
>>=-Keeps m f h next w =
    continue-keeps w.operations (m w).0 f (m w).1 (h w) (λ a. next a (m w).1 ∙ h w)

pub >>=-Refuses :
    {A B : Type 0} (asked : List PlannedOperation) (m : Turn A) (f : A → Turn B) (w : Work)
    → Keeps m
    → w.operations ≡ asked
    → ((a : A) (w₁ : Work) → w₁.operations ≡ asked → Refuses asked (f a w₁))
    → Refuses asked ((m >>= f) w)
unfolding Keeps Refuses
>>=-Refuses {A} asked m f w keeps h next = go (m w) (keeps w ∙ h)
  where
    go :
        (call : Result A × Work)
        → call.1.operations ≡ asked
        → (c m : String) → (continue call.0 f call.1).0 ≡ err (harness_failure c m)
        → (continue call.0 f call.1).1.operations ≡ asked
    go (ok a, w₁) k c m e = next a w₁ k c m e
    go (err failure, w₁) k c m e = k

pub kept-Refuses :
    {A : Type 0} (asked : List PlannedOperation) (m : Turn A) (w : Work)
    → Keeps m
    → w.operations ≡ asked
    → Refuses asked (m w)
unfolding Keeps Refuses
kept-Refuses asked m w keeps h c msg e = keeps w ∙ h

pub append-Keeps : (p : ProposedMessage) → Keeps (append p)
unfolding Keeps append push_message
append-Keeps p w = continue-keeps w.operations (assert_message_size _) _ w refl (λ _. refl)

tool_result-Keeps :
    (call_id : String) (content : Json) (failure : Option String) (details : Json)
    (operation_id : Option String)
    → Keeps (tool_result call_id content failure details operation_id)
unfolding tool_result
tool_result-Keeps call_id content failure details operation_id =
    >>=-Keeps (lift _) _ (lift-Keeps _) (λ message.
      >>=-Keeps (gets (λ w. w.state.run_id)) _ (gets-Keeps _)
        (λ run_id. >>=-Keeps (append _) _ (append-Keeps _) (λ _. pure-Keeps tt)))

error_result-Keeps :
    (call_id text : String) (details : Json) (operation_id : Option String)
    → Keeps (error_result call_id text details operation_id)
unfolding error_result
error_result-Keeps call_id text details operation_id =
    tool_result-Keeps call_id _ _ details operation_id

promote_rows-Keeps : (rows : List PendingRow) → Keeps (promote_rows rows)
unfolding promote_rows
promote_rows-Keeps [] = pure-Keeps tt
promote_rows-Keeps (row ∷ rows) =
    >>=-Keeps (gets (λ w. w.state.run_id)) _ (gets-Keeps _)
      (λ run_id. >>=-Keeps (append _) _ (append-Keeps _) (λ _. promote_rows-Keeps rows))

pub promote_steering-Keeps : (t : Tables) → Keeps (promote_steering t)
unfolding promote_steering
promote_steering-Keeps t =
    >>=-Keeps (promote_rows t.pending) _ (promote_rows-Keeps t.pending)
      (λ _. by_keeping _ (λ w. refl))

pub skip_calls-Keeps : (calls : List ToolCall) → Keeps (skip_calls calls)
unfolding skip_calls
skip_calls-Keeps [] = pure-Keeps tt
skip_calls-Keeps (call ∷ calls) =
    >>=-Keeps (error_result _ _ _ _) _ (error_result-Keeps _ _ _ _) (λ _. skip_calls-Keeps calls)

invalid_bash_result-Keeps :
    (call_id operation_id : String) → Keeps (invalid_bash_result call_id operation_id)
unfolding invalid_bash_result
invalid_bash_result-Keeps call_id operation_id =
    >>=-Keeps (error_result _ _ _ _) _ (error_result-Keeps _ _ _ _) (λ _. by_keeping _ (λ w. refl))

recovered-Keeps :
    (call_id operation_id : String) (failure : Option PiError) (kept : Result (Unit {0}))
    → Keeps (recovered call_id operation_id failure kept)
unfolding recovered
recovered-Keeps call_id operation_id failure (ok done) = pure-Keeps failure
recovered-Keeps call_id operation_id failure (err (contract c m)) =
    invalid_bash_result-Keeps call_id operation_id
recovered-Keeps call_id operation_id failure (err (harness_failure c m)) =
    throws_only _ (harness_failure c m) (λ w. refl)
recovered-Keeps call_id operation_id failure (err (error m)) = throws_only _ (error m) (λ w. refl)
recovered-Keeps call_id operation_id failure (err (syntax_error m)) =
    throws_only _ (syntax_error m) (λ w. refl)
recovered-Keeps call_id operation_id failure (err (gateway_error s c m r u)) =
    throws_only _ (gateway_error s c m r u) (λ w. refl)

keep_parts-Keeps :
    (call_id operation_id : String) (result : Option BashResult)
    → Keeps (keep_parts call_id operation_id result)
unfolding keep_parts keep_result
keep_parts-Keeps call_id operation_id none = invalid_bash_result-Keeps call_id operation_id
keep_parts-Keeps call_id operation_id (some result) =
    by_keeping (keep_result call_id operation_id result) (λ w.
      unchanged_at (recovered call_id operation_id _ _) (recovered-Keeps call_id operation_id _ _) _
      ∙ unchanged_at (tool_result call_id _ _ _ (some operation_id))
          (tool_result-Keeps call_id _ _ _ (some operation_id)) w)

pub settle_bash-Keeps :
    (call_id operation_id : String) (outcome : OperationOutcome)
    → Keeps (settle_bash call_id operation_id outcome)
unfolding settle_bash
settle_bash-Keeps call_id operation_id (succeeded value) = keep_parts-Keeps call_id operation_id _
settle_bash-Keeps call_id operation_id (failed origin e) =
    >>=-Keeps (error_result _ _ _ _) _ (error_result-Keeps _ _ _ _) (λ _. by_keeping _ (λ w. refl))
settle_bash-Keeps call_id operation_id cancelled =
    >>=-Keeps (error_result _ _ _ _) _ (error_result-Keeps _ _ _ _) (λ _. by_keeping _ (λ w. refl))

pub refuse_arguments-Keeps : (call : ToolCall) (text : String) → Keeps (refuse_arguments call text)
refuse_arguments-Keeps call text =
    >>=-Keeps (error_result _ _ _ _) _ (error_result-Keeps _ _ _ _) (λ _. by_keeping _ (λ w. refl))

-- identities are computed without a HarnessFailure
abbrev pub Computes : ReadContext → Type 0
Computes read = (key c m : String) → read.operation_id key ≢ err (harness_failure c m)

ok≢err {ℓ κ} : {A : Type ℓ} {B : Type κ} {a : A} {e : Failure} → ok a ≡ err e → B
ok≢err h = cc

err_eq : {A : Type 0} (r : Result A) {e f : Failure} → r ≡ err e → r ≡ err f → e ≡ f
err_eq r h k = cc

pub planned-Refuses :
    (asked : List PlannedOperation) (id : Result String) (change : String → Work → Work) (w : Work)
    → ((c m : String) → id ≢ err (harness_failure c m))
    → Refuses asked (continue id (λ id. modify (change id)) w)
unfolding Refuses
planned-Refuses asked (ok id) change w honest c m e = ok≢err e
planned-Refuses asked (err failure) change w honest c m e =
    absurd (honest c m (ap err (err_eq _ refl e)))

pub returned-Refuses : (asked : List PlannedOperation) (w : Work) → Refuses asked (ok (tt {0}), w)
unfolding Refuses
returned-Refuses asked w c m e = ok≢err e
