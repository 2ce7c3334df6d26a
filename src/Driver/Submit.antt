-- ===== src/Driver/Submit.antt =====
-- `#submit`: what the providers answer to the operations of a transition.
use managed_agents.Common.{
  String, Bool, false, not, Option, none, some, is_some, List, [], ◌∷◌, select, if◌then◌else◌,
  str_eq, Failure, Result, ok, err, ◌>>=◌, ◌>>◌,
}
use managed_agents.Contracts.Json.{Json}
use managed_agents.Contracts.Operation.{parse_provider_submit_result}
use managed_agents.Runtime.Core.State.{PreparedTransition, PreparedOperation}
use managed_agents.Runtime.Core.Settle.{lookup}
use managed_agents.Runtime.Core.Commit.{SubmissionReceipt}
use managed_agents.Driver.State.{SessionDriver}

-- `#submit`: the answers of an earlier attempt at the same input are kept
unfoldable pub keeps_receipts : Option String → String → Bool
keeps_receipts none event_id = false
keeps_receipts (some id) event_id = str_eq id event_id

-- the operations that no receipt answers yet
unfoldable pub unanswered : List (String × Json) → List PreparedOperation → List PreparedOperation
unanswered receipts ops =
    select (λ (op : PreparedOperation). not (is_some (lookup op.operation_id receipts))) ops

-- every attempt is made; the first error is the one that is thrown
unfoldable pub attempt_each :
    (PreparedOperation → Result Json)
    → List PreparedOperation
    → Option Failure × List (String × Json)
    → Option Failure × List (String × Json)
attempt_each provider [] (failure, receipts) = (failure, receipts)
attempt_each provider (op ∷ ops) (failure, receipts) =
    attempt_each provider ops
      (elim (provider op >>= λ reply. parse_provider_submit_result reply >> ok reply) [
        | ok reply ↦ (failure, (op.operation_id, reply) ∷ receipts)
        | err e ↦ (elim failure [ none ↦ some e | some earlier ↦ some earlier ], receipts)
      ])

unfoldable pub receipts_of : List (String × Json) → List PreparedOperation → List SubmissionReceipt
receipts_of receipts [] = []
receipts_of receipts (op ∷ ops) =
    let rest = receipts_of receipts ops in
    elim (lookup op.operation_id receipts) [
      | none ↦ rest
      | some reply ↦ record { operation_id = op.operation_id; result = reply } ∷ rest
    ]

module _ {T C : Type 0} where
  unfoldable pub for_input : String → SessionDriver T C → SessionDriver T C
  for_input event_id d =
      if keeps_receipts d.receipt_input event_id
      then d
      else record d { receipts = []; receipt_input = some event_id }

  -- `if (errors.length) throw errors[0]`, with the receipts that came in either way
  unfoldable pub answered :
      Option Failure
      → List (String × Json)
      → List PreparedOperation
      → SessionDriver T C
      → Result (List SubmissionReceipt) × SessionDriver T C
  answered (some e) receipts ops d = (err e, record d { receipts = receipts })
  answered none receipts ops d = (ok (receipts_of receipts ops), record d { receipts = receipts })

  unfoldable pub submit :
      (PreparedOperation → Result Json)
      → PreparedTransition C
      → SessionDriver T C
      → Result (List SubmissionReceipt) × SessionDriver T C
  submit provider prepared d =
      let d' = for_input prepared.input.event_id d in
      let (failure, receipts) =
        attempt_each provider (unanswered d'.receipts prepared.operations) (none, d'.receipts) in
      answered failure receipts prepared.operations d'
