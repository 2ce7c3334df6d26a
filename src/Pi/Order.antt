-- ===== src/Pi/Order.antt =====
-- The order in which the results of a batch of packages/harness-pi-no-compaction/src/harness.ts reach
-- the transcript.
use mathlib.Core.List.{append-nil, append_assoc}
use managed_agents.Common.{
  ◌+◌, ◌≡◌, refl, sym, ap, ◌∙◌, String, true, false, Option, none, some, Bool-cases, inl, inr,
  if◌then◌else◌, List, [], ◌∷◌, ◌++◌, length, ok, arith,
}
use managed_agents.Common.Exec.{Ensures-map, Ensures, Ensures-ok, continue-Ensures, >>=-Ensures}
use managed_agents.Contracts.Json.{Json}
use managed_agents.Pi.Tables.{BatchRow, is_done}
use managed_agents.Pi.Work.{
  changed, modify, ProposedMessage, Work, append, push_message, assert_message_size, message_fields,
}
use managed_agents.Pi.Batch.{flush_result, flush, flush_row, flushed, result_message}

-- The results of the finished rows at the front, in their order.
unfoldable pub front_results : Option String → List BatchRow → List ProposedMessage
front_results run_id [] = []
front_results run_id (row ∷ rows) =
    let rest = front_results run_id rows in
    if is_done row
    then (elim row.result [
      | none ↦ []
      | some message ↦ result_message message run_id row.operation_id ∷ rest
    ])
    else []

-- What flushing a row does.
abbrev FlushesRow : BatchRow → Work → Unit {0} → Work → Type 0
FlushesRow row w done w' =
    (message : Json) × (row.result ≡ some message)
    × (w'.changes.messages
        ≡ w.changes.messages ++ result_message message w.state.run_id row.operation_id ∷ [])
    × (w'.state.next_tool_index ≡ w.state.next_tool_index + 1)
    × (w'.state.run_id ≡ w.state.run_id)

append-Ensures :
    (p : ProposedMessage) (w : Work) → Ensures (λ _ w'. w' ≡ push_message p w) (append p w)
unfolding append
append-Ensures p w =
    continue-Ensures (λ _ w'. w' ≡ push_message p w) (assert_message_size (message_fields p)) _ w
      (λ _ _. refl)

pushed-FlushesRow :
    (row : BatchRow) (message : Json) (w w₁ : Work)
    → row.result ≡ some message
    → w₁ ≡ push_message (result_message message w.state.run_id row.operation_id) w
    → FlushesRow row w tt (flushed row w₁)
unfolding push_message changed
pushed-FlushesRow row message w w₁ found pushed = (
  message,
  found,
  ap (λ v. v.changes.messages) pushed,
  ap (λ v. v.state.next_tool_index + 1) pushed,
  ap (λ v. v.state.run_id) pushed,
)

flush_result-Ensures :
    (row : BatchRow) (result : Option Json) (w : Work)
    → row.result ≡ result
    → Ensures (FlushesRow row w) (flush_result row result w)
unfolding flush_result
flush_result-Ensures row none w e = tt
flush_result-Ensures row (some message) w e =
    >>=-Ensures (FlushesRow row w)
      (λ _ w₁. w₁ ≡ push_message (result_message message w.state.run_id row.operation_id) w)
      (append (result_message message w.state.run_id row.operation_id)) (λ _. modify (flushed row))
      w (append-Ensures (result_message message w.state.run_id row.operation_id) w)
      (λ _ w₁ pushed. pushed-FlushesRow row message w w₁ e pushed)

flush_row-Ensures : (row : BatchRow) (w : Work) → Ensures (FlushesRow row w) (flush_row row w)
unfolding flush_row
flush_row-Ensures row w = flush_result-Ensures row row.result w refl

abbrev Flushes : List BatchRow → Work → Unit {0} → Work → Type 0
Flushes rows w done w' =
    (w'.changes.messages ≡ w.changes.messages ++ front_results w.state.run_id rows)
    × (w'.state.next_tool_index
        ≡ w.state.next_tool_index + length (front_results w.state.run_id rows))

flushed-Flushes :
    (row : BatchRow) (rows : List BatchRow) (w w₁ w₂ : Work)
    → is_done row ≡ true
    → FlushesRow row w tt w₁
    → Flushes rows w₁ tt w₂
    → Flushes (row ∷ rows) w tt w₂
unfolding front_results
flushed-Flushes row rows w w₁ w₂ finished (message, found, pushed, next, run) (later, count) =
    rw (finished, found)
      (
        later
            ∙ ap (λ r. w₁.changes.messages ++ front_results r rows) run
            ∙ ap (λ m. m ++ front_results w.state.run_id rows) pushed
            ∙ append_assoc w.changes.messages
                (result_message message w.state.run_id row.operation_id ∷ [])
                (front_results w.state.run_id rows),
        omega (
          arith,
          next,
          count ∙ ap (λ r. w₁.state.next_tool_index + length (front_results r rows)) run,
        ),
      )

waiting-Flushes :
    (row : BatchRow) (rows : List BatchRow) (w : Work)
    → is_done row ≡ false
    → Flushes (row ∷ rows) w tt w
unfolding front_results
waiting-Flushes row rows w waits = rw waits (sym (append-nil w.changes.messages), omega arith)

flush-Ensures : (rows : List BatchRow) (w : Work) → Ensures (Flushes rows w) (flush rows w)
unfolding flush front_results
flush-Ensures [] w = (sym (append-nil w.changes.messages), omega arith)
flush-Ensures (row ∷ rows) w = elim (Bool-cases (is_done row)) [
  | inl finished ↦ rw finished (
      >>=-Ensures (Flushes (row ∷ rows) w) (FlushesRow row w) (flush_row row) (λ _. flush rows) w
        (flush_row-Ensures row w)
        (λ _ w₁ first.
          Ensures-map (Flushes (row ∷ rows) w) (Flushes rows w₁) (flush rows w₁)
            (λ _ w₂ later. flushed-Flushes row rows w w₁ w₂ finished first later)
            (flush-Ensures rows w₁)))
  | inr waits ↦ rw waits (waiting-Flushes row rows w waits)
]

-- Flushing a batch appends to the proposed messages the results of the finished rows at its front, each
-- with the operation that gave it and in the order of the calls, and moves the next index past exactly
-- those rows, whatever the order in which they finished.
pub flush-front_results :
    (rows : List BatchRow) (w w' : Work)
    → flush rows w ≡ (ok tt, w')
    → (w'.changes.messages ≡ w.changes.messages ++ front_results w.state.run_id rows)
      × (w'.state.next_tool_index
          ≡ w.state.next_tool_index + length (front_results w.state.run_id rows))
flush-front_results rows w w' e =
    Ensures-ok (Flushes rows w) (flush rows w) tt w' (flush-Ensures rows w) e
