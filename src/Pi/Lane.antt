-- ===== src/Pi/Lane.antt =====
-- The queued calls of a batch of packages/harness-pi-no-compaction/src/harness.ts: which of them may
-- start.
use managed_agents.Common.{
  true≢false, Result-cases, sym, ◌∙◌, err≢ok, is_some, Option-cases, gateway_error, error,
  harness_failure, ℕ, ◌+◌, ◌≤◌, ◌≡◌, refl, ap, ◌⊎◌, inl, inr, String, Bool, true, false, ◌&&◌, ◌||◌,
  none, some, if◌then◌else◌, if-cases, Bool-cases, List, [], ◌∷◌, any, get_elem?, Result, ok, err,
  ok_eq, contract, syntax_error, arith,
}
use managed_agents.Common.Exec.{Ensures-ok, pure, Ensures, continue-Ensures, >>=-Ensures, ◌>>=◌}
use managed_agents.Contracts.Json.{Json}
use managed_agents.Contracts.Operation.{OperationRequest}
use managed_agents.Runtime.Harness.{ReadContext}
use managed_agents.Pi.Config.{PiConfig}
use managed_agents.Pi.Tools.{ToolCall, is_mutation}
use managed_agents.Pi.Tables.{BatchRow, done, is_queued, is_active}
use managed_agents.Pi.Work.{plan_operation, assert_message_size, Work, settle}
use managed_agents.Pi.Batch.{
  tool_key, started, call_of, mutation_busy, start_call, refuse_call, advance_call, advance_row,
  advance_rows,
}

-- whether the call of a row changes files
unfoldable pub mutates : List ToolCall → BatchRow → Bool
mutates calls row = elim (get_elem? calls row.call_index) [
  | none ↦ false
  | some call ↦ is_mutation call.name
]

abbrev one_if : Bool → ℕ
one_if true = 1
one_if false = 0

-- how many mutations are active
unfoldable pub lanes : List ToolCall → List BatchRow → ℕ
lanes calls [] = 0
lanes calls (row ∷ rows) = one_if (is_active row && mutates calls row) + lanes calls rows

abbrev room : Bool → ℕ
room true = 0
room false = 1

-- What a step does to a row: its key stays, a mutation becomes active only in a free lane, a row waits
-- only for the lane, the lane is taken only by an active
-- row, and an active row stays active.
Advances : List ToolCall → Bool → BatchRow → Bool → BatchRow → Type 0
Advances calls busy row busy' row' =
    (row'.call_index ≡ row.call_index)
    × (one_if (is_active row' && mutates calls row') + room busy'
        ≤ one_if (is_active row && mutates calls row) + room busy)
    × (is_queued row' ≡ true → busy' ≡ true)
    × (busy' ≡ true → (busy ≡ true) ⊎ (is_active row' ≡ true))
    × (is_active row ≡ true → is_active row' ≡ true)

abbrev Settles : BatchRow → BatchRow → Work → Type 0
Settles row after w = (after.status ≡ done) × (after.call_index ≡ row.call_index)

settle-Ensures :
    (row : BatchRow) (message : Json) (w : Work) → Ensures (Settles row) (settle row message w)
unfolding settle
settle-Ensures row message w =
    continue-Ensures (Settles row) (assert_message_size _) _ w (λ _ _. (refl, refl))

abbrev Steps : List ToolCall → Bool → BatchRow → Bool × BatchRow → Work → Type 0
Steps calls busy row step w = Advances calls busy row step.0 step.1

done-Advances :
    (calls : List ToolCall) (busy : Bool) (row after : BatchRow)
    → is_queued row ≡ true
    → after.status ≡ done
    → after.call_index ≡ row.call_index
    → Advances calls busy row busy after
unfolding Advances
done-Advances calls busy row after q₁ d k =
    (k, ground arith, (λ q. ground arith), (λ h. inl h), λ a. ground arith)

same-Advances :
    (calls : List ToolCall) (busy : Bool) (row : BatchRow)
    → (is_queued row ≡ true → busy ≡ true)
    → Advances calls busy row busy row
unfolding Advances
same-Advances calls busy row waits = (refl, omega arith, waits, (λ h. inl h), λ a. a)

settled-Steps :
    (calls : List ToolCall) (busy : Bool) (row : BatchRow) (message : Json) (w : Work)
    → is_queued row ≡ true
    → Ensures (Steps calls busy row) ((settle row message >>= λ after. pure (busy, after)) w)
settled-Steps calls busy row message w q =
    >>=-Ensures (Steps calls busy row) (Settles row) (settle row message) _ w
      (settle-Ensures row message w) (λ after w' (d, k). done-Advances calls busy row after q d k)

started-Advances :
    (calls : List ToolCall) (call : ToolCall) (busy : Bool) (row : BatchRow) (id : String)
    → mutates calls row ≡ is_mutation call.name
    → is_queued row ≡ true
    → (is_mutation call.name && busy) ≡ false
    → Advances calls busy row (is_mutation call.name || busy) (started id row)
unfolding Advances mutates
started-Advances calls call busy row id m q free =
    (refl, ground (arith, m), (λ h. cc), (λ h. inr refl), λ a. refl)

call_of-mutates :
    (calls : List ToolCall) (row : BatchRow) (call : ToolCall)
    → call_of calls row ≡ ok call
    → mutates calls row ≡ is_mutation call.name
unfolding call_of mutates
call_of-mutates calls row call e = elim (Option-cases (get_elem? calls row.call_index)) [
  | inl missing ↦ err≢ok (rw (missing, call_of) at e)
  | inr (own, found) ↦
      rw (found, mutates) (ap (λ c. is_mutation c.name) (ok_eq (rw (found, call_of) at e)))
]

module _ (calls : List ToolCall) (row : BatchRow) (call : ToolCall) (busy : Bool) where
  start_call-Steps :
      (read : ReadContext) (request : Result OperationRequest) (w : Work)
      → mutates calls row ≡ is_mutation call.name
      → is_queued row ≡ true
      → (is_mutation call.name && busy) ≡ false
      → Ensures (Steps calls busy row) (start_call read call busy row request w)
  unfolding start_call plan_operation
  start_call-Steps read (ok request) w m q free =
      continue-Ensures (Steps calls busy row) (read.operation_id (tool_key row.call_index)) _ _
        (λ id _. started-Advances calls call busy row id m q free)
  start_call-Steps read (err (syntax_error message)) w m q free = settled-Steps calls busy row _ w q
  start_call-Steps read (err (contract c message)) w m q free = settled-Steps calls busy row _ w q
  start_call-Steps read (err (harness_failure c message)) w m q free = tt
  start_call-Steps read (err (error message)) w m q free = tt
  start_call-Steps read (err (gateway_error s c message r u)) w m q free = tt

-- What the loop does to the rows.
Advanced : List ToolCall → Bool → List BatchRow → List BatchRow → Work → Type 0
Advanced calls busy rows after w =
    (lanes calls after ≤ lanes calls rows + room busy)
    × (any is_queued after ≡ true → (busy ≡ true) ⊎ (any is_active after ≡ true))
    × (any is_active rows ≡ true → any is_active after ≡ true)

cons-Advanced :
    (calls : List ToolCall) (busy : Bool) (row : BatchRow) (rows : List BatchRow)
    (step : Bool × BatchRow) (rest : List BatchRow) (w : Work)
    → Advances calls busy row step.0 step.1
    → Advanced calls step.0 rows rest w
    → Advanced calls busy (row ∷ rows) (step.1 ∷ rest) w
unfolding Advanced lanes Advances
cons-Advanced calls busy row rows (busy', row') rest w (key, lane, waits, taken, stays)
      (lanes₂, waits₂, stays₂) =
    (
      omega (arith, lane, lanes₂),
      (λ q. ground (arith, waits, taken, waits₂)),
      λ a. ground (arith, stays, stays₂),
    )

module _ (parse_json : String → Result Json) (over_limit : String → Bool) (config : PiConfig)
    (read : ReadContext) where
  advance_call-Steps :
      (calls : List ToolCall) (busy : Bool) (row : BatchRow) (call : ToolCall) (w : Work)
      → mutates calls row ≡ is_mutation call.name
      → is_queued row ≡ true
      → Ensures
          (Steps calls busy row)
          (advance_call parse_json over_limit config read busy row call w)
  unfolding advance_call refuse_call
  advance_call-Steps calls busy row call w m q = elim (Bool-cases (is_some w.state.last_error)) [
    | inl failing ↦ rw failing (settled-Steps calls busy row _ w q)
    | inr running ↦ rw running (elim (Bool-cases (is_mutation call.name && busy)) [
      | inl waits ↦ rw waits (same-Advances calls busy row (λ _. ground arith))
      | inr free ↦ rw free (start_call-Steps calls row call busy read _ w m q free)
    ])
  ]

  advance_row-Steps :
      (calls : List ToolCall) (busy : Bool) (row : BatchRow) (w : Work)
      → Ensures
          (Steps calls busy row)
          (advance_row parse_json over_limit config read calls busy row w)
  unfolding advance_row
  advance_row-Steps calls busy row w = elim (Bool-cases (is_queued row)) [
    | inl q ↦ rw q (
        continue-Ensures (Steps calls busy row) (call_of calls row) _ w (λ call found.
          advance_call-Steps calls busy row call w (call_of-mutates calls row call found) q))
    | inr other ↦ rw other (same-Advances calls busy row (λ q. ground arith))
  ]

  advance_rows-Advanced :
      (calls : List ToolCall) (busy : Bool) (rows : List BatchRow) (w : Work)
      → Ensures
          (Advanced calls busy rows)
          (advance_rows parse_json over_limit config read calls busy rows w)
  unfolding advance_rows Advanced lanes Advances
  advance_rows-Advanced calls busy [] w = (omega arith, (λ h. cc), λ a. a)
  advance_rows-Advanced calls busy (row ∷ rows) w =
      >>=-Ensures (Advanced calls busy (row ∷ rows)) (Steps calls busy row)
        (advance_row parse_json over_limit config read calls busy row)
        (λ step. advance_rows parse_json over_limit config read calls step.0 rows >>= λ rest.
          pure (step.1 ∷ rest))
        w (advance_row-Steps calls busy row w)
        (λ step w₁ moved.
          >>=-Ensures (Advanced calls busy (row ∷ rows)) (Advanced calls step.0 rows)
            (advance_rows parse_json over_limit config read calls step.0 rows)
            (λ rest. pure (step.1 ∷ rest)) w₁ (advance_rows-Advanced calls step.0 rows w₁)
            (λ rest w₂ later. cons-Advanced calls busy row rows step rest w₂ moved later))

mutation_busy-idle :
    (calls : List ToolCall) (row : BatchRow) (call : ToolCall) (rows : List BatchRow) (busy : Bool)
    → ((busy ≡ false) → mutation_busy calls rows ≡ ok busy → lanes calls rows ≡ 0)
    → call_of calls row ≡ ok call
    → (if is_mutation call.name then ok true else mutation_busy calls rows) ≡ ok busy
    → busy ≡ false
    → one_if (mutates calls row) + lanes calls rows ≡ 0
mutation_busy-idle calls row call rows busy rest found e b =
    elim (if-cases (is_mutation call.name) _ _ e) [
      | inl (m, e₁) ↦ true≢false (ok_eq e₁ ∙ b)
      | inr (m, e₁) ↦ rw (call_of-mutates calls row call found ∙ m) (omega (arith, rest b e₁))
    ]

-- whether the lane is taken, from the rows
mutation_busy-lanes :
    (calls : List ToolCall) (rows : List BatchRow) (busy : Bool)
    → mutation_busy calls rows ≡ ok busy
    → (busy ≡ false → lanes calls rows ≡ 0) × (busy ≡ true → any is_active rows ≡ true)
unfolding mutation_busy lanes
mutation_busy-lanes calls [] busy e = ((λ b. refl), λ b. true≢false (sym b ∙ sym (ok_eq e)))
mutation_busy-lanes calls (row ∷ rows) busy e = elim (if-cases (is_active row) _ _ e) [
  | inr (idle, e₁) ↦
      let (few, some_active) = mutation_busy-lanes calls rows busy e₁ in
      rw idle ((λ b. omega (arith, few b)), some_active)
  | inl (acts, e₁) ↦ elim (Result-cases (call_of calls row)) [
    | inl (failure, missing) ↦ err≢ok (rw missing at e₁)
    | inr (call, found) ↦ rw acts (
      (λ b.
          mutation_busy-idle calls row call rows busy
            (λ b e₂. (mutation_busy-lanes calls rows busy e₂).0 b) found (rw found at e₁) b),
      λ b. refl,
    )
  ]
]

-- If at most one edit or write of a batch was active, then after the loop over its rows at most one is,
-- and a call that still waits waits for an active one: the batch is never stuck with nothing running.
pub advance_rows-lane :
    (parse_json : String → Result Json) (over_limit : String → Bool) (config : PiConfig)
    (read : ReadContext) (calls : List ToolCall) (busy : Bool) (rows after : List BatchRow)
    (w w' : Work)
    → lanes calls rows ≤ 1
    → mutation_busy calls rows ≡ ok busy
    → advance_rows parse_json over_limit config read calls busy rows w ≡ (ok after, w')
    → (lanes calls after ≤ 1) × (any is_queued after ≡ true → any is_active after ≡ true)
unfolding Advanced
advance_rows-lane parse_json over_limit config read calls busy rows after w w' l b e =
    let (few, some_active) = mutation_busy-lanes calls rows busy b in
    let (more, waits, stays) =
      Ensures-ok (Advanced calls busy rows)
        (advance_rows parse_json over_limit config read calls busy rows w) after w'
        (advance_rows-Advanced parse_json over_limit config read calls busy rows w) e in
    (
      within busy l few more,
      λ q. elim (waits q) [ inl taken ↦ stays (some_active taken) | inr acts ↦ acts ],
    )
  where
    within :
        (busy : Bool)
        → lanes calls rows ≤ 1
        → (busy ≡ false → lanes calls rows ≡ 0)
        → lanes calls after ≤ lanes calls rows + room busy
        → lanes calls after ≤ 1
    within true l few more = omega (arith, l, more)
    within false l few more = omega (arith, few refl, more)
