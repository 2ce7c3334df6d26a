-- ===== src/Runtime/Retry.antt =====
-- Repeated `appendInput` calls (runtime.ts, `prepareInput`).
use managed_agents.Runtime.Sessions.{exclusive-eq-ok, require_session-cached, require_session-eq}
use managed_agents.Common.{
  ℕ, String, true, false, Option, none, some, List, [], ◌∷◌, ◌++◌, ◌≡◌, inl, inr, refl, sym, subst,
  ap, ◌∙◌, Bool-cases, str_eq, eq_iff, eq_refl, arith, Result, ok, err, ok_eq, >>=-eq-ok,
  require-eq-ok,
}
use managed_agents.Common.Exec.{continue-eq-ok}
use managed_agents.Contracts.Json.{Json}
use managed_agents.Contracts.Session.{SessionInfo, SubmitInputRequest, parse_submit_input_request}
use managed_agents.Runtime.Event.{input_hash}
use managed_agents.Runtime.Storage.{Store, InboxRow, find_input, new_row}
use managed_agents.Runtime.Harness.{HarnessDefinition}
use managed_agents.Runtime.Inbox.Shape.{Absent}
use managed_agents.Runtime.Invariant.{IsStore}
use managed_agents.Runtime.Insertion.{insert_next-Inserted}
use managed_agents.Runtime.Replay.{Later, Later-Knows}
use managed_agents.Runtime.Inbox.Known.{SameInput}
use managed_agents.Runtime.Preservation.{admit_store-IsStore}
use managed_agents.Runtime.Coherence.{IsRuntime, require_session-Maintains, busy-IsRuntime}
use managed_agents.Runtime.Core.State.{SessionRuntime, require_session, exclusive, release}
use managed_agents.Runtime.Core.Insert.{insert_next}
use managed_agents.Runtime.Core.Admission.{
  InputReceipt, event_of, repeated_input, validated_input, fresh_input, admit_known, admit_store,
  keep_admitted, admit_session, admit_input, append_input, is_reserved,
}

-- the row that is appended is the one that its event ID finds
find_input-append :
    (rows : List InboxRow) (row : InboxRow)
    → Absent row.event_id rows
    → find_input row.event_id (rows ++ row ∷ []) ≡ some row
unfolding find_input
find_input-append [] row a = rw (eq_refl row.event_id) refl
find_input-append (r ∷ rows) row (p, a) =
    ground (arith, eq_iff r.event_id row.event_id, find_input-append rows row a)

abbrev as_duplicate : InputReceipt → InputReceipt
as_duplicate receipt = record receipt { duplicate = true }

-- the receipt of a repeated input
abbrev receipt_of : SessionInfo → InboxRow → InputReceipt
receipt_of info row = record {
  session_id = info.identity.session_id;
  event_id = row.event_id;
  sequence = row.sequence;
  received_at = row.received_at;
  duplicate = true;
}

receipt_of-same :
    (info : SessionInfo) (a b : InboxRow) → SameInput a b → receipt_of info b ≡ receipt_of info a
receipt_of-same info a b k = rw (k.event_id_lem, k.sequence_lem, k.received_at_lem) refl

module _ {T C : Type 0} (sha256 : String → List ℕ) (h : HarnessDefinition T C) where
  -- A repeated request meets a row that its ID finds.
  repeated_input-same :
      (now : ℕ) (info : SessionInfo) (request : SubmitInputRequest) (row : InboxRow)
      → row.event_hash ≡ input_hash sha256 (event_of request.event)
      → repeated_input sha256 h now info request row ≡ ok (receipt_of info row)
  unfolding repeated_input
  repeated_input-same now info request row same =
      rw (same, eq_refl (input_hash sha256 (event_of request.event))) refl

  -- The row that an admission found or left, and the receipt for it.
  Recorded : SessionInfo → SubmitInputRequest → InputReceipt → Store T → Type 0
  Recorded info request receipt store =
      (row : InboxRow) × (find_input request.event_id store.inbox ≡ some row)
      × (row.event_hash ≡ input_hash sha256 (event_of request.event))
      × (as_duplicate receipt ≡ receipt_of info row)

  module _ (now : ℕ) (info : SessionInfo) (request : SubmitInputRequest) where
    fresh_input-Recorded :
        (store store' : Store T) (receipt : InputReceipt)
        → IsStore store
        → fresh_input sha256 h now info request store ≡ ok (receipt, store')
        → Recorded info request receipt store'
    unfolding fresh_input new_row Recorded
    fresh_input-Recorded store store' receipt s e =
        let (_, valid, e₁) = >>=-eq-ok (validated_input sha256 h now request.event) _ e in
        let ((input, rows), inserted, same) =
          >>=-eq-ok
            (insert_next now request.event_id (event_of request.event)
              (input_hash sha256 (event_of request.event)) store.inbox)
            _ e₁ in
        let new =
          insert_next-Inserted now request.event_id (event_of request.event) _ store.inbox s.inbox
            input rows inserted in
        let hash = input_hash sha256 (event_of request.event) in
        let found : find_input request.event_id rows ≡ some (new_row input hash) =
          subst (λ id. find_input id rows ≡ some (new_row input hash)) new.event_id_lem
            (rw (new.grown) (
              find_input-append store.inbox (new_row input hash)
                (subst (λ id. Absent id store.inbox) (sym new.event_id_lem) new.absent))) in
        subst (λ x. Recorded info request x.0 x.1) (ok_eq same)
          (new_row input hash, found, refl, refl)

    admit_known-Recorded :
        (found : Option InboxRow) (store store' : Store T) (receipt : InputReceipt)
        → IsStore store
        → find_input request.event_id store.inbox ≡ found
        → admit_known sha256 h now found info request store ≡ ok (receipt, store')
        → Recorded info request receipt store'
    unfolding admit_known repeated_input Recorded
    admit_known-Recorded none store store' receipt s f e =
        fresh_input-Recorded store store' receipt s e
    admit_known-Recorded (some row) store store' receipt s f e =
        let (receipt', repeated, same) =
          >>=-eq-ok (repeated_input sha256 h now info request row) _ e in
        let (matched, shown) =
          require-eq-ok (str_eq row.event_hash (input_hash sha256 (event_of request.event))) _ _
            repeated in
        subst (λ x. Recorded info request x.0 x.1) (ok_eq same)
          (
            row,
            f,
            (eq_iff row.event_hash (input_hash sha256 (event_of request.event))).0 matched,
            ap as_duplicate (sym (ok_eq shown)),
          )

  -- an admission that is repeated after other transactions
  admit_store-retry :
      (now later : ℕ) (info : SessionInfo) (request : SubmitInputRequest)
      (store store' store'' : Store T) (receipt : InputReceipt)
      → IsStore store
      → admit_store sha256 h now info request store ≡ ok (receipt, store')
      → Later sha256 h store' store''
      → admit_store sha256 h later info request store'' ≡ ok (as_duplicate receipt, store'')
  unfolding admit_store admit_known Recorded
  admit_store-retry now later info request store store' store'' receipt s e l =
      let (row, found, matched, shown) =
        admit_known-Recorded now info request _ store store' receipt s refl e in
      let t = admit_store-IsStore sha256 now h info request store store' receipt s e in
      let (_, knows) = Later-Knows sha256 h request.event_id store' store'' t l in
      let (row', found', same) = knows row found in
      rw
        (
          found',
          repeated_input-same later info request row' (same.event_hash_lem ∙ matched),
          receipt_of-same info row row' same,
          shown,
        )
        refl

module _ {T C : Type 0} (sha256 : String → List ℕ) (h : HarnessDefinition T C) (now : ℕ) where
  keep_admitted-eq-ok :
      (result : Result (InputReceipt × Store T)) (s s' : SessionRuntime T C)
      (receipt : InputReceipt)
      → keep_admitted sha256 h now result s ≡ (ok receipt, s')
      → (store : Store T) × (result ≡ ok (receipt, store)) × (s' ≡ record s { store = store })
  unfolding keep_admitted
  keep_admitted-eq-ok (err failure) s s' receipt e = cc
  keep_admitted-eq-ok (ok (given, store)) s s' receipt e =
      (store, ap (λ a. ok (a, store)) (ok_eq (ap (λ x. x.0) e)), ap (λ x. x.1) (sym e))

  module _ (later : ℕ) (request : SubmitInputRequest) where
    admit_session-again :
        (s : SessionRuntime T C) (info : SessionInfo) (receipt : InputReceipt)
        → s.session ≡ some info
        → admit_store sha256 h later info request s.store ≡ ok (receipt, s.store)
        → admit_session sha256 h later request s ≡ (ok receipt, s)
    unfolding admit_session keep_admitted
    admit_session-again s info receipt cached e = rw (require_session-eq s info cached, e) refl

    admit_session-retry :
        (r r' t : SessionRuntime T C) (receipt : InputReceipt)
        → IsRuntime r
        → admit_session sha256 h now request r ≡ (ok receipt, r')
        → t.session ≡ r'.session
        → Later sha256 h r'.store t.store
        → admit_session sha256 h later request t ≡ (ok (as_duplicate receipt), t)
    unfolding admit_session
    admit_session-retry r r' t receipt i e cache l =
        let (info, found, kept) =
          continue-eq-ok (require_session r).0 _ (require_session r).1 r' receipt e in
        let s = (require_session r).1 in
        let (store, admitted, same) =
          keep_admitted-eq-ok (admit_store sha256 h now info request s.store) s r' receipt kept in
        admit_session-again t info (as_duplicate receipt)
          (cache
            ∙ ap (λ (x : SessionRuntime T C). x.session) same
            ∙ require_session-cached r info found)
          (admit_store-retry sha256 h now later info request s.store store t.store receipt
            (require_session-Maintains.at r i).store admitted
            (subst (λ (x : SessionRuntime T C). Later sha256 h x.store t.store) same l))

    admit_input-again :
        (t : SessionRuntime T C) (receipt : InputReceipt)
        → t.busy ≡ false
        → is_reserved request ≡ false
        → admit_session sha256 h later request (record t { busy = true })
          ≡ (ok receipt, record t { busy = true })
        → admit_input sha256 h later request t ≡ (ok receipt, t)
    unfolding admit_input exclusive release
    admit_input-again t receipt idle free e = rw (idle, free, e) refl

    admit_input-retry :
        (r r' t : SessionRuntime T C) (receipt : InputReceipt)
        → IsRuntime r
        → admit_input sha256 h now request r ≡ (ok receipt, r')
        → t.busy ≡ false
        → t.session ≡ r'.session
        → Later sha256 h r'.store t.store
        → admit_input sha256 h later request t ≡ (ok (as_duplicate receipt), t)
    unfolding admit_input
    admit_input-retry r r' t receipt i e idle cache l =
        let (free, s, done, same) = exclusive-eq-ok _ r r' receipt e in
        elim (Bool-cases (is_reserved request)) [
          | inl reserved ↦ absurd (ground (arith, simp reserved at done))
          | inr allowed ↦ admit_input-again t (as_duplicate receipt) idle allowed (
              admit_session-retry (record r { busy = true }) s (record t { busy = true }) receipt
                (busy-IsRuntime r i true) (simp allowed at done)
                (cache ∙ ap (λ (x : SessionRuntime T C). x.session) same)
                (subst (λ (x : SessionRuntime T C). Later sha256 h x.store t.store) same l))
        ]

  -- An input that was admitted and is sent again gets the first receipt, marked as a duplicate, and the
  -- runtime is unchanged: after any admissions, commits, completions, failures and resumptions, also when
  -- the input was consumed, at any time, and on any runtime object that is not busy and whose cached
  -- session is the one of the first call.
  pub append_input-retry :
      (later : ℕ) (value : Json) (r r' t : SessionRuntime T C) (receipt : InputReceipt)
      → IsRuntime r
      → append_input sha256 h now value r ≡ (ok receipt, r')
      → t.busy ≡ false
      → t.session ≡ r'.session
      → Later sha256 h r'.store t.store
      → append_input sha256 h later value t ≡ (ok (as_duplicate receipt), t)
  unfolding append_input
  append_input-retry later value r r' t receipt i e idle cache l =
      let (request, parsed, admitted) =
        continue-eq-ok (parse_submit_input_request value) _ r r' receipt e in
      rw parsed (admit_input-retry later request r r' t receipt i admitted idle cache l)
