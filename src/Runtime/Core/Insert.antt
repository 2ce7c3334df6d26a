-- ===== src/Runtime/Core/Insert.antt =====
-- The clock (values.ts) and the insertion of a new input behind all others.
use managed_agents.Common.{ℕ, String, List, if◌then◌else◌, leb, Result, ok, err, error, ◌>>=◌}
use managed_agents.Contracts.Validation.{max_safe_integer}
use managed_agents.Runtime.Event.{Event}
use managed_agents.Runtime.Storage.{Envelope, InboxRow, allocate_sequence, insert_input}

unfoldable pub timestamp : ℕ → Result ℕ
timestamp now =
    if leb now max_safe_integer then ok now else err (error "Invalid runtime timestamp.")

-- `insertInput(sql, { eventId, sequence: allocateSequence(sql), receivedAt: timestamp(), event }, hash)`,
-- with the input that is inserted
unfoldable pub insert_next :
    ℕ → String → Event → String → List InboxRow → Result (Envelope × List InboxRow)
insert_next now event_id event hash rows = do
  sequence ← allocate_sequence rows
  received_at ← timestamp now
  let input : Envelope = record {
    event_id = event_id;
    sequence = sequence;
    received_at = received_at;
    event = event;
  }
  inbox ← insert_input input hash rows
  ok (input, inbox)
