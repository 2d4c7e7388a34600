-- ===== src/Delivery.antt =====
-- src/quantum_entanglement/store.py, the calls of `SQLiteEventStore` that write the event log together with
-- another table: `append_with_outbox`, `append_inbox`, and the snapshots; the messages and receipts are
-- those of src/quantum_entanglement/delivery.py. Payloads, results and states are their canonical JSON texts.
pub mod Inbox
pub mod Snapshots
pub mod Run
pub mod Writes
pub mod Added
pub mod Rows
pub mod Quarantine
pub mod Once
pub mod Latest
pub mod Retry
use quantum_entanglement.Prelude.{
  ℕ, String, Bool, true, false, ◌&&◌, ◌||◌, not, List, [], ◌∷◌, ◌++◌, ◌==◌, Option, none, some, any,
  all, find, select, map, if◌then◌else◌, eqb, leb, Result, ok, err, guard, or_raise, ◌>>=◌, ◌>>◌,
  transact,
}
use quantum_entanglement.Prelude.Text.{Dict, get, put}
use quantum_entanglement.Events
use quantum_entanglement.Events.{
  DomainEvent, StoredEvent, Log, existing, append_new, append_in_transaction,
}
use quantum_entanglement.Outbox.{pending, OutboxRow, Outbox}

pub data Error : Type 0 where
  event_error : Events.Error → Error
  changed_messages constraint missing_event bad_message : Error

abbrev pub from_events : {A : Type 0} → Result Events.Error A → Result Error A
from_events (ok a) = ok a
from_events (err e) = err (event_error e)

-- `OutboxMessage`, with its default idempotency key filled in.
pub record OutboxMessage : Type 0 where
  pub destination : String
  pub payload : String
  pub headers : String
  pub message_id : String
  pub idempotency_key : String
  pub available_at : String
  pub created_at : String

-- `OutboxMessage.__post_init__`; `blank` is Python's `not text.strip()`, and `timestamp` tells RFC 3339
-- texts with a time zone.
unfoldable pub post_init :
    (String → Bool) → (String → Bool) → Option String → OutboxMessage → Result Error OutboxMessage
post_init blank timestamp key m = do
  guard (not (blank m.destination) && not (blank m.message_id)) bad_message
  guard (elim key [ none ↦ true | some k ↦ not (blank k) ]) bad_message
  guard (timestamp m.available_at && timestamp m.created_at) bad_message
  ok (record m { idempotency_key = elim key [ none ↦ m.message_id | some k ↦ k ] })

pub record InboxReceipt : Type 0 where
  pub consumer_id : String
  pub message_id : String
  pub received_at : String
  pub event_id : String
  pub event_global_position : ℕ
  pub result : String

-- A row of `snapshots`, under its stream.
pub record Snapshot : Type 0 where
  pub sequence : ℕ
  pub state : String
  pub updated_at : String

-- The tables of the database.
pub record Database : Type 0 where
  pub log : Log
  pub outbox : Outbox
  pub receipts : List InboxReceipt
  pub snapshots : Dict Snapshot

-- The row that the INSERT of `append_with_outbox` adds.
abbrev pub new_message : StoredEvent → OutboxMessage → OutboxRow
new_message stored m = record {
  message_id = m.message_id;
  destination = m.destination;
  payload = m.payload;
  headers = m.headers;
  idempotency_key = m.idempotency_key;
  triggering_event_id = stored.event.event_id;
  triggering_global_position = stored.global_position;
  status = pending;
  attempt_count = 0;
  available_at = m.available_at;
  created_at = m.created_at;
  lease_token = none;
  lease_expires_at = none;
  last_error = none;
  published_at = none;
}

-- The UNIQUE constraints of `outbox`.
abbrev pub row_clashes : OutboxMessage → OutboxRow → Bool
row_clashes m x =
    x.message_id == m.message_id
    || x.destination == m.destination && x.idempotency_key == m.idempotency_key

unfoldable pub insert_messages :
    StoredEvent → List OutboxMessage → List OutboxRow → Result Error (List OutboxRow)
insert_messages stored [] rows = ok rows
insert_messages stored (m ∷ ms) rows = guard (not (any (row_clashes m) rows)) constraint >>= λ _.
    insert_messages stored ms (rows ++ new_message stored m ∷ [])

-- The rows that an event caused.
abbrev pub caused_by : ℕ → List OutboxRow → List OutboxRow
caused_by position rows = select (λ x. eqb x.triggering_global_position position) rows

-- `requested == persisted`
abbrev pub same_messages : List OutboxMessage → List OutboxRow → Bool
same_messages [] [] = true
same_messages (m ∷ ms) (x ∷ xs) =
    m.message_id == x.message_id
    && (m.destination == x.destination
        && (m.idempotency_key == x.idempotency_key
            && (m.payload == x.payload && (m.headers == x.headers && same_messages ms xs))))
same_messages _ _ = false

-- `append_with_outbox` for an event whose key is stored, and for a new one: `_append_in_transaction`
-- inserts exactly if `existing` finds nothing.
abbrev pub with_outbox_retry :
    StoredEvent
    → List OutboxMessage
    → Database
    → Result Error ((StoredEvent × List OutboxRow) × Database)
with_outbox_retry stored batch db =
    let rows = caused_by stored.global_position db.outbox.messages in
    guard (same_messages batch rows) changed_messages >>= λ _. ok ((stored, rows), db)

abbrev pub with_outbox_new :
    DomainEvent
    → List OutboxMessage
    → Option ℕ
    → Database
    → Result Error ((StoredEvent × List OutboxRow) × Database)
with_outbox_new e batch expected_version db =
    from_events (append_new e expected_version none db.log) >>= λ appended.
    insert_messages appended.0 batch db.outbox.messages >>= λ rows. ok (
      (appended.0, caused_by appended.0.global_position rows),
      record db { log = appended.1; outbox = record db.outbox { messages = rows } },
    )

unfoldable pub append_with_outbox :
    DomainEvent
    → List OutboxMessage
    → Option ℕ
    → Database
    → Result Error (StoredEvent × List OutboxRow) × Database
append_with_outbox e batch expected_version db = transact db (elim (existing e db.log) [
  | some old ↦ with_outbox_retry old batch db
  | none ↦ with_outbox_new e batch expected_version db
])
