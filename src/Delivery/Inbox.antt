-- ===== src/Delivery/Inbox.antt =====
-- src/quantum_entanglement/store.py: `append_inbox` and `get_inbox_receipt`.
use quantum_entanglement.Prelude.{
  ℕ, String, Bool, true, false, ◌&&◌, [], ◌∷◌, ◌++◌, ◌==◌, Option, none, some, find, eqb, Result,
  ok, or_raise, ◌>>=◌, transact,
}
use quantum_entanglement.Events.{DomainEvent, StoredEvent, Log, append_in_transaction}
use quantum_entanglement.Delivery.{Error, missing_event, from_events, InboxReceipt, Database}

-- `InboxAppendResult`
pub record InboxAppendResult : Type 0 where
  pub event : StoredEvent
  pub receipt : InboxReceipt
  pub duplicate : Bool

abbrev pub is_receipt : String → String → InboxReceipt → Bool
is_receipt consumer_id message_id r = r.consumer_id == consumer_id && r.message_id == message_id

-- SELECT * FROM events WHERE global_position = ?
unfoldable pub event_at : ℕ → Log → Option StoredEvent
event_at position log = find (λ e. eqb e.global_position position) log

abbrev pub receipt_of : String → String → String → String → StoredEvent → InboxReceipt
receipt_of consumer_id message_id received_at result stored = record {
  consumer_id = consumer_id;
  message_id = message_id;
  received_at = received_at;
  event_id = stored.event.event_id;
  event_global_position = stored.global_position;
  result = result;
}

abbrev pub inbox_retry : InboxReceipt → Database → Result Error (InboxAppendResult × Database)
inbox_retry r db = or_raise (event_at r.event_global_position db.log) missing_event >>= λ e.
    ok (record { event = e; receipt = r; duplicate = true }, db)

abbrev pub inbox_new :
    String
    → String
    → DomainEvent
    → String
    → String
    → Option ℕ
    → Database
    → Result Error (InboxAppendResult × Database)
inbox_new consumer_id message_id e result received_at expected_version db =
    from_events (append_in_transaction e expected_version none db.log) >>= λ appended.
    let r = receipt_of consumer_id message_id received_at result appended.0 in
    ok (
      record { event = appended.0; receipt = r; duplicate = false },
      record db { log = appended.1; receipts = db.receipts ++ r ∷ [] },
    )

-- `append_inbox`
unfoldable pub append_inbox :
    String
    → String
    → DomainEvent
    → String
    → String
    → Option ℕ
    → Database
    → Result Error InboxAppendResult × Database
append_inbox consumer_id message_id e result received_at expected_version db =
    transact db (elim (find (is_receipt consumer_id message_id) db.receipts) [
      | some r ↦ inbox_retry r db
      | none ↦ inbox_new consumer_id message_id e result received_at expected_version db
    ])

-- `get_inbox_receipt`
unfoldable pub get_inbox_receipt : String → String → Database → Option InboxReceipt
get_inbox_receipt consumer_id message_id db = find (is_receipt consumer_id message_id) db.receipts
