-- ===== src/Delivery/Writes.antt =====
-- What each call that writes several tables (src/quantum_entanglement/store.py) can leave of the database.
use quantum_entanglement.Prelude.{
  ℕ, String, true, false, List, [], ◌∷◌, ◌++◌, Option, none, some, find, leb, Result, ok, err,
  guard, or_raise, transact-keeps, Gives, Gives-bind, Gives-ok, or_raise-eq_ok, Option-cases,
  Bool-cases, ◌≡◌, refl, arith, inl, inr,
}
use quantum_entanglement.Prelude.Text.{get, put}
use quantum_entanglement.Events
use quantum_entanglement.Events.{
  DomainEvent, StoredEvent, Log, existing, append_new, append_in_transaction,
}
use quantum_entanglement.Outbox.{OutboxRow}
use quantum_entanglement.Delivery.{
  changed_messages, missing_event, from_events, OutboxMessage, InboxReceipt, Snapshot, Database,
  insert_messages, caused_by, same_messages, with_outbox_retry, append_with_outbox,
}
use quantum_entanglement.Delivery.Inbox.{
  InboxAppendResult, append_inbox, event_at, receipt_of, is_receipt, inbox_retry, inbox_new,
}
use quantum_entanglement.Delivery.Snapshots.{save_snapshot}

pub from_events-eq_ok :
    {A : Type 0} (m : Result Events.Error A) (a : A) → from_events m ≡ ok a → m ≡ ok a
from_events-eq_ok (ok b) a h = let same : b ≡ a = ground arith in rw same refl
from_events-eq_ok (err e) a h = cc

with_outbox_retry_lem :
    (P : Database → Type 0) (stored : StoredEvent) (batch : List OutboxMessage) (db : Database)
    → P db
    → Gives
        (λ (out : (StoredEvent × List OutboxRow) × Database). P out.1)
        (with_outbox_retry stored batch db)
with_outbox_retry_lem P stored batch db same =
    Gives-bind _
      (guard (same_messages batch (caused_by stored.global_position db.outbox.messages))
        changed_messages)
      _ λ _ _. Gives-ok _ ((stored, caused_by stored.global_position db.outbox.messages), db) same

-- The append and the rows of `append_with_outbox` are written together, or neither.
pub append_with_outbox_lem :
    (P : Database → Type 0) (e : DomainEvent) (batch : List OutboxMessage) (v : Option ℕ)
    (db : Database)
    → P db
    → ((appended : StoredEvent × Log) (rows : List OutboxRow)
        → append_new e v none db.log ≡ ok appended
        → insert_messages appended.0 batch db.outbox.messages ≡ ok rows
        → P (record db { log = appended.1; outbox = record db.outbox { messages = rows } }))
    → P (append_with_outbox e batch v db).1
unfolding append_with_outbox
append_with_outbox_lem P e batch v db same written = elim (Option-cases (existing e db.log)) [
  | inl new ↦ rw new (
      transact-keeps P db _ same (
        Gives-bind _ (from_events (append_new e v none db.log)) _ λ appended done.
          Gives-bind _ (insert_messages appended.0 batch db.outbox.messages) _ λ rows inserted.
            Gives-ok _ _ (written appended rows (from_events-eq_ok _ appended done) inserted)))
  | inr (old, found) ↦
      rw found (transact-keeps P db _ same (with_outbox_retry_lem P old batch db same))
]

abbrev pub with_receipt :
    String → String → String → String → StoredEvent × Log → Database → Database
with_receipt consumer message at result appended db = record db {
  log = appended.1;
  receipts = db.receipts ++ receipt_of consumer message at result appended.0 ∷ [];
}

-- What `append_inbox` returned and left: the stored receipt, or a new one.
pub append_inbox_lem :
    (P : InboxAppendResult × Database → Type 0) (consumer message : String) (e : DomainEvent)
    (result at : String) (v : Option ℕ) (db : Database)
    → ((r : InboxReceipt) (stored : StoredEvent)
        → find (is_receipt consumer message) db.receipts ≡ some r
        → event_at r.event_global_position db.log ≡ some stored
        → P (record { event = stored; receipt = r; duplicate = true }, db))
    → ((appended : StoredEvent × Log)
        → find (is_receipt consumer message) db.receipts ≡ none
        → append_in_transaction e v none db.log ≡ ok appended
        → P (
          record {
            event = appended.0;
            receipt = receipt_of consumer message at result appended.0;
            duplicate = false;
          },
          with_receipt consumer message at result appended db,
        ))
    → Gives P (elim (find (is_receipt consumer message) db.receipts) [
      | some r ↦ inbox_retry r db
      | none ↦ inbox_new consumer message e result at v db
    ])
append_inbox_lem P consumer message e result at v db old new =
    elim (Option-cases (find (is_receipt consumer message) db.receipts)) [
      | inl fresh ↦ rw fresh (
          Gives-bind P (from_events (append_in_transaction e v none db.log)) _
            λ appended done. Gives-ok P _ (new appended fresh (from_events-eq_ok _ appended done)))
      | inr (r, found) ↦ rw found (
          Gives-bind P (or_raise (event_at r.event_global_position db.log) missing_event) _
            λ stored there.
              Gives-ok P (record { event = stored; receipt = r; duplicate = true }, db)
                (old r stored found (or_raise-eq_ok _ missing_event stored there)))
    ]

pub append_inbox_keeps :
    (P : Database → Type 0) (consumer message : String) (e : DomainEvent) (result at : String)
    (v : Option ℕ) (db : Database)
    → P db
    → ((appended : StoredEvent × Log)
        → append_in_transaction e v none db.log ≡ ok appended
        → P (with_receipt consumer message at result appended db))
    → P (append_inbox consumer message e result at v db).1
unfolding append_inbox
append_inbox_keeps P consumer message e result at v db same written = transact-keeps P db _ same (
    append_inbox_lem (λ out. P out.1) consumer message e result at v db (λ r stored _ _. same)
      (λ appended _ done. written appended done))

pub save_snapshot_lem :
    (P : Database → Type 0) (s : String) (n : ℕ) (state at : String) (db : Database)
    → P db
    → (((old : Snapshot) → get s db.snapshots ≡ some old → leb old.sequence n ≡ true)
        → P (record db {
          snapshots = put s (record { sequence = n; state = state; updated_at = at }) db.snapshots;
        }))
    → P (save_snapshot s n state at db)
unfolding save_snapshot
save_snapshot_lem P s n state at db same written = elim (Option-cases (get s db.snapshots)) [
  | inl new ↦ rw (new, save_snapshot) (written (λ old found. absurd (ground (arith, new))))
  | inr (old, found) ↦ elim (Bool-cases (leb old.sequence n)) [
    | inl later ↦
        rw (found, later, save_snapshot)
          (written (λ old' found'.
            let one : old ≡ old' = ground (arith, found, found') in rw one at later))
    | inr earlier ↦ rw (found, earlier, save_snapshot) same
  ]
]
