-- ===== src/Tests/Delivery.antt =====
-- The theorems on the outbox, inbox and snapshots (src/quantum_entanglement/store.py) at concrete calls.
use quantum_entanglement.Prelude.{
  ℕ, String, true, false, List, [], ◌∷◌, ◌==◌, Option, none, some, ok, if◌then◌else◌, Gives, ◌≡◌,
  ◌≢◌, refl, arith, eq_iff,
}
use quantum_entanglement.Prelude.Moves.{Unique, named}
use quantum_entanglement.Events.{
  DomainEvent, stored_as, existing, append_new, append_in_transaction, insert_event, stream_version,
  last_position,
}
use quantum_entanglement.Events.Laws.{IsGapless}
use quantum_entanglement.Outbox.{
  OutboxRow, get_outbox, is_quarantined, as_retry, publish_row, lease_row,
}
use quantum_entanglement.Outbox.Life.{id_of, Lives}
use quantum_entanglement.Outbox.Lease.{claim_outbox, acknowledge_outbox, reject_outbox, lease_rows}
use quantum_entanglement.Outbox.Resolve.{mark_outbox_ambiguous, insert_ambiguity}
use quantum_entanglement.Delivery.{
  OutboxMessage, Database, append_with_outbox, insert_messages, new_message,
}
use quantum_entanglement.Delivery.Inbox.{InboxAppendResult, append_inbox, receipt_of}
use quantum_entanglement.Delivery.Snapshots.{save_snapshot, load_snapshot}
use quantum_entanglement.Delivery.Run.{
  Call, with_outbox, inbox, snapshot, claimed, acknowledged, rejected, marked, resolved, Platform,
  apply, run,
}
use quantum_entanglement.Delivery.Rows.{run-Kept, settled_forever, published_once}
use quantum_entanglement.Delivery.Retry.{outbox_retry}
use quantum_entanglement.Delivery.Quarantine.{quarantined_until_resolved}
use quantum_entanglement.Delivery.Once.{whole_run-IsGapless, inbox_once}
use quantum_entanglement.Delivery.Latest.{Reaches, load-save, snapshot_never_goes_back}

-- Instants as texts of one digit.
abbrev pub julianday : String → Option ℕ
julianday t =
    if t == "1" then some 1 else if t == "2" then some 2 else if t == "9" then some 9 else none

abbrev platform : Platform
platform = record { julianday = julianday; digest = λ token. token; is_sha256 = λ d. true }

abbrev pub event : DomainEvent
event = record {
  stream_id = "session:1";
  event_type = "task.ready";
  payload = "{}";
  actor_id = "scheduler";
  event_id = "e1";
  timestamp = "1";
  correlation_id = none;
  causation_id = none;
  idempotency_key = some "k";
}

abbrev pub message : OutboxMessage
message = record {
  destination = "webhook";
  payload = "{}";
  headers = "{}";
  message_id = "m1";
  idempotency_key = "m1";
  available_at = "1";
  created_at = "1";
}

abbrev pub empty : Database
empty = record {
  log = [];
  outbox = record { messages = []; ambiguities = [] };
  receipts = [];
  snapshots = [];
}

-- The message waits; a publisher holds it under the token "p:a".
abbrev pub waiting : OutboxRow
waiting = new_message (stored_as event 1 []) message

abbrev pub held : OutboxRow
held = lease_row "p:a" "9" waiting

abbrev pub db : OutboxRow → Database
db row = record {
  log = stored_as event 1 [] ∷ [];
  outbox = record { messages = row ∷ []; ambiguities = [] };
  receipts = [];
  snapshots = [];
}

abbrev pub claim : Call
claim = claimed "p" 10 "2" "9" (λ n. "a")

one_message-Unique : (row : OutboxRow) → Unique id_of (db row).outbox.messages
one_message-Unique row = (refl, tt)

with_outbox_stores :
    append_with_outbox event (message ∷ []) (some 0) empty
    ≡ (ok (stored_as event 1 [], waiting ∷ []), db waiting)
unfolding append_with_outbox insert_messages append_new insert_event existing stream_version
    last_position
with_outbox_stores = refl

claims : apply platform claim (db waiting) ≡ db held
unfolding apply claim_outbox lease_rows
claims = refl

run-Kept_example :
    Lives []
      (run platform (with_outbox event (message ∷ []) none ∷ claim ∷ []) empty).outbox.messages
    × Unique id_of
        (run platform (with_outbox event (message ∷ []) none ∷ claim ∷ []) empty).outbox.messages
run-Kept_example = run-Kept platform (with_outbox event (message ∷ []) none ∷ claim ∷ []) empty tt

settled_forever_example :
    get_outbox "m1"
      (run platform
        (claim ∷ rejected "m1" "p:a" "late" none true "2" ∷ [])
        (db (publish_row "2" held))).outbox
    ≡ some (publish_row "2" held)
settled_forever_example =
    settled_forever platform (claim ∷ rejected "m1" "p:a" "late" none true "2" ∷ []) "m1"
      (publish_row "2" held) (db (publish_row "2" held)) (one_message-Unique (publish_row "2" held))
      refl refl

acknowledges : (acknowledge_outbox julianday "m1" "p:a" none "2" (db held).outbox).0 ≡ true
unfolding acknowledge_outbox
acknowledges = refl

published_once_example :
    let after =
      (run platform
        (claim ∷ [])
        (apply platform (acknowledged "m1" "p:a" none "2") (db held))).outbox in
    ((acknowledge_outbox julianday "m1" "p:a" none "2" after).0 ≡ false)
    × (((reject_outbox julianday "m1" "p:a" "late" none true "2" after).0 ≡ false)
        × Gives
            (λ (rows : List OutboxRow). named id_of "m1" rows ≡ false)
            (claim_outbox julianday "q" 5 "2" "9" (λ n. "b") after).0)
published_once_example =
    published_once platform (claim ∷ []) "m1" "p:a" "2" none (db held) "p:a" "late" "2" "9" "q" none
      true 5 (λ n. "b") (one_message-Unique held) acknowledges

-- The publisher does not know whether the message was delivered.
abbrev doubtful : Database
doubtful = apply platform (marked "m1" "p:a" "ack_failed" "2") (db held)

marks : (doubtful.outbox.messages ≡ held ∷ []) × (is_quarantined "m1" doubtful.outbox ≡ true)
unfolding apply mark_outbox_ambiguous insert_ambiguity
marks = (refl, refl)

doubtful-Unique : Unique id_of doubtful.outbox.messages
unfolding apply mark_outbox_ambiguous insert_ambiguity
doubtful-Unique = (refl, tt)

doubtful_found : get_outbox "m1" doubtful.outbox ≡ some held
unfolding apply mark_outbox_ambiguous insert_ambiguity
doubtful_found = refl

other_message : ◌≢◌ {A = String} "m1" "m2"
other_message e = absurd (ground (arith, eq_iff "m1" "m2"))

quarantined_until_resolved_example :
    let after =
      (run platform
        (acknowledged "m1" "p:a" none "2" ∷ resolved "m2" "p:b" as_retry "2" none ∷ claim ∷ [])
        doubtful).outbox in
    (get_outbox "m1" after ≡ some held) × (is_quarantined "m1" after ≡ true)
quarantined_until_resolved_example =
    quarantined_until_resolved platform
      (acknowledged "m1" "p:a" none "2" ∷ resolved "m2" "p:b" as_retry "2" none ∷ claim ∷ []) "m1"
      held doubtful doubtful-Unique doubtful_found marks.1 (tt, (other_message, (tt, tt)))

whole_run-IsGapless_example :
    IsGapless
      (run platform
        (with_outbox event (message ∷ []) none ∷ inbox "agent" "m1" event "ok" "2" none ∷ [])
        empty).log
whole_run-IsGapless_example =
    whole_run-IsGapless platform
      (with_outbox event (message ∷ []) none ∷ inbox "agent" "m1" event "ok" "2" none ∷ []) empty tt

abbrev received : InboxAppendResult
received = record {
  event = stored_as event 1 [];
  receipt = receipt_of "agent" "m1" "2" "ok" (stored_as event 1 []);
  duplicate = false;
}

abbrev after_inbox : Database
after_inbox = (append_inbox "agent" "m1" event "ok" "2" none (db waiting)).1

receives : append_inbox "agent" "m1" event "ok" "2" none (db waiting) ≡ (ok received, after_inbox)
unfolding append_inbox append_in_transaction existing
receives = refl

inbox_once_example :
    append_inbox "agent" "m1"
      (record event { event_id = "e2" })
      "failed"
      "9"
      (some 7)
      (run platform (claim ∷ []) after_inbox)
    ≡ (
      ok (record { event = received.event; receipt = received.receipt; duplicate = true }),
      run platform (claim ∷ []) after_inbox,
    )
unfolding last_position
inbox_once_example =
    inbox_once platform (claim ∷ []) "agent" "m1" event (record event { event_id = "e2" }) "ok" "2"
      "failed" "9" none (some 7) (db waiting) after_inbox received (refl, (refl, tt)) receives

load-save_example : load_snapshot "s" (save_snapshot "s" 3 "{}" "1" empty) ≡ some (3, "{}")
unfolding load_snapshot
load-save_example = load-save "s" 3 "{}" "1" "s" empty

snapshot_never_goes_back_example :
    Reaches "s" 3
      (run platform (snapshot "s" 2 "old" "2" ∷ []) (save_snapshot "s" 3 "{}" "1" empty))
snapshot_never_goes_back_example =
    snapshot_never_goes_back platform (snapshot "s" 2 "old" "2" ∷ []) "s" 3 "{}" "1" empty

fresh_key : existing event empty.log ≡ none
unfolding existing
fresh_key = refl

outbox_retry_example :
    append_with_outbox (record event { event_id = "e9" }) (message ∷ []) none (db waiting)
    ≡ (ok (stored_as event 1 [], waiting ∷ []), db waiting)
outbox_retry_example =
    outbox_retry event (record event { event_id = "e9" }) (message ∷ []) (some 0) none "k" empty
      (db waiting) (stored_as event 1 []) (waiting ∷ []) refl refl refl fresh_key tt
      with_outbox_stores
