-- ===== src/Delivery/Retry.antt =====
-- The retry of an append with messages (src/quantum_entanglement/store.py, `append_with_outbox`).
use quantum_entanglement.Prelude.{
  ℕ, String, true, false, not, List, [], ◌∷◌, ◌++◌, map, Option, none, some, any, eqb, leb,
  eqb_refl, ok, guard, transact, transact-eq_ok, Gives, Gives-bind, Gives-ok, All, ◌≡◌, refl, sym,
  ap, ◌∙◌, arith, eq_refl, Bool-cases, inl, inr,
}
use quantum_entanglement.Events.{DomainEvent, StoredEvent, last_position, existing, append_new}
use quantum_entanglement.Events.Laws.{append_new_lem, existing-key, found_stored, new_row}
use quantum_entanglement.Outbox.{OutboxRow}
use quantum_entanglement.Delivery.{
  constraint, from_events, OutboxMessage, Database, new_message, row_clashes, insert_messages,
  caused_by, same_messages, with_outbox_new, append_with_outbox,
}
use quantum_entanglement.Delivery.Writes.{from_events-eq_ok}

-- Every message was caused by an event of the log.
abbrev pub Caused : Database → Type 0
Caused db =
    All (λ (x : OutboxRow). leb x.triggering_global_position (last_position db.log) ≡ true)
      db.outbox.messages

append-nil : {A : Type 0} (xs : List A) → xs ++ [] ≡ xs
append-nil [] = refl
append-nil (x ∷ xs) = ap (◌∷◌ x) (append-nil xs)

append-snoc : {A : Type 0} (xs : List A) (y : A) (ys : List A) → (xs ++ y ∷ []) ++ ys ≡ xs ++ y ∷ ys
append-snoc [] y ys = refl
append-snoc (x ∷ xs) y ys = ap (◌∷◌ x) (append-snoc xs y ys)

caused_by-snoc :
    (stored : StoredEvent) (m : OutboxMessage) (rows : List OutboxRow)
    → caused_by stored.global_position (rows ++ new_message stored m ∷ [])
      ≡ caused_by stored.global_position rows ++ new_message stored m ∷ []
caused_by-snoc stored m [] = rw (eqb_refl stored.global_position) refl
caused_by-snoc stored m (x ∷ xs) =
    elim (Bool-cases (eqb x.triggering_global_position stored.global_position)) [
      | inl same ↦ rw same (ap (◌∷◌ x) (caused_by-snoc stored m xs))
      | inr other ↦ rw other (caused_by-snoc stored m xs)
    ]

insert_messages_lem :
    (stored : StoredEvent) (ms : List OutboxMessage) (rows : List OutboxRow)
    → Gives
        (λ (out : List OutboxRow).
          caused_by stored.global_position out
          ≡ caused_by stored.global_position rows ++ map (new_message stored) ms)
        (insert_messages stored ms rows)
unfolding insert_messages
insert_messages_lem stored [] rows = Gives-ok _ rows (sym (append-nil _))
insert_messages_lem stored (m ∷ ms) rows =
    Gives-bind _ (guard (not (any (row_clashes m) rows)) constraint) _ λ _ _ out rest.
      insert_messages_lem stored ms (rows ++ new_message stored m ∷ []) out rest
      ∙ rw (caused_by-snoc stored m rows) (
          append-snoc (caused_by stored.global_position rows) (new_message stored m)
            (map (new_message stored) ms))

not_caused :
    (position : ℕ) (bound : ℕ) (rows : List OutboxRow)
    → leb position bound ≡ false
    → All (λ (x : OutboxRow). leb x.triggering_global_position bound ≡ true) rows
    → caused_by position rows ≡ []
not_caused position bound [] later h = refl
not_caused position bound (x ∷ xs) later h =
    ground (arith, not_caused position bound xs later, h.0, h.1)

same_messages-new :
    (stored : StoredEvent) (ms : List OutboxMessage)
    → same_messages ms (map (new_message stored) ms) ≡ true
same_messages-new stored [] = refl
same_messages-new stored (m ∷ ms) =
    rw
      (
        eq_refl m.message_id,
        eq_refl m.destination,
        eq_refl m.idempotency_key,
        eq_refl m.payload,
        eq_refl m.headers,
        same_messages-new stored ms,
      )
      refl

-- What an append of a new event with its messages wrote.
with_outbox_new_lem :
    (e : DomainEvent) (batch : List OutboxMessage) (v : Option ℕ) (db : Database)
    → Caused db
    → Gives
        (λ (out : (StoredEvent × List OutboxRow) × Database).
          (out.0.0 ≡ new_row e db.log)
          × (out.1.log ≡ new_row e db.log ∷ db.log)
          × (out.0.1 ≡ map (new_message out.0.0) batch)
          × (caused_by out.0.0.global_position out.1.outbox.messages
              ≡ map (new_message out.0.0) batch))
        (with_outbox_new e batch v db)
with_outbox_new_lem e batch v db caused =
    Gives-bind _ (from_events (append_new e v none db.log)) _ λ appended done.
      Gives-bind _ (insert_messages appended.0 batch db.outbox.messages) _ λ rows inserted.
        let facts = append_new_lem e v none db.log appended (from_events-eq_ok _ appended done) in
        let none_before : caused_by appended.0.global_position db.outbox.messages ≡ [] =
          not_caused appended.0.global_position (last_position db.log) db.outbox.messages
            (rw facts.1 (ground arith)) caused in
        let all_new : caused_by appended.0.global_position rows
            ≡ map (new_message appended.0) batch =
          insert_messages_lem appended.0 batch db.outbox.messages rows inserted
          ∙ rw none_before refl in
        Gives-ok _ _ (facts.1, facts.2, all_new, all_new)

-- An append with messages is idempotent: after the append of a new event with a key returned, every append
-- with that key on that stream and with the same messages returns the same event and rows, and
-- writes nothing. Every message was caused by a stored event.
pub outbox_retry :
    (e e' : DomainEvent) (batch : List OutboxMessage) (v v' : Option ℕ) (k : String)
    (db db' : Database) (stored : StoredEvent) (rows : List OutboxRow)
    → e.idempotency_key ≡ some k
    → e'.stream_id ≡ e.stream_id
    → e'.idempotency_key ≡ some k
    → existing e db.log ≡ none
    → Caused db
    → append_with_outbox e batch v db ≡ (ok (stored, rows), db')
    → append_with_outbox e' batch v' db' ≡ (ok (stored, rows), db')
unfolding append_with_outbox
outbox_retry e e' batch v v' k db db' stored rows key stream key' new caused done =
    let body : transact db (with_outbox_new e batch v db) ≡ (ok (stored, rows), db') =
      rw (new, append_with_outbox) at done in
    let facts =
      with_outbox_new_lem e batch v db caused ((stored, rows), db')
        (transact-eq_ok db (with_outbox_new e batch v db) (stored, rows) db' body) in
    let found : existing e' db'.log ≡ some stored =
      existing-key e' k db'.log key'
      ∙ (rw (stream, facts.1, facts.0) (found_stored e _ k db.log key)) in
    rw (found, append_with_outbox, facts.3, same_messages-new stored batch, facts.2) refl
