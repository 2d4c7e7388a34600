-- ===== src/Delivery/Added.antt =====
-- What the calls that write several tables (src/quantum_entanglement/store.py) do to the outbox.
use quantum_entanglement.Prelude.{
  ℕ, String, false, not, List, [], ◌∷◌, ◌++◌, Option, any, guard, Gives, Gives-bind, Gives-ok, ◌≡◌,
  refl, arith,
}
use quantum_entanglement.Prelude.Moves.{Grows, done, add, named}
use quantum_entanglement.Events.{DomainEvent, StoredEvent}
use quantum_entanglement.Outbox.{OutboxRow}
use quantum_entanglement.Outbox.Life.{id_of, IsFresh}
use quantum_entanglement.Delivery.{
  constraint, OutboxMessage, Database, new_message, row_clashes, insert_messages,
  append_with_outbox,
}
use quantum_entanglement.Delivery.Inbox.{append_inbox}
use quantum_entanglement.Delivery.Snapshots.{save_snapshot}
use quantum_entanglement.Delivery.Writes.{
  append_with_outbox_lem, append_inbox_keeps, save_snapshot_lem,
}

no_clash-named :
    (m : OutboxMessage) (rows : List OutboxRow)
    → any (row_clashes m) rows ≡ false
    → named id_of m.message_id rows ≡ false
no_clash-named m [] h = refl
no_clash-named m (x ∷ xs) h = ground (arith, no_clash-named m xs)

insert_messages-Grows :
    (R : OutboxRow → OutboxRow → Type 0) (stored : StoredEvent) (ms : List OutboxMessage)
    (rows : List OutboxRow)
    → Gives
        (λ (out : List OutboxRow). Grows id_of R IsFresh rows out)
        (insert_messages stored ms rows)
unfolding insert_messages
insert_messages-Grows R stored [] rows = Gives-ok _ rows done
insert_messages-Grows R stored (m ∷ ms) rows =
    Gives-bind _ (guard (not (any (row_clashes m) rows)) constraint) _ λ u free out rest.
      add (new_message stored m) (no_clash-named m rows (ground (arith, free))) (refl, refl)
        (insert_messages-Grows R stored ms (rows ++ new_message stored m ∷ []) out rest)

-- New rows, whatever moves the other calls make, and the ambiguities as they were.
abbrev pub Added : (OutboxRow → OutboxRow → Type 0) → Database → Database → Type 0
Added R db out =
    Grows id_of R IsFresh db.outbox.messages out.outbox.messages
    × (db.outbox.ambiguities ≡ out.outbox.ambiguities)

pub append_with_outbox-Added :
    (R : OutboxRow → OutboxRow → Type 0) (e : DomainEvent) (batch : List OutboxMessage)
    (v : Option ℕ) (db : Database)
    → Added R db (append_with_outbox e batch v db).1
append_with_outbox-Added R e batch v db =
    append_with_outbox_lem (Added R db) e batch v db (done, refl)
      λ appended rows _ inserted.
        (insert_messages-Grows R appended.0 batch db.outbox.messages rows inserted, refl)

pub append_inbox-outbox :
    (consumer message : String) (e : DomainEvent) (result at : String) (v : Option ℕ)
    (db : Database)
    → (append_inbox consumer message e result at v db).1.outbox ≡ db.outbox
append_inbox-outbox consumer message e result at v db =
    append_inbox_keeps (λ out. out.outbox ≡ db.outbox) consumer message e result at v db refl
      (λ appended _. refl)

pub save_snapshot-outbox :
    (s : String) (n : ℕ) (state at : String) (db : Database)
    → (save_snapshot s n state at db).outbox ≡ db.outbox
save_snapshot-outbox s n state at db =
    save_snapshot_lem (λ out. out.outbox ≡ db.outbox) s n state at db refl (λ _. refl)
