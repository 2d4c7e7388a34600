-- ===== src/Delivery/Quarantine.antt =====
-- A quarantined message over sequences of the event store's calls (src/quantum_entanglement/store.py).
use quantum_entanglement.Prelude.{ℕ, String, true, List, [], ◌∷◌, Option, some, All, ◌≡◌, ◌≢◌, refl}
use quantum_entanglement.Prelude.Moves.{Unique, Stored-Grows}
use quantum_entanglement.Prelude.Keys.{Stored-found, found-Stored}
use quantum_entanglement.Events.{DomainEvent}
use quantum_entanglement.Outbox.{OutboxRow, Outbox, is_quarantined, get_outbox}
use quantum_entanglement.Outbox.Life.{id_of, IsFresh}
use quantum_entanglement.Outbox.Calls.{mark_outbox_ambiguous-Marks}
use quantum_entanglement.Outbox.Quarantine.{
  Waits, claim_outbox-Waits, acknowledge_outbox-Waits, reject_outbox-Waits,
  resolve_outbox_ambiguity-Waits,
}
use quantum_entanglement.Delivery.{OutboxMessage, Database, append_with_outbox}
use quantum_entanglement.Delivery.Added.{
  append_with_outbox-Added, append_inbox-outbox, save_snapshot-outbox,
}
use quantum_entanglement.Delivery.Run.{
  Call, appended, appended_many, with_outbox, inbox, snapshot, claimed, acknowledged, rejected,
  marked, resolved, Platform, apply, run,
}

-- The call does not answer for the message.
abbrev pub LeavesTo : String → Call → Type 0
LeavesTo k (resolved j d resolution at retry_at) = k ≢ j
LeavesTo k _ = Unit

same_box :
    (k : String) (row : OutboxRow) (box out : Outbox)
    → out ≡ box
    → Waits k row box
    → Waits k row out
same_box k row box out same w = rw same w

append_with_outbox-Waits :
    (e : DomainEvent) (batch : List OutboxMessage) (v : Option ℕ) (k : String) (row : OutboxRow)
    (db : Database)
    → Waits k row db.outbox
    → Waits k row (append_with_outbox e batch v db).1.outbox
append_with_outbox-Waits e batch v k row db w =
    let added = append_with_outbox-Added (λ x y. x ≡ y) e batch v db in
    record {
      quarantined = rw (← added.1) w.quarantined;
      stored =
          Stored-Grows id_of (λ x y. x ≡ y) IsFresh (λ x y same. rw same refl) (λ x. x ≡ row) k
            (λ x y same is_row. rw (← same) is_row) added.0 w.stored;
    }

module _ (p : Platform) where
  apply-Waits :
      (c : Call) (k : String) (row : OutboxRow) (db : Database)
      → LeavesTo k c
      → Waits k row db.outbox
      → Waits k row (apply p c db).outbox
  unfolding apply
  apply-Waits (appended e v position) k row db other w = w
  apply-Waits (appended_many s es v) k row db other w = w
  apply-Waits (with_outbox e batch v) k row db other w =
      append_with_outbox-Waits e batch v k row db w
  apply-Waits (inbox consumer message e result at v) k row db other w =
      same_box k row db.outbox _ (append_inbox-outbox consumer message e result at v db) w
  apply-Waits (snapshot s n state at) k row db other w =
      same_box k row db.outbox _ (save_snapshot-outbox s n state at db) w
  apply-Waits (claimed worker limit now deadline ids) k row db other w =
      claim_outbox-Waits p.julianday worker limit now deadline ids k row db.outbox w
  apply-Waits (acknowledged j token at now) k row db other w =
      acknowledge_outbox-Waits p.julianday j token at now k row db.outbox w
  apply-Waits (rejected j token error at dead now) k row db other w =
      reject_outbox-Waits p.julianday j token error at dead now k row db.outbox w
  apply-Waits (marked j token reason at) k row db other w =
      let marks = mark_outbox_ambiguous-Marks p.digest j token reason at db.outbox in
      record { quarantined = marks.1 k w.quarantined; stored = rw (← marks.0) w.stored }
  apply-Waits (resolved j d resolution at retry_at) k row db other w =
      resolve_outbox_ambiguity-Waits p.digest p.is_sha256 j d resolution at retry_at k row db.outbox
        other w

  run-Waits :
      (cs : List Call) (k : String) (row : OutboxRow) (db : Database)
      → All (LeavesTo k) cs
      → Waits k row db.outbox
      → Waits k row (run p cs db).outbox
  unfolding run
  run-Waits [] k row db others w = w
  run-Waits (c ∷ cs) k row db others w =
      run-Waits cs k row (apply p c db) others.1 (apply-Waits c k row db others.0 w)

  -- A message with an ambiguity that no operator has answered is out of every caller's reach: whatever
  -- calls reach the database, none of them an operator's answer for this message, its row stays as it is,
  -- and it still waits for the operator. The outbox stores no message twice.
  pub quarantined_until_resolved :
      (cs : List Call) (k : String) (row : OutboxRow) (db : Database)
      → Unique id_of db.outbox.messages
      → get_outbox k db.outbox ≡ some row
      → is_quarantined k db.outbox ≡ true
      → All (LeavesTo k) cs
      → let after = (run p cs db).outbox in
        (get_outbox k after ≡ some row) × (is_quarantined k after ≡ true)
  quarantined_until_resolved cs k row db unique found waits others =
      let w = run-Waits cs k row db others record {
        quarantined = waits;
        stored = Stored-found id_of k row db.outbox.messages unique found;
      } in
      (found-Stored id_of k row (run p cs db).outbox.messages w.stored, w.quarantined)
