-- ===== src/Delivery/Rows.antt =====
-- The outbox rows over sequences of the event store's calls (src/quantum_entanglement/store.py).
use quantum_entanglement.Prelude.{
  ℕ, String, Bool, true, false, List, [], ◌∷◌, Option, some, Gives, ◌≡◌, arith,
}
use quantum_entanglement.Prelude.Moves.{
  done, named, Unique, Grows-trans, Unique-Grows, Stored-Grows,
}
use quantum_entanglement.Prelude.Keys.{Stored-found, found-Stored}
use quantum_entanglement.Outbox.{OutboxRow, Outbox, get_outbox}
use quantum_entanglement.Outbox.Life.{RowMove, lease, settle, id_of, IsFresh, is_unsettled, Lives}
use quantum_entanglement.Outbox.Calls.{
  claim_outbox-Lives, acknowledge_outbox-Lives, reject_outbox-Lives, mark_outbox_ambiguous-Marks,
  resolve_outbox_ambiguity-Lives,
}
use quantum_entanglement.Outbox.Lease.{claim_outbox, acknowledge_outbox, reject_outbox}
use quantum_entanglement.Outbox.Settled.{
  Settled, acknowledge_outbox-Settled, Settled-acknowledge_outbox, Settled-reject_outbox,
  Settled-claim_outbox,
}
use quantum_entanglement.Delivery.{Database}
use quantum_entanglement.Delivery.Run.{
  Call, appended, appended_many, with_outbox, inbox, snapshot, claimed, acknowledged, rejected,
  marked, resolved, Platform, apply, run,
}
use quantum_entanglement.Delivery.Added.{
  append_with_outbox-Added, append_inbox-outbox, save_snapshot-outbox,
}

RowMove-id : (x y : OutboxRow) → RowMove x y → y.message_id ≡ x.message_id
RowMove-id x y (lease same _ _ _) = same.message_id
RowMove-id x y (settle same _ _ _ _) = same.message_id

RowMove-active : (x y : OutboxRow) → RowMove x y → ¬ (is_unsettled x.status ≡ false)
RowMove-active x y (lease _ active _ _) h = ground arith
RowMove-active x y (settle _ held _ _ _) h = ground arith

abbrev Kept : Database → Database → Type 0
Kept db out = Lives db.outbox.messages out.outbox.messages

same_outbox :
    (db : Database) (box : Outbox) → box ≡ db.outbox → Lives db.outbox.messages box.messages
same_outbox db box same = rw same done

module _ (p : Platform) where
  apply-Kept : (c : Call) (db : Database) → Unique id_of db.outbox.messages → Kept db (apply p c db)
  unfolding apply
  apply-Kept (appended e v position) db u = done
  apply-Kept (appended_many s es v) db u = done
  apply-Kept (with_outbox e batch v) db u = (append_with_outbox-Added RowMove e batch v db).0
  apply-Kept (inbox consumer message e result at v) db u =
      same_outbox db _ (append_inbox-outbox consumer message e result at v db)
  apply-Kept (snapshot s n state at) db u = same_outbox db _ (save_snapshot-outbox s n state at db)
  apply-Kept (claimed worker limit now deadline ids) db u =
      claim_outbox-Lives p.julianday worker limit now deadline ids db.outbox u
  apply-Kept (acknowledged k token at now) db u =
      acknowledge_outbox-Lives p.julianday k token at now db.outbox
  apply-Kept (rejected k token error at dead now) db u =
      reject_outbox-Lives p.julianday k token error at dead now db.outbox
  apply-Kept (marked k token reason at) db u =
      rw (← (mark_outbox_ambiguous-Marks p.digest k token reason at db.outbox).0) done
  apply-Kept (resolved k d resolution at retry_at) db u =
      resolve_outbox_ambiguity-Lives p.digest p.is_sha256 k d resolution at retry_at db.outbox

  -- Whatever calls reach the database, the outbox rows only move as the life of a message allows: they
  -- are leased, one more attempt each time, and settled by the call that ends the lease; a new message
  -- waits at the end of the table, and no message is removed, changed in content, or stored twice.
  pub run-Kept :
      (cs : List Call) (db : Database)
      → Unique id_of db.outbox.messages
      → Kept db (run p cs db) × Unique id_of (run p cs db).outbox.messages
  unfolding run
  run-Kept [] db u = (done, u)
  run-Kept (c ∷ cs) db u =
      let first = apply-Kept c db u in
      let next = Unique-Grows id_of RowMove IsFresh RowMove-id first u in
      let rest = run-Kept cs (apply p c db) next in
      (Grows-trans id_of RowMove IsFresh first rest.0, rest.1)

  -- A message that was published, or given up, is final: whatever calls reach the database, its row
  -- stays as it is. The outbox stores no message twice.
  pub settled_forever :
      (cs : List Call) (k : String) (row : OutboxRow) (db : Database)
      → Unique id_of db.outbox.messages
      → get_outbox k db.outbox ≡ some row
      → is_unsettled row.status ≡ false
      → get_outbox k (run p cs db).outbox ≡ some row
  settled_forever cs k row db u found over =
      found-Stored id_of k row (run p cs db).outbox.messages (
        Stored-Grows id_of RowMove IsFresh RowMove-id (λ x. x ≡ row) k
          (λ x y m same. absurd (RowMove-active x y m (rw same over))) (run-Kept cs db u).0
          (Stored-found id_of k row db.outbox.messages u found))

  -- A message is published once: after an acknowledgement returned true, whatever calls reach the
  -- database, every acknowledgement and rejection of the message, with whatever token, returns false, and
  -- no claim returns it. The outbox stores no message twice.
  pub published_once :
      (cs : List Call) (k token now : String) (at : Option String) (db : Database)
      (token' error' now' deadline' worker' : String) (at' : Option String) (dead' : Bool)
      (limit' : ℕ) (ids' : ℕ → String)
      → Unique id_of db.outbox.messages
      → (acknowledge_outbox p.julianday k token at now db.outbox).0 ≡ true
      → let after = (run p cs (apply p (acknowledged k token at now) db)).outbox in
        ((acknowledge_outbox p.julianday k token' at' now' after).0 ≡ false)
        × (((reject_outbox p.julianday k token' error' at' dead' now' after).0 ≡ false)
            × Gives
                (λ (rows : List OutboxRow). named id_of k rows ≡ false)
                (claim_outbox p.julianday worker' limit' now' deadline' ids' after).0)
  unfolding apply acknowledge_outbox run
  published_once cs k token now at db token' error' now' deadline' worker' at' dead' limit' ids'
        unique acked =
      let first = apply p (acknowledged k token at now) db in
      let settled = acknowledge_outbox-Settled p.julianday k token at now db.outbox unique acked in
      let unique' = (run-Kept (acknowledged k token at now ∷ []) db unique).1 in
      let later : Settled k (run p cs first).outbox.messages =
        Stored-Grows id_of RowMove IsFresh RowMove-id (λ x. is_unsettled x.status ≡ false) k
          (λ x y m over. absurd (RowMove-active x y m over)) (run-Kept cs first unique').0
          settled in
      (
        Settled-acknowledge_outbox p.julianday k token' at' now' _ later,
        (
          Settled-reject_outbox p.julianday k token' error' at' dead' now' _ later,
          Settled-claim_outbox p.julianday worker' limit' now' deadline' ids' k _ later,
        ),
      )
