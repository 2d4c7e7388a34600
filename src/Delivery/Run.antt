-- ===== src/Delivery/Run.antt =====
-- The calls of the event store (src/quantum_entanglement/store.py) in any order, as they reach one database.
use quantum_entanglement.Prelude.{ℕ, String, Bool, Option, List, [], ◌∷◌}
use quantum_entanglement.Events.{DomainEvent, append, append_many}
use quantum_entanglement.Outbox.{Outbox, Resolution}
use quantum_entanglement.Outbox.Lease.{claim_outbox, acknowledge_outbox, reject_outbox}
use quantum_entanglement.Outbox.Resolve.{mark_outbox_ambiguous, resolve_outbox_ambiguity}
use quantum_entanglement.Delivery.{OutboxMessage, Database, append_with_outbox}
use quantum_entanglement.Delivery.Inbox.{append_inbox}
use quantum_entanglement.Delivery.Snapshots.{save_snapshot}

-- A call with its arguments, the instant that the store's clock showed, and the ids that it drew.
pub data Call : Type 0 where
  appended : DomainEvent → Option ℕ → Option ℕ → Call
  appended_many : String → List DomainEvent → Option ℕ → Call
  with_outbox : DomainEvent → List OutboxMessage → Option ℕ → Call
  inbox : String → String → DomainEvent → String → String → Option ℕ → Call
  snapshot : String → ℕ → String → String → Call
  claimed : String → ℕ → String → String → (ℕ → String) → Call
  acknowledged : String → String → Option String → String → Call
  rejected : String → String → String → Option String → Bool → String → Call
  marked : String → String → String → String → Call
  resolved : String → String → Resolution → String → Option String → Call

abbrev pub with_box : Database → Outbox → Database
with_box db box = record db { outbox = box }

-- The three functions from outside: SQLite's `julianday`, SHA-256, and the test of a digest's form.
pub record Platform : Type 0 where
  pub julianday : String → Option ℕ
  pub digest : String → String
  pub is_sha256 : String → Bool

module _ (p : Platform) where
  unfoldable pub apply : Call → Database → Database
  apply (appended e v position) db = record db { log = (append e v position db.log).1 }
  apply (appended_many s es v) db = record db { log = (append_many s es v db.log).1 }
  apply (with_outbox e batch v) db = (append_with_outbox e batch v db).1
  apply (inbox consumer message e result at v) db =
      (append_inbox consumer message e result at v db).1
  apply (snapshot s n state at) db = save_snapshot s n state at db
  apply (claimed worker limit now deadline ids) db =
      with_box db (claim_outbox p.julianday worker limit now deadline ids db.outbox).1
  apply (acknowledged k token at now) db =
      with_box db (acknowledge_outbox p.julianday k token at now db.outbox).1
  apply (rejected k token error at dead now) db =
      with_box db (reject_outbox p.julianday k token error at dead now db.outbox).1
  apply (marked k token reason at) db =
      with_box db (mark_outbox_ambiguous p.digest k token reason at db.outbox).1
  apply (resolved k d resolution at retry_at) db =
      with_box db
        (resolve_outbox_ambiguity p.digest p.is_sha256 k d resolution at retry_at db.outbox).1

  unfoldable pub run : List Call → Database → Database
  run [] db = db
  run (c ∷ cs) db = run cs (apply c db)
