-- ===== src/Outbox/Lease.antt =====
-- src/quantum_entanglement/store.py: `claim_outbox`, `acknowledge_outbox` and `reject_outbox`.
use Prim.Native.String.{◌++◌ as ◌<>◌}
use quantum_entanglement.Prelude.{
  ℕ, ◌+◌, String, Bool, false, ◌&&◌, ◌||◌, not, List, [], ◌∷◌, ◌==◌, Option, none, some, find,
  select, take, eqb, leb, Result, ok, guard, or_raise, ◌>>=◌, transact,
}
use quantum_entanglement.Prelude.Text.{opt_eq}
use quantum_entanglement.Prelude.Table.{update_where, count_where}
use quantum_entanglement.Outbox.{
  OutboxRow, Outbox, Error, disappeared, bad_limit, is_in_flight, is_waiting, is_quarantined,
  not_after, after, or_else, lease_row, publish_row, return_row,
}

-- The lease of each selected row, drawn from the list of new ids.
unfoldable pub lease_rows :
    String
    → (ℕ → String)
    → String
    → List OutboxRow
    → ℕ
    → List OutboxRow
    → Result Error (List OutboxRow × List OutboxRow)
lease_rows worker_id lease_id deadline [] n table = ok ([], table)
lease_rows worker_id lease_id deadline (x ∷ xs) n table =
    let token = worker_id <> ":" <> lease_id n in
    let table' =
      update_where (λ y. y.message_id == x.message_id) (lease_row token deadline) table in
    or_raise (find (λ y. y.message_id == x.message_id) table') disappeared >>= λ updated.
    lease_rows worker_id lease_id deadline xs (n + 1) table' >>= λ rest.
    ok (updated ∷ rest.0, rest.1)

module _ (julianday : String → Option ℕ) where
  -- The WHERE clause of `claim_outbox`.
  abbrev pub is_deliverable : String → Outbox → OutboxRow → Bool
  is_deliverable now db x =
      (is_waiting x.status && not_after (julianday x.available_at) (julianday now)
        || is_in_flight x.status && elim x.lease_expires_at [
          | none ↦ false
          | some e ↦ not_after (julianday e) (julianday now)
        ])
      && not (is_quarantined x.message_id db)

  -- `claim_outbox`
  unfoldable pub claim_outbox :
      String → ℕ → String → String → (ℕ → String) → Outbox → Result Error (List OutboxRow) × Outbox
  claim_outbox worker_id limit now deadline lease_id db = transact db (
      guard (leb 1 limit) bad_limit >>= λ _.
      lease_rows worker_id lease_id deadline
        (take limit (select (is_deliverable now db) db.messages)) 0 db.messages
      >>= λ out. ok (out.0, record db { messages = out.1 }))

  -- The WHERE clause of the compare-and-set in `acknowledge_outbox` and `reject_outbox`.
  abbrev pub is_held : String → String → String → Outbox → OutboxRow → Bool
  is_held k token now db x =
      x.message_id == k
      && (is_in_flight x.status
          && (opt_eq x.lease_token (some token)
              && (elim x.lease_expires_at [
                | none ↦ false
                | some e ↦ after (julianday e) (julianday now)
              ]
                  && not (is_quarantined x.message_id db))))

  -- `acknowledge_outbox`
  unfoldable pub acknowledge_outbox :
      String → String → Option String → String → Outbox → Bool × Outbox
  acknowledge_outbox k token published_at now db =
      let at = or_else published_at now in
      (
        eqb (count_where (is_held k token now db) db.messages) 1,
        record db { messages = update_where (is_held k token now db) (publish_row at) db.messages },
      )

  -- `reject_outbox`
  unfoldable pub reject_outbox :
      String → String → String → Option String → Bool → String → Outbox → Bool × Outbox
  reject_outbox k token error retry_at dead now db =
      let at = or_else retry_at now in
      (
        eqb (count_where (is_held k token now db) db.messages) 1,
        record db {
          messages = update_where (is_held k token now db) (return_row dead at error) db.messages;
        },
      )
