-- ===== src/Outbox/Resolve.antt =====
-- src/quantum_entanglement/store.py: `mark_outbox_ambiguous` and `resolve_outbox_ambiguity`.
use quantum_entanglement.Prelude.{
  String, Bool, true, false, ◌&&◌, not, [], ◌∷◌, ◌++◌, ◌==◌, Option, none, some, any, if◌then◌else◌,
  leb, Result, ok, guard, or_raise, ◌>>=◌, transact,
}
use quantum_entanglement.Prelude.Text.{elem, opt_eq}
use quantum_entanglement.Prelude.Table.{update_where}
use quantum_entanglement.Outbox.{
  OutboxRow, OutboxAmbiguity, Outbox, Error, constraint, bad_reason, bad_digest, integrity,
  is_in_flight, is_null, is_quarantined, or_else, reasons, Resolution, as_published, as_retry,
  as_dead_letter, resolution_text, publish_row, return_row, get_outbox,
}

module _ (digest : String → String) where
  -- The INSERT of `mark_outbox_ambiguous`: nothing on a conflict of the primary key; the other
  -- constraints are the index that allows one open ambiguity for a message, and the positive count.
  unfoldable pub insert_ambiguity :
      String → String → String → String → OutboxRow → Outbox → Result Error (Bool × Outbox)
  insert_ambiguity k token reason at row db =
      if any (λ a. a.message_id == k && a.lease_token_digest == digest token) db.ambiguities
      then ok (true, db)
      else (guard (leb 1 row.attempt_count && not (is_quarantined k db)) constraint >>= λ _. ok (
        true,
        record db {
          ambiguities =
              db.ambiguities
              ++ record {
                message_id = k;
                lease_token_digest = digest token;
                reason_code = reason;
                attempt_count = row.attempt_count;
                marked_at = at;
                resolution = none;
                resolved_at = none;
              }
                ∷ [];
        },
      ))

  -- `mark_outbox_ambiguous` on the row of the message.
  abbrev pub mark_row :
      String → String → String → String → Option OutboxRow → Outbox → Result Error (Bool × Outbox)
  mark_row k token reason at none db = ok (false, db)
  mark_row k token reason at (some row) db =
      if is_in_flight row.status && opt_eq row.lease_token (some token)
      then insert_ambiguity k token reason at row db
      else ok (false, db)

  -- `mark_outbox_ambiguous`
  unfoldable pub mark_outbox_ambiguous :
      String → String → String → String → Outbox → Result Error Bool × Outbox
  mark_outbox_ambiguous k token reason at db = transact db (
      guard (elem reason reasons && not (token == "")) bad_reason >>= λ _.
      mark_row k token reason at (get_outbox k db) db)

  abbrev pub resolve_row : Resolution → String → String → OutboxRow → OutboxRow
  resolve_row as_published decided_at at x = publish_row decided_at x
  resolve_row as_retry decided_at at x = return_row false at "operator_reconciled:retry" x
  resolve_row as_dead_letter decided_at at x =
      return_row true at "operator_reconciled:dead_letter" x

  -- The open ambiguity that the operator answers.
  abbrev pub is_answered : String → String → OutboxAmbiguity → Bool
  is_answered k d a = a.message_id == k && (a.lease_token_digest == d && is_null a.resolved_at)

  -- The writes of `resolve_outbox_ambiguity`, on the row that carries the lease of the ambiguity.
  abbrev pub write_resolution :
      String → String → Resolution → String → String → String → Outbox → Outbox
  write_resolution k d resolution decided_at at token db = record {
    messages =
        update_where
          (λ x. x.message_id == k && (is_in_flight x.status && opt_eq x.lease_token (some token)))
          (resolve_row resolution decided_at at) db.messages;
    ambiguities =
        update_where (is_answered k d)
          (λ a. record a {
            resolution = some (resolution_text resolution);
            resolved_at = some decided_at;
          })
          db.ambiguities;
  }

  -- `resolve_outbox_ambiguity` on the row of the message. A row in flight without a token raises.
  abbrev pub resolve_found :
      String
      → String
      → Resolution
      → String
      → String
      → Option OutboxRow
      → Outbox
      → Result Error (Bool × Outbox)
  resolve_found k d resolution decided_at at none db = ok (false, db)
  resolve_found k d resolution decided_at at (some row) db =
      if not (any (is_answered k d) db.ambiguities && is_in_flight row.status)
      then ok (false, db)
      else (or_raise row.lease_token integrity >>= λ token.
          guard (not (token == "")) integrity >>= λ _.
          if digest token == d
          then ok (true, write_resolution k d resolution decided_at at token db)
          else ok (false, db))

  -- `resolve_outbox_ambiguity`; the test that the digest is a lowercase SHA-256 is a parameter.
  unfoldable pub resolve_outbox_ambiguity :
      (String → Bool)
      → String
      → String
      → Resolution
      → String
      → Option String
      → Outbox
      → Result Error Bool × Outbox
  resolve_outbox_ambiguity is_sha256 k d resolution decided_at retry_at db = transact db (
      guard (is_sha256 d) bad_digest >>= λ _.
      resolve_found k d resolution decided_at (or_else retry_at decided_at) (get_outbox k db) db)
