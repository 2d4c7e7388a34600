-- ===== src/Outbox/Calls.antt =====
-- The effect of each outbox call (src/quantum_entanglement/store.py) on the rows of the outbox.
use quantum_entanglement.Prelude.{
  ℕ, String, Bool, true, false, ◌&&◌, not, ◌==◌, Option, none, some, any, find, select, take, leb,
  ok, guard, or_raise, transact-keeps, Gives, Gives-bind, Gives-ok, Gives-if, any-snoc, All,
  All-imp, All-take, ◌≡◌, refl, arith,
}
use quantum_entanglement.Prelude.Text.{elem, opt_eq}
use quantum_entanglement.Prelude.Table.{All-select}
use quantum_entanglement.Prelude.Moves.{done, Unique}
use quantum_entanglement.Prelude.Keys.{All-Unique}
use quantum_entanglement.Outbox.{
  OutboxRow, Outbox, is_open, bad_limit, bad_reason, bad_digest, integrity, constraint,
  is_in_flight, is_quarantined, Resolution, as_published, as_retry, as_dead_letter, or_else,
  reasons,
}
use quantum_entanglement.Outbox.Lease.{
  lease_rows, is_deliverable, claim_outbox, is_held, acknowledge_outbox, reject_outbox,
}
use quantum_entanglement.Outbox.Resolve.{
  mark_outbox_ambiguous, mark_row, insert_ambiguity, resolve_row, resolve_found, write_resolution,
  is_answered, resolve_outbox_ambiguity,
}
use quantum_entanglement.Outbox.Life.{
  RowMove, id_of, is_unsettled, Lives, Lives-update, publish_row-RowMove, return_row-RowMove,
  AllActive, lease_rows-Lives,
}

module _ (julianday : String → Option ℕ) where
  due_active :
      (now : String) (db : Outbox)
      → Unique id_of db.messages
      → All (AllActive db.messages) (select (is_deliverable julianday now db) db.messages)
  due_active now db unique =
      All-imp _ _ (select (is_deliverable julianday now db) db.messages)
        (λ x
            (h : ((is_unsettled x.status ≡ true → AllActive db.messages x)
              × (is_deliverable julianday now db x ≡ true))).
          h.0 (ground (arith, h.1)))
        (All-select _ (is_deliverable julianday now db) db.messages
          (All-Unique id_of (λ x. is_unsettled x.status ≡ true) db.messages unique))

  pub claim_outbox-Lives :
      (worker_id : String) (limit : ℕ) (now deadline : String) (lease_id : ℕ → String) (db : Outbox)
      → Unique id_of db.messages
      → Lives db.messages
          (claim_outbox julianday worker_id limit now deadline lease_id db).1.messages
  unfolding claim_outbox
  claim_outbox-Lives worker_id limit now deadline lease_id db unique =
      transact-keeps (λ (out : Outbox). Lives db.messages out.messages) db _ done
        (Gives-bind _ (guard (leb 1 limit) bad_limit) _ λ _ _.
          Gives-bind _
            (lease_rows worker_id lease_id deadline
              (take limit (select (is_deliverable julianday now db) db.messages)) 0 db.messages)
            _
            λ out leased.
              Gives-ok _ (out.0, record db { messages = out.1 })
                (lease_rows-Lives worker_id lease_id deadline
                  (take limit (select (is_deliverable julianday now db) db.messages)) 0 db.messages
                  (All-take _ limit _ (due_active now db unique)) out leased))

  pub acknowledge_outbox-Lives :
      (k token : String) (published_at : Option String) (now : String) (db : Outbox)
      → Lives db.messages (acknowledge_outbox julianday k token published_at now db).1.messages
  unfolding acknowledge_outbox
  acknowledge_outbox-Lives k token published_at now db =
      Lives-update (is_held julianday k token now db) _ db.messages
        (λ x h. publish_row-RowMove _ x (ground arith))

  pub reject_outbox-Lives :
      (k token error : String) (retry_at : Option String) (dead : Bool) (now : String) (db : Outbox)
      → Lives db.messages (reject_outbox julianday k token error retry_at dead now db).1.messages
  unfolding reject_outbox
  reject_outbox-Lives k token error retry_at dead now db =
      Lives-update (is_held julianday k token now db) _ db.messages
        (λ x h. return_row-RowMove dead _ error x (ground arith))

module _ (digest : String → String) where
  -- A mark leaves the rows alone, and keeps the ambiguities that there are.
  abbrev Marks : Outbox → Bool × Outbox → Type 0
  Marks db out =
      (db.messages ≡ out.1.messages)
      × ((j : String) → is_quarantined j db ≡ true → is_quarantined j out.1 ≡ true)

  insert_ambiguity-Marks :
      (k token reason at : String) (row : OutboxRow) (db : Outbox)
      → Gives (Marks db) (insert_ambiguity digest k token reason at row db)
  unfolding insert_ambiguity
  insert_ambiguity-Marks k token reason at row db =
      Gives-if (Marks db)
        (any (λ a. a.message_id == k && a.lease_token_digest == digest token) db.ambiguities)
        (ok (true, db)) _ (λ _. Gives-ok (Marks db) (true, db) (refl, (λ j h. h)))
        (λ _.
          Gives-bind (Marks db)
            (guard (leb 1 row.attempt_count && not (is_quarantined k db)) constraint) _
            λ _ _. Gives-ok (Marks db) _ (refl, (λ j h. any-snoc (is_open j) db.ambiguities _ h)))

  mark_row-Marks :
      (k token reason at : String) (row : Option OutboxRow) (db : Outbox)
      → Gives (Marks db) (mark_row digest k token reason at row db)
  mark_row-Marks k token reason at none db = Gives-ok (Marks db) (false, db) (refl, (λ j h. h))
  mark_row-Marks k token reason at (some row) db =
      Gives-if (Marks db) (is_in_flight row.status && opt_eq row.lease_token (some token))
        (insert_ambiguity digest k token reason at row db) (ok (false, db))
        (λ _. insert_ambiguity-Marks k token reason at row db)
        (λ _. Gives-ok (Marks db) (false, db) (refl, (λ j h. h)))

  pub mark_outbox_ambiguous-Marks :
      (k token reason at : String) (db : Outbox)
      → let after = (mark_outbox_ambiguous digest k token reason at db).1 in
        (db.messages ≡ after.messages)
        × ((j : String) → is_quarantined j db ≡ true → is_quarantined j after ≡ true)
  unfolding mark_outbox_ambiguous
  mark_outbox_ambiguous-Marks k token reason at db =
      transact-keeps (λ (after : Outbox). Marks db (true, after)) db _ (refl, (λ j h. h))
        (Gives-bind _ (guard (elem reason reasons && not (token == "")) bad_reason) _ λ _ _.
          λ out marked.
            mark_row-Marks k token reason at (find (λ x. x.message_id == k) db.messages) db out
              marked)

  resolve_row-RowMove :
      (r : Resolution) (decided_at at : String) (x : OutboxRow)
      → is_in_flight x.status ≡ true
      → RowMove x (resolve_row digest r decided_at at x)
  resolve_row-RowMove as_published decided_at at x held = publish_row-RowMove decided_at x held
  resolve_row-RowMove as_retry decided_at at x held = return_row-RowMove false at _ x held
  resolve_row-RowMove as_dead_letter decided_at at x held = return_row-RowMove true at _ x held

  -- A resolution that was applied wrote what `write_resolution` writes; another wrote nothing.
  pub resolve_found_lem :
      (P : Outbox → Type 0) (k d : String) (r : Resolution) (decided_at at : String)
      (row : Option OutboxRow) (db : Outbox)
      → P db
      → ((token : String) → P (write_resolution digest k d r decided_at at token db))
      → Gives (λ (out : Bool × Outbox). P out.1) (resolve_found digest k d r decided_at at row db)
  resolve_found_lem P k d r decided_at at none db same written = Gives-ok _ (false, db) same
  resolve_found_lem P k d r decided_at at (some row) db same written =
      Gives-if _ (not (any (is_answered digest k d) db.ambiguities && is_in_flight row.status))
        (ok (false, db)) _ (λ _. Gives-ok _ (false, db) same)
        (λ _. Gives-bind _ (or_raise row.lease_token integrity) _ λ token _.
          Gives-bind _ (guard (not (token == "")) integrity) _ λ _ _.
            Gives-if _ (digest token == d)
              (ok (true, write_resolution digest k d r decided_at at token db)) (ok (false, db))
              (λ _.
                Gives-ok _ (true, write_resolution digest k d r decided_at at token db)
                  (written token))
              (λ _. Gives-ok _ (false, db) same))

  pub resolve_outbox_ambiguity_lem :
      (P : Outbox → Type 0) (is_sha256 : String → Bool) (k d : String) (r : Resolution)
      (decided_at : String) (retry_at : Option String) (db : Outbox)
      → P db
      → ((token : String)
          → P (write_resolution digest k d r decided_at (or_else retry_at decided_at) token db))
      → P (resolve_outbox_ambiguity digest is_sha256 k d r decided_at retry_at db).1
  unfolding resolve_outbox_ambiguity
  resolve_outbox_ambiguity_lem P is_sha256 k d r decided_at retry_at db same written =
      transact-keeps P db _ same (
        Gives-bind _ (guard (is_sha256 d) bad_digest) _ λ _ _ out resolved.
          resolve_found_lem P k d r decided_at (or_else retry_at decided_at)
            (find (λ x. x.message_id == k) db.messages) db same written out resolved)

  pub resolve_outbox_ambiguity-Lives :
      (is_sha256 : String → Bool) (k d : String) (r : Resolution) (decided_at : String)
      (retry_at : Option String) (db : Outbox)
      → Lives db.messages
          (resolve_outbox_ambiguity digest is_sha256 k d r decided_at retry_at db).1.messages
  resolve_outbox_ambiguity-Lives is_sha256 k d r decided_at retry_at db =
      resolve_outbox_ambiguity_lem (λ out. Lives db.messages out.messages) is_sha256 k d r
        decided_at retry_at db done
        (λ token.
          Lives-update
            (λ x. x.message_id == k && (is_in_flight x.status && opt_eq x.lease_token (some token)))
            (resolve_row digest r decided_at (or_else retry_at decided_at)) db.messages
            (λ x h.
              resolve_row-RowMove r decided_at (or_else retry_at decided_at) x (ground arith)))
