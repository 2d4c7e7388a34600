-- ===== src/Outbox/Settled.antt =====
-- A message that is published or given up, under the outbox calls (src/quantum_entanglement/store.py).
use Prim.Native.String.{◌++◌ as ◌<>◌}
use quantum_entanglement.Prelude.{
  ℕ, ◌+◌, String, Bool, true, false, ◌&&◌, List, [], ◌∷◌, ◌==◌, Option, find, select, take, leb,
  guard, or_raise, transact-Gives, or_raise-eq_ok, Gives, Gives-bind, Gives-ok, All, All-imp,
  All-take, ◌≡◌, refl, arith, eq_iff,
}
use quantum_entanglement.Prelude.Table.{update_where, count_where, All-select, find_select}
use quantum_entanglement.Prelude.Moves.{Unique, Stored, named}
use quantum_entanglement.Prelude.Keys.{Stored-hit}
use quantum_entanglement.Outbox.{
  OutboxRow, Outbox, disappeared, bad_limit, lease_row, publish_row, or_else,
}
use quantum_entanglement.Outbox.Lease.{
  lease_rows, is_deliverable, claim_outbox, is_held, acknowledge_outbox, reject_outbox,
}
use quantum_entanglement.Outbox.Life.{id_of, is_unsettled}

-- The message is stored, and no publisher waits for it or holds it.
abbrev pub Settled : String → List OutboxRow → Type 0
Settled = Stored id_of (λ x. is_unsettled x.status ≡ false)

missed_by :
    (p : OutboxRow → Bool) (k : String) (xs : List OutboxRow)
    → ((x : OutboxRow) → p x ≡ true → (x.message_id == k) && is_unsettled x.status ≡ true)
    → All (λ (x : OutboxRow). (x.message_id == k) ≡ true → is_unsettled x.status ≡ false) xs
    → count_where p xs ≡ 0
missed_by p k [] active h = refl
missed_by p k (x ∷ xs) active h = ground (arith, missed_by p k xs active, h.0, h.1, active x)

module _ (julianday : String → Option ℕ) where
  held_active :
      (k token now : String) (db : Outbox) (x : OutboxRow)
      → is_held julianday k token now db x ≡ true
      → (x.message_id == k) && is_unsettled x.status ≡ true
  held_active k token now db x h = ground arith

  pub acknowledge_outbox-Settled :
      (k token : String) (at : Option String) (now : String) (db : Outbox)
      → Unique id_of db.messages
      → (acknowledge_outbox julianday k token at now db).0 ≡ true
      → Settled k (acknowledge_outbox julianday k token at now db).1.messages
  unfolding acknowledge_outbox
  acknowledge_outbox-Settled k token at now db unique done =
      Stored-hit id_of (λ x. is_unsettled x.status ≡ false) (is_held julianday k token now db)
        (publish_row (or_else at now)) k db.messages (λ x. refl)
        (λ x h. ground (arith, eq_iff x.message_id k)) (λ x _. refl) unique (ground arith)

  pub Settled-acknowledge_outbox :
      (k token : String) (at : Option String) (now : String) (db : Outbox)
      → Settled k db.messages
      → (acknowledge_outbox julianday k token at now db).0 ≡ false
  unfolding acknowledge_outbox
  Settled-acknowledge_outbox k token at now db s =
      rw
        (missed_by (is_held julianday k token now db) k db.messages (held_active k token now db)
          s.1)
        refl

  pub Settled-reject_outbox :
      (k token error : String) (at : Option String) (dead : Bool) (now : String) (db : Outbox)
      → Settled k db.messages
      → (reject_outbox julianday k token error at dead now db).0 ≡ false
  unfolding reject_outbox
  Settled-reject_outbox k token error at dead now db s =
      rw
        (missed_by (is_held julianday k token now db) k db.messages (held_active k token now db)
          s.1)
        refl

  lease_rows-others :
      (worker : String) (ids : ℕ → String) (deadline k : String) (xs : List OutboxRow) (n : ℕ)
      (table : List OutboxRow)
      → All (λ (x : OutboxRow). (x.message_id == k) ≡ false) xs
      → Gives
          (λ (out : List OutboxRow × List OutboxRow). named id_of k out.0 ≡ false)
          (lease_rows worker ids deadline xs n table)
  unfolding lease_rows
  lease_rows-others worker ids deadline k [] n table others = Gives-ok _ ([], table) refl
  lease_rows-others worker ids deadline k (x ∷ xs) n table others =
      let p = λ (y : OutboxRow). y.message_id == x.message_id in
      let table' = update_where p (lease_row (worker <> ":" <> ids n) deadline) table in
      Gives-bind _ (or_raise (find p table') disappeared) _ λ updated found.
        Gives-bind _ (lease_rows worker ids deadline xs (n + 1) table') _ λ rest leased.
          let same = find_select p updated table' (or_raise-eq_ok _ disappeared updated found) in
          let others' =
            lease_rows-others worker ids deadline k xs (n + 1) table' others.1 rest leased in
          Gives-ok _ (updated ∷ rest.0, rest.1)
            (ground (arith, others.0, others', same, eq_iff updated.message_id x.message_id))

  due_others :
      (k now : String) (db : Outbox) (xs : List OutboxRow)
      → All (λ (x : OutboxRow). (x.message_id == k) ≡ true → is_unsettled x.status ≡ false) xs
      → All
          (λ (x : OutboxRow). (x.message_id == k) ≡ false)
          (select (is_deliverable julianday now db) xs)
  due_others k now db xs settled =
      All-imp
        (λ (x : OutboxRow).
          ((x.message_id == k) ≡ true → is_unsettled x.status ≡ false)
          × (is_deliverable julianday now db x ≡ true))
        _ (select (is_deliverable julianday now db) xs) (λ x h. ground (arith, h.0, h.1))
        (All-select _ (is_deliverable julianday now db) xs settled)

  pub Settled-claim_outbox :
      (worker : String) (limit : ℕ) (now deadline : String) (ids : ℕ → String) (k : String)
      (db : Outbox)
      → Settled k db.messages
      → Gives
          (λ (rows : List OutboxRow). named id_of k rows ≡ false)
          (claim_outbox julianday worker limit now deadline ids db).0
  unfolding claim_outbox
  Settled-claim_outbox worker limit now deadline ids k db s =
      let due = select (is_deliverable julianday now db) db.messages in
      transact-Gives (λ (rows : List OutboxRow). named id_of k rows ≡ false) db _
        (Gives-bind _ (guard (leb 1 limit) bad_limit) _ λ _ _.
          Gives-bind _ (lease_rows worker ids deadline (take limit due) 0 db.messages) _
            λ out leased.
              Gives-ok _ (out.0, record db { messages = out.1 })
                (lease_rows-others worker ids deadline k (take limit due) 0 db.messages
                  (All-take _ limit due (due_others k now db db.messages s.1)) out leased))
