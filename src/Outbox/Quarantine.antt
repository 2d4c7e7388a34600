-- ===== src/Outbox/Quarantine.antt =====
-- A message with an ambiguity that waits for an operator (src/quantum_entanglement/store.py).
use quantum_entanglement.Prelude.{
  ℕ, ◌+◌, String, Bool, true, false, List, [], ◌∷◌, ◌==◌, Option, any, find, select, take, leb,
  guard, or_raise, transact-keeps, Gives, Gives-bind, Gives-ok, All, All-rows, All-imp, All-take,
  Bool-cases, ◌≡◌, refl, arith, eq_iff, inl, inr, ◌≢◌,
}
use Prim.Native.String.{◌++◌ as ◌<>◌}
use quantum_entanglement.Prelude.Table.{update_where, All-select}
use quantum_entanglement.Prelude.Moves.{Stored}
use quantum_entanglement.Prelude.Keys.{Stored-update_where}
use quantum_entanglement.Outbox.{
  OutboxRow, OutboxAmbiguity, Outbox, disappeared, bad_limit, is_open, is_quarantined, Resolution,
  as_published, as_retry, as_dead_letter, or_else, lease_row,
}
use quantum_entanglement.Outbox.Lease.{
  lease_rows, is_deliverable, claim_outbox, is_held, acknowledge_outbox, reject_outbox,
}
use quantum_entanglement.Outbox.Resolve.{resolve_row, is_answered, resolve_outbox_ambiguity}
use quantum_entanglement.Outbox.Life.{id_of}
use quantum_entanglement.Outbox.Calls.{resolve_outbox_ambiguity_lem}

-- The message waits for an operator, and its row is `row`.
pub record Waits (k : String) (row : OutboxRow) (db : Outbox) : Type 0 where
  pub quarantined : is_quarantined k db ≡ true
  pub stored : Stored id_of (λ x. x ≡ row) k db.messages

update-Waits :
    (k : String) (row : OutboxRow) (db : Outbox) (p : OutboxRow → Bool) (f : OutboxRow → OutboxRow)
    → ((x : OutboxRow) → (f x).message_id ≡ x.message_id)
    → ((x : OutboxRow) → (x.message_id == k) ≡ true → p x ≡ false)
    → Waits k row db
    → Waits k row (record db { messages = update_where p f db.messages })
update-Waits k row db p f same miss w = record {
  quarantined = w.quarantined;
  stored = Stored-update_where id_of (λ x. x ≡ row) p f k db.messages same miss w.stored;
}

not_named :
    (x : OutboxRow) (k j : String)
    → (x.message_id == k) ≡ true
    → k ≢ j
    → (x.message_id == j) ≡ false
not_named x k j h other = ground (arith, eq_iff x.message_id k, eq_iff x.message_id j, other)

module _ (julianday : String → Option ℕ) where
  held_free :
      (j token now k : String) (db : Outbox) (x : OutboxRow)
      → is_quarantined k db ≡ true
      → (x.message_id == k) ≡ true
      → is_held julianday j token now db x ≡ false
  held_free j token now k db x q named =
      let id : x.message_id ≡ k = ground (arith, eq_iff x.message_id k) in
      let held : is_quarantined x.message_id db ≡ true = rw id q in ground arith

  pub acknowledge_outbox-Waits :
      (j token : String) (at : Option String) (now k : String) (row : OutboxRow) (db : Outbox)
      → Waits k row db
      → Waits k row (acknowledge_outbox julianday j token at now db).1
  unfolding acknowledge_outbox
  acknowledge_outbox-Waits j token at now k row db w =
      update-Waits k row db (is_held julianday j token now db) _ (λ x. refl)
        (λ x h. held_free j token now k db x w.quarantined h) w

  pub reject_outbox-Waits :
      (j token error : String) (at : Option String) (dead : Bool) (now k : String) (row : OutboxRow)
      (db : Outbox)
      → Waits k row db
      → Waits k row (reject_outbox julianday j token error at dead now db).1
  unfolding reject_outbox
  reject_outbox-Waits j token error at dead now k row db w =
      update-Waits k row db (is_held julianday j token now db) _ (λ x. refl)
        (λ x h. held_free j token now k db x w.quarantined h) w

  lease_rows-Waits :
      (worker : String) (ids : ℕ → String) (deadline : String) (xs : List OutboxRow) (n : ℕ)
      (k : String) (row : OutboxRow) (db : Outbox)
      → All (λ (x : OutboxRow). (x.message_id == k) ≡ false) xs
      → Waits k row db
      → Gives
          (λ (out : List OutboxRow × List OutboxRow). Waits k row (record db { messages = out.1 }))
          (lease_rows worker ids deadline xs n db.messages)
  unfolding lease_rows
  lease_rows-Waits worker ids deadline [] n k row db others w = Gives-ok _ ([], db.messages) w
  lease_rows-Waits worker ids deadline (x ∷ xs) n k row db others w =
      let p = λ (y : OutboxRow). y.message_id == x.message_id in
      let f = lease_row (worker <> ":" <> ids n) deadline in
      let db' : Outbox = record db { messages = update_where p f db.messages } in
      let w' : Waits k row db' =
        update-Waits k row db p f (λ y. refl)
          (λ y h. ground (
            arith,
            others.0,
            eq_iff y.message_id k,
            eq_iff y.message_id x.message_id,
            eq_iff x.message_id k,
          ))
          w in
      Gives-bind _ (or_raise (find p db'.messages) disappeared) _ λ updated _.
        Gives-bind _ (lease_rows worker ids deadline xs (n + 1) db'.messages) _ λ rest leased.
          Gives-ok _ (updated ∷ rest.0, rest.1)
            (lease_rows-Waits worker ids deadline xs (n + 1) k row db' others.1 w' rest leased)

  due_other :
      (now k : String) (db : Outbox) (x : OutboxRow)
      → is_quarantined k db ≡ true
      → is_deliverable julianday now db x ≡ true
      → (x.message_id == k) ≡ false
  due_other now k db x q due = elim (Bool-cases (x.message_id == k)) [
    | inl named ↦
        let id : x.message_id ≡ k = ground (arith, eq_iff x.message_id k) in
        let held : is_quarantined x.message_id db ≡ true = rw id q in ground arith
    | inr other ↦ other
  ]

  pub claim_outbox-Waits :
      (worker : String) (limit : ℕ) (now deadline : String) (ids : ℕ → String) (k : String)
      (row : OutboxRow) (db : Outbox)
      → Waits k row db
      → Waits k row (claim_outbox julianday worker limit now deadline ids db).1
  unfolding claim_outbox
  claim_outbox-Waits worker limit now deadline ids k row db w =
      let due = select (is_deliverable julianday now db) db.messages in
      let others : All (λ (x : OutboxRow). (x.message_id == k) ≡ false) due =
        All-imp (λ x. Unit {0} × (is_deliverable julianday now db x ≡ true)) _ due
          (λ x h. due_other now k db x w.quarantined h.1)
          (All-select (λ _. Unit {0}) (is_deliverable julianday now db) db.messages
            (All-rows db.messages)) in
      transact-keeps (Waits k row) db _ w (
        Gives-bind _ (guard (leb 1 limit) bad_limit) _ λ _ _.
          Gives-bind _ (lease_rows worker ids deadline (take limit due) 0 db.messages) _
            λ out leased.
              Gives-ok _ (out.0, record db { messages = out.1 })
                (lease_rows-Waits worker ids deadline (take limit due) 0 k row db
                  (All-take _ limit due others) w out leased))

resolve_row-id :
    (digest : String → String) (r : Resolution) (decided_at at : String) (x : OutboxRow)
    → (resolve_row digest r decided_at at x).message_id ≡ x.message_id
resolve_row-id digest as_published decided_at at x = refl
resolve_row-id digest as_retry decided_at at x = refl
resolve_row-id digest as_dead_letter decided_at at x = refl

other_open :
    (digest : String → String) (j d k : String) (f : OutboxAmbiguity → OutboxAmbiguity)
    (as' : List OutboxAmbiguity)
    → k ≢ j
    → any (is_open k) as' ≡ true
    → any (is_open k) (update_where (is_answered digest j d) f as') ≡ true
other_open digest j d k f [] other h = cc
other_open digest j d k f (a ∷ as') other h = ground (
  arith,
  other_open digest j d k f as' other,
  eq_iff a.message_id k,
  eq_iff a.message_id j,
  other,
)

-- An operator's answer for another message.
pub resolve_outbox_ambiguity-Waits :
    (digest : String → String) (is_sha256 : String → Bool) (j d : String) (r : Resolution)
    (decided_at : String) (retry_at : Option String) (k : String) (row : OutboxRow) (db : Outbox)
    → k ≢ j
    → Waits k row db
    → Waits k row (resolve_outbox_ambiguity digest is_sha256 j d r decided_at retry_at db).1
resolve_outbox_ambiguity-Waits digest is_sha256 j d r decided_at retry_at k row db other w =
    resolve_outbox_ambiguity_lem digest (Waits k row) is_sha256 j d r decided_at retry_at db w
      (λ token. record {
        quarantined = other_open digest j d k _ db.ambiguities other w.quarantined;
        stored =
            Stored-update_where id_of (λ x. x ≡ row) _
              (resolve_row digest r decided_at (or_else retry_at decided_at)) k db.messages
              (resolve_row-id digest r decided_at (or_else retry_at decided_at))
              (λ x h. ground (arith, not_named x k j h other)) w.stored;
      })
