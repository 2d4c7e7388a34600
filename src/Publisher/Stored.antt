-- ===== src/Publisher/Stored.antt =====
-- What the store holds when a call of an attempt (src/quantum_entanglement/publisher.py) answered with true.
use quantum_entanglement.Prelude.{
  String, Bool, true, false, ◌&&◌, not, List, [], ◌∷◌, ◌++◌, ◌==◌, Option, none, some, any, leb,
  if◌then◌else◌, Result, ok, err, guard, transact-eq_ok, Gives, Gives-bind, Gives-ok, Gives-if,
  Bool-cases, ◌≡◌, refl, ap, arith, eq_refl, inl, inr,
}
use quantum_entanglement.Prelude.Text.{elem, opt_eq}
use quantum_entanglement.Prelude.Table.{update_where, count_where}
use quantum_entanglement.Outbox
use quantum_entanglement.Outbox.{
  OutboxStatus, pending, published, dead_letter, OutboxRow, OutboxAmbiguity, Outbox, has_status,
  is_in_flight, is_quarantined, reasons, bad_reason, constraint, get_outbox, or_else, publish_row,
  return_row,
}
use quantum_entanglement.Outbox.Lease.{is_held, acknowledge_outbox, reject_outbox}
use quantum_entanglement.Outbox.Resolve.{insert_ambiguity, mark_row, mark_outbox_ambiguous}
use quantum_entanglement.Publisher.{Publisher, StoreCall}
use quantum_entanglement.Publisher.Attempt.{
  Stop, store_error, cancellation, Attempt, store_call, raised_or, or_false, persist_ambiguity,
}

-- The message is stored with the status.
abbrev pub stands : OutboxStatus → String → Outbox → Bool
stands s k db = any (λ x. x.message_id == k && has_status s x) db.messages

-- An ambiguity of the message under the digest is stored.
abbrev pub is_marked : String → String → Outbox → Bool
is_marked k d db = any (λ a. a.message_id == k && a.lease_token_digest == d) db.ambiguities

pub store_call-eq_ok :
    {A : Type 0} (c : StoreCall) (out : A × Outbox) (db : Outbox) (a : A)
    → (store_call c out db).0 ≡ ok a
    → ((store_call c out db).1 ≡ out.1) × (out.0 ≡ a)
store_call-eq_ok c out db a h = elim (Bool-cases c.raises) [
  | inl raised ↦
      let no : err (if c.cancels then cancellation else store_error) ≡ ok a = rw raised at h in cc
  | inr ran ↦ elim (Bool-cases c.cancels) [
    | inl stopped ↦ let no : err cancellation ≡ ok a = rw (ran, stopped) at h in cc
    | inr went ↦
        let same : ok out.0 ≡ ok a = rw (ran, went) at h in (rw ran refl, ground (arith, same))
  ]
]

pub store_call-eq_err :
    {A : Type 0} (c : StoreCall) (out : A × Outbox) (db : Outbox)
    → (store_call c out db).0 ≡ err store_error
    → c.raises ≡ true
store_call-eq_err c out db h = elim (Bool-cases c.raises) [
  | inl raised ↦ raised
  | inr ran ↦ elim (Bool-cases c.cancels) [
    | inl stopped ↦ let no : err cancellation ≡ err store_error = rw (ran, stopped) at h in cc
    | inr went ↦ let no : ok out.0 ≡ err store_error = rw (ran, went) at h in cc
  ]
]

updated :
    (s : OutboxStatus) (k : String) (q : OutboxRow → Bool) (f : OutboxRow → OutboxRow)
    (xs : List OutboxRow)
    → ((x : OutboxRow) → q x ≡ true → (x.message_id == k) ≡ true)
    → ((x : OutboxRow)
        → (x.message_id == k) ≡ true
        → ((f x).message_id == k && has_status s (f x)) ≡ true)
    → leb 1 (count_where q xs) ≡ true
    → any (λ x. x.message_id == k && has_status s x) (update_where q f xs) ≡ true
updated s k q f [] named writes hit = absurd (ground arith)
updated s k q f (x ∷ xs) named writes hit = elim (Bool-cases (q x)) [
  | inl hits ↦ rw (hits, writes x (named x hits)) refl
  | inr misses ↦
      let rest = updated s k q f xs named writes (ground (arith, hit, misses)) in
      rw misses (ground (arith, rest))
]

pub acknowledge_outbox-stands :
    (p : Publisher) (k token now : String) (at : Option String) (db : Outbox)
    → (acknowledge_outbox p.julianday k token at now db).0 ≡ true
    → stands published k (acknowledge_outbox p.julianday k token at now db).1 ≡ true
unfolding acknowledge_outbox
acknowledge_outbox-stands p k token now at db h =
    updated published k (is_held p.julianday k token now db) (publish_row (or_else at now))
      db.messages (λ x held. ground (arith, held)) (λ x named. rw named refl) (ground (arith, h))

-- The status that a rejection gives a message.
abbrev pub given_back_as : Bool → OutboxStatus
given_back_as true = dead_letter
given_back_as false = pending

return_row-status :
    (dead : Bool) (at e : String) (x : OutboxRow)
    → has_status (given_back_as dead) (return_row dead at e x) ≡ true
return_row-status true at e x = refl
return_row-status false at e x = refl

pub reject_outbox-stands :
    (p : Publisher) (k token e now : String) (at : Option String) (dead : Bool) (db : Outbox)
    → (reject_outbox p.julianday k token e at dead now db).0 ≡ true
    → stands (given_back_as dead) k (reject_outbox p.julianday k token e at dead now db).1 ≡ true
unfolding reject_outbox
reject_outbox-stands p k token e now at dead db h =
    updated (given_back_as dead) k (is_held p.julianday k token now db)
      (return_row dead (or_else at now) e) db.messages (λ x held. ground (arith, held))
      (λ x named. rw (named, return_row-status dead (or_else at now) e x) refl) (ground (arith, h))

module _ (digest : String → String) where
  -- A mark that answers true has stored its ambiguity, or found it stored.
  abbrev Recorded : String → String → Bool × Outbox → Type 0
  Recorded k token out = out.0 ≡ true → is_marked k (digest token) out.1 ≡ true

  any_end :
      {A : Type 0} (q : A → Bool) (xs : List A) (x : A) → q x ≡ true → any q (xs ++ x ∷ []) ≡ true
  any_end q [] x h = ground arith
  any_end q (y ∷ ys) x h = ground (arith, any_end q ys x h)

  insert_ambiguity-Recorded :
      (k token reason at : String) (row : OutboxRow) (db : Outbox)
      → Gives (Recorded k token) (insert_ambiguity digest k token reason at row db)
  unfolding insert_ambiguity
  insert_ambiguity-Recorded k token reason at row db =
      Gives-if (Recorded k token) (is_marked k (digest token) db) (ok (true, db)) _
        (λ there. Gives-ok (Recorded k token) (true, db) (λ _. there))
        (λ _.
          Gives-bind (Recorded k token)
            (guard (leb 1 row.attempt_count && not (is_quarantined k db)) constraint) _
            λ _ _.
              Gives-ok (Recorded k token) _ (λ _.
                any_end _ db.ambiguities _ (ground (arith, eq_refl k, eq_refl (digest token)))))

  mark_row-Recorded :
      (k token reason at : String) (row : Option OutboxRow) (db : Outbox)
      → Gives (Recorded k token) (mark_row digest k token reason at row db)
  mark_row-Recorded k token reason at none db = Gives-ok (Recorded k token) (false, db) (λ h. cc)
  mark_row-Recorded k token reason at (some row) db =
      Gives-if (Recorded k token) (is_in_flight row.status && opt_eq row.lease_token (some token))
        (insert_ambiguity digest k token reason at row db) (ok (false, db))
        (λ _. insert_ambiguity-Recorded k token reason at row db)
        (λ _. Gives-ok (Recorded k token) (false, db) (λ h. cc))

  mark_outbox_ambiguous-Recorded :
      (k token reason at : String) (db db' : Outbox)
      → mark_outbox_ambiguous digest k token reason at db ≡ (ok true, db')
      → is_marked k (digest token) db' ≡ true
  unfolding mark_outbox_ambiguous
  mark_outbox_ambiguous-Recorded k token reason at db db' h =
      Gives-bind (Recorded k token) (guard (elem reason reasons && not (token == "")) bad_reason) _
        (λ _ _. mark_row-Recorded k token reason at (get_outbox k db) db) (true, db')
        (transact-eq_ok db _ true db' h) refl

raised_or-eq_ok :
    (r : Result Stop (Result Outbox.Error Bool)) → raised_or r ≡ ok true → r ≡ ok (ok true)
raised_or-eq_ok (ok (ok true)) h = refl
raised_or-eq_ok (ok (ok false)) h = absurd (ground arith)
raised_or-eq_ok (ok (err e)) h = cc
raised_or-eq_ok (err stop) h = cc

or_false-eq_ok : (r : Result Stop Bool) → or_false r ≡ ok true → r ≡ ok true
or_false-eq_ok (ok b) h = h
or_false-eq_ok (err store_error) h = absurd (ground arith)
or_false-eq_ok (err cancellation) h = cc

pub persist_ambiguity-marked :
    (p : Publisher) (a : Attempt) (row : OutboxRow) (reason : String) (db : Outbox)
    → (persist_ambiguity p a row reason db).0 ≡ ok true
    → is_marked row.message_id
        (p.digest (or_else row.lease_token ""))
        (persist_ambiguity p a row reason db).1
      ≡ true
unfolding persist_ambiguity
persist_ambiguity-marked p a row reason db h =
    let m =
      mark_outbox_ambiguous p.digest row.message_id (or_else row.lease_token "") reason a.marked_at
        db in
    let ran = store_call-eq_ok a.marks m db (ok true) (raised_or-eq_ok _ (or_false-eq_ok _ h)) in
    rw ran.0 (
      mark_outbox_ambiguous-Recorded p.digest row.message_id (or_else row.lease_token "") reason
        a.marked_at db m.1 (ap (λ (r : Result Outbox.Error Bool). (r, m.1)) ran.1))
