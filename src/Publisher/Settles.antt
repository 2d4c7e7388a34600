-- ===== src/Publisher/Settles.antt =====
-- What an attempt leaves of its message (src/quantum_entanglement/publisher.py) when the store's calls run.
use quantum_entanglement.Prelude.{
  String, Bool, true, false, ◌&&◌, List, [], ◌∷◌, ◌++◌, ◌==◌, none, some, any, find, leb,
  if◌then◌else◌, Result, ok, err, transact, Option-cases, ◌≡◌, refl, sym, arith, inl, inr, ◌⊎◌,
  eq_refl,
}
use quantum_entanglement.Prelude.Table.{update_where}
use quantum_entanglement.Prelude.Text.{elem, opt_eq}
use quantum_entanglement.Outbox.{
  OutboxRow, Outbox, reasons, get_outbox, is_quarantined, is_open, is_in_flight, is_waiting,
  publish_row, return_row, or_else,
}
use quantum_entanglement.Outbox.Lease.{is_held, acknowledge_outbox, reject_outbox}
use quantum_entanglement.Outbox.Resolve.{mark_outbox_ambiguous, insert_ambiguity}
use quantum_entanglement.Outbox.Calls.{mark_outbox_ambiguous-Marks}
use quantum_entanglement.Publisher.{
  Publisher, PublishError, lease_budget_exhausted, Invocation, abandoned, cancelled, delivered,
  failed, StoreCall, format_error_safely, invoke_with_hard_deadline, lease_budget_timestamp,
  valid_ack_timestamp,
}
use quantum_entanglement.Publisher.Retry.{retry_timestamp}
use quantum_entanglement.Publisher.Attempt.{
  Stop, store_error, cancellation, Attempt, store_call, persist_ambiguity,
  persist_ambiguity_before_cancel, reject_failed, after_acknowledge, acknowledge_accepted,
  after_invocation, publish_one,
}
use quantum_entanglement.Publisher.Accepted.{
  store_call_lem, after_reject-state, with_ambiguity-state, over_budget-state,
}

-- The publisher holds the message under the token, with no ambiguity of it under this token or open.
pub record Holds (p : Publisher) (row : OutboxRow) (token : String) (db : Outbox) : Type 0 where
  pub stored : get_outbox row.message_id db ≡ some row
  pub in_flight : is_in_flight row.status ≡ true
  pub token_of : row.lease_token ≡ some token
  pub given : (token == "") ≡ false
  pub started : leb 1 row.attempt_count ≡ true
  pub free : is_quarantined row.message_id db ≡ false
  pub unmarked :
      any
        (λ a. a.message_id == row.message_id && a.lease_token_digest == p.digest token)
        db.ambiguities
      ≡ false

-- The call does not raise, and its clock is before the end of the lease.
abbrev pub InTime : Publisher → OutboxRow → String → Outbox → StoreCall → Type 0
InTime p row token db c =
    (c.raises ≡ false) × (is_held p.julianday row.message_id token c.now db row ≡ true)

-- The lease is over: the message is published, waits for a retry that is left, or is given up; or it
-- waits for an operator.
abbrev pub Decided : Publisher → OutboxRow → Outbox → Type 0
Decided p row db =
    ((after : OutboxRow) × (get_outbox row.message_id db ≡ some after)
      × (is_in_flight after.status ≡ false)
      × (leb p.max_attempts row.attempt_count ≡ true → is_waiting after.status ≡ false))
    ⊎ (is_quarantined row.message_id db ≡ true)

find-update_where :
    (k : String) (q : OutboxRow → Bool) (f : OutboxRow → OutboxRow) (row : OutboxRow)
    (xs : List OutboxRow)
    → ((x : OutboxRow) → (f x).message_id ≡ x.message_id)
    → q row ≡ true
    → find (λ x. x.message_id == k) xs ≡ some row
    → find (λ x. x.message_id == k) (update_where q f xs) ≡ some (f row)
find-update_where k q f row [] same hit h = cc
find-update_where k q f row (x ∷ xs) same hit h =
    ground (arith, find-update_where k q f row xs same hit, same x, h, hit)

any_last :
    {A : Type 0} (q : A → Bool) (xs : List A) (x : A) → q x ≡ true → any q (xs ++ x ∷ []) ≡ true
any_last q [] x h = ground arith
any_last q (y ∷ ys) x h = ground (arith, any_last q ys x h)

not_in_flight :
    (dead : Bool) (at e : String) (x : OutboxRow)
    → is_in_flight (return_row dead at e x).status ≡ false
not_in_flight true at e x = refl
not_in_flight false at e x = refl

given_up :
    (dead : Bool) (at e : String) (x : OutboxRow)
    → dead ≡ true
    → is_waiting (return_row dead at e x).status ≡ false
given_up true at e x h = refl
given_up false at e x h = cc

module _ (p : Publisher) (a : Attempt) (row : OutboxRow) (token : String) (db : Outbox)
    (holds : Holds p row token db) where
  insert_ambiguity-open :
      (reason at : String)
      → is_quarantined row.message_id
          (transact db (insert_ambiguity p.digest row.message_id token reason at row db)).1
        ≡ true
  unfolding insert_ambiguity
  insert_ambiguity-open reason at =
      rw (holds.unmarked, holds.started, holds.free)
        (any_last (is_open row.message_id) db.ambiguities _
          (ground (arith, eq_refl row.message_id)))

  persist_ambiguity-open :
      (b : Attempt) (reason : String)
      → elem reason reasons ≡ true
      → b.marks.raises ≡ false
      → is_quarantined row.message_id (persist_ambiguity p b row reason db).1 ≡ true
  unfolding persist_ambiguity mark_outbox_ambiguous
  persist_ambiguity-open b reason known runs =
      let mine : opt_eq row.lease_token (some token) ≡ true = rw holds.token_of (eq_refl token) in
      rw (runs, holds.token_of, known, holds.given, holds.stored, holds.in_flight, mine)
        (insert_ambiguity-open reason b.marked_at)

  reject_failed-Decided :
      (e : PublishError)
      → InTime p row token db a.rejects
      → Decided p row (reject_failed p a row e db).1
  unfolding reject_failed reject_outbox
  reject_failed-Decided e in_time =
      let dead = leb p.max_attempts row.attempt_count in
      let at =
        or_else (if dead then none else retry_timestamp p a.retry_clock row.attempt_count)
          a.rejects.now in
      let code = format_error_safely p e in
      let found =
        find-update_where row.message_id (is_held p.julianday row.message_id token a.rejects.now db)
          (return_row dead at code) row db.messages (λ x. refl) in_time.1 holds.stored in
      rw (after_reject-state dead (store_call a.rejects _ db), in_time.0, holds.token_of)
        (inl (
          return_row dead at code row,
          found,
          not_in_flight dead at code row,
          given_up dead at code row,
        ))

  persist_ambiguity-messages :
      (b : Attempt) (reason : String) (db' : Outbox)
      → (persist_ambiguity p b row reason db').1.messages ≡ db'.messages
  unfolding persist_ambiguity
  persist_ambiguity-messages b reason db' =
      store_call_lem (λ out. out.messages ≡ db'.messages) b.marks _ db' refl
        (sym
          (mark_outbox_ambiguous-Marks p.digest row.message_id (or_else row.lease_token "") reason
            b.marked_at db').0)

  after_acknowledge-messages :
      (out : Result Stop Bool × Outbox)
      → (after_acknowledge p a row out).1.messages ≡ out.1.messages
  unfolding after_acknowledge persist_ambiguity_before_cancel
  after_acknowledge-messages (err cancellation, db') =
      persist_ambiguity-messages (record a { marks = record a.marks { cancels = false } })
        "caller_cancelled" db'
  after_acknowledge-messages (err store_error, db') =
      rw (with_ambiguity-state _ (persist_ambiguity p a row "ack_failed" db'))
        (persist_ambiguity-messages a "ack_failed" db')
  after_acknowledge-messages (ok true, db') = refl
  after_acknowledge-messages (ok false, db') =
      rw (with_ambiguity-state _ (persist_ambiguity p a row "ack_failed" db'))
        (persist_ambiguity-messages a "ack_failed" db')

  acknowledge_accepted-Decided :
      a.marks.raises ≡ false
      → InTime p row token db a.acknowledges
      → Decided p row (acknowledge_accepted p a row db).1
  unfolding acknowledge_accepted acknowledge_outbox
  acknowledge_accepted-Decided marks in_time =
      elim (Option-cases (valid_ack_timestamp p a.ack_clock row)) [
        | inl late ↦
            rw
              (
                late,
                acknowledge_accepted,
                with_ambiguity-state _ (persist_ambiguity p a row "lease_expired_after_accept" db),
              )
              (inr (persist_ambiguity-open a "lease_expired_after_accept" refl marks))
        | inr (at, in_ack) ↦
            let out =
              store_call a.acknowledges
                (acknowledge_outbox p.julianday row.message_id (or_else row.lease_token "")
                  (some at) a.acknowledges.now db)
                db in
            let found : find (λ x. x.message_id == row.message_id) out.1.messages
                ≡ some (publish_row at row) =
              rw (in_time.0, holds.token_of)
                (find-update_where row.message_id
                  (is_held p.julianday row.message_id token a.acknowledges.now db) (publish_row at)
                  row db.messages (λ x. refl) in_time.1 holds.stored) in
            let there : get_outbox row.message_id (acknowledge_accepted p a row db).1
                ≡ some (publish_row at row) =
              rw (in_ack, acknowledge_accepted, after_acknowledge-messages out) found in
            inl (publish_row at row, there, refl, (λ _. refl))
      ]

  after_invocation-Decided :
      (i : Invocation)
      → a.marks.raises ≡ false
      → InTime p row token db a.acknowledges
      → InTime p row token db a.rejects
      → Decided p row (after_invocation p a row i db).1
  unfolding after_invocation persist_ambiguity_before_cancel
  after_invocation-Decided cancelled marks acks rejects = inr (
      persist_ambiguity-open (record a { marks = record a.marks { cancels = false } })
        "caller_cancelled" refl marks)
  after_invocation-Decided abandoned marks acks rejects =
      rw (with_ambiguity-state _ (persist_ambiguity p a row "callback_timeout" db))
        (inr (persist_ambiguity-open a "callback_timeout" refl marks))
  after_invocation-Decided (failed e) marks acks rejects = reject_failed-Decided e rejects
  after_invocation-Decided delivered marks acks rejects = acknowledge_accepted-Decided marks acks

  -- No message is left behind: an attempt on a message that the publisher holds, whatever the connector
  -- does and whether or not the caller cancels it, ends the lease or quarantines the message, if
  -- the store's calls do not raise and run before the lease is over; a message whose attempts are used up
  -- does not wait for another one.
  pub publish_one-Decided :
      a.marks.raises ≡ false
      → InTime p row token db a.acknowledges
      → InTime p row token db a.rejects
      → Decided p row (publish_one p a row db).1
  unfolding publish_one
  publish_one-Decided marks acks rejects =
      elim (Option-cases (lease_budget_timestamp p a.budget_clock row)) [
        | inl short ↦
            rw
              (
                short,
                publish_one,
                over_budget-state (reject_failed p a row lease_budget_exhausted db),
              )
              (reject_failed-Decided lease_budget_exhausted rejects)
        | inr (at, enough) ↦
            rw (enough, publish_one)
              (after_invocation-Decided (invoke_with_hard_deadline p.blank a.response) marks acks
                rejects)
      ]
