-- ===== src/Publisher/Accepted.antt =====
-- Which attempts publish a message (src/quantum_entanglement/publisher.py).
use quantum_entanglement.Prelude.{
  String, Bool, true, false, ◌&&◌, List, [], ◌∷◌, ◌==◌, any, Result, ok, err, Option-cases,
  Bool-cases, ◌≡◌, refl, arith, inl, inr,
}
use quantum_entanglement.Prelude.Table.{update_where}
use quantum_entanglement.Outbox.{published, OutboxRow, Outbox, has_status, return_row, or_else}
use quantum_entanglement.Outbox.Lease.{reject_outbox}
use quantum_entanglement.Outbox.Calls.{mark_outbox_ambiguous-Marks}
use quantum_entanglement.Publisher.{
  Publisher, PublishReceipt, accepted, Response, no_answer, cancelled_waiting, other_value,
  failed_with, answered, PublishError, lease_budget_exhausted, Invocation, abandoned, cancelled,
  delivered, failed, StoreCall, AttemptOutcome, receipt_ok, invoke_with_hard_deadline,
  lease_budget_timestamp,
}
use quantum_entanglement.Publisher.Attempt.{
  Stop, store_error, cancellation, Attempt, store_call, persist_ambiguity,
  persist_ambiguity_before_cancel, reject_failed, after_reject, with_ambiguity, over_budget,
  after_invocation, publish_one,
}

-- The message is stored as published.
abbrev pub is_published : String → Outbox → Bool
is_published k db = any (λ x. x.message_id == k && has_status published x) db.messages

-- The connector answered with a valid receipt that accepts the message.
abbrev pub Accepts : (String → Bool) → Response → Type 0
Accepts blank response =
    (r : PublishReceipt) × (response ≡ answered r)
    × (receipt_ok blank r ≡ true)
    × (r.result ≡ accepted)

delivered_lem :
    (blank : String → Bool) (response : Response)
    → invoke_with_hard_deadline blank response ≡ delivered
    → Accepts blank response
unfolding invoke_with_hard_deadline
delivered_lem blank no_answer h = absurd (ground arith)
delivered_lem blank cancelled_waiting h = absurd (ground arith)
delivered_lem blank other_value h = absurd (ground arith)
delivered_lem blank (failed_with e) h = absurd (ground arith)
delivered_lem blank (answered r) h = (r, refl, ground arith, ground arith)

pub store_call_lem :
    {A : Type 0} (P : Outbox → Type 0) (c : StoreCall) (out : A × Outbox) (db : Outbox)
    → P db
    → P out.1
    → P (store_call c out db).1
store_call_lem P c out db before after = elim (Bool-cases c.raises) [
  | inl raised ↦ rw raised before
  | inr ran ↦ rw ran after
]

pub after_reject-state :
    (dead : Bool) (out : Result Stop Bool × Outbox) → (after_reject dead out).1 ≡ out.1
after_reject-state dead (err store_error, db) = refl
after_reject-state dead (err cancellation, db) = refl
after_reject-state dead (ok false, db) = refl
after_reject-state dead (ok true, db) = refl

pub with_ambiguity-state :
    (o : AttemptOutcome) (out : Result Stop Bool × Outbox) → (with_ambiguity o out).1 ≡ out.1
with_ambiguity-state o (ok persisted, db) = refl
with_ambiguity-state o (err stop, db) = refl

pub over_budget-state : (out : Result Stop AttemptOutcome × Outbox) → (over_budget out).1 ≡ out.1
over_budget-state (ok o, db) = refl
over_budget-state (err stop, db) = refl

unpublished-update :
    (k : String) (q : OutboxRow → Bool) (dead : Bool) (at e : String) (xs : List OutboxRow)
    → any (λ x. x.message_id == k && has_status published x) xs ≡ false
    → any
        (λ x. x.message_id == k && has_status published x)
        (update_where q (return_row dead at e) xs)
      ≡ false
unpublished-update k q dead at e [] h = refl
unpublished-update k q true at e (x ∷ xs) h = ground (arith, unpublished-update k q true at e xs)
unpublished-update k q false at e (x ∷ xs) h = ground (arith, unpublished-update k q false at e xs)

module _ (p : Publisher) (a : Attempt) (row : OutboxRow) (k : String) where
  abbrev Unpublished : Outbox → Type 0
  Unpublished db = is_published k db ≡ false

  reject_failed-Unpublished :
      (e : PublishError) (db : Outbox) → Unpublished db → Unpublished (reject_failed p a row e db).1
  unfolding reject_failed reject_outbox
  reject_failed-Unpublished e db h =
      rw (after_reject-state _ (store_call a.rejects _ db))
        (store_call_lem Unpublished a.rejects _ db h (unpublished-update k _ _ _ _ db.messages h))

  persist_ambiguity-Unpublished :
      (b : Attempt) (reason : String) (db : Outbox)
      → Unpublished db
      → Unpublished (persist_ambiguity p b row reason db).1
  unfolding persist_ambiguity
  persist_ambiguity-Unpublished b reason db h = store_call_lem Unpublished b.marks _ db h (
      rw
        (← (mark_outbox_ambiguous-Marks p.digest row.message_id (or_else row.lease_token "") reason
          b.marked_at db).0)
        h)

  after_invocation-Unpublished :
      (i : Invocation) (db : Outbox)
      → Unpublished db
      → is_published k (after_invocation p a row i db).1 ≡ true
      → i ≡ delivered
  unfolding after_invocation persist_ambiguity_before_cancel
  after_invocation-Unpublished cancelled db h new =
      let same =
        persist_ambiguity-Unpublished (record a { marks = record a.marks { cancels = false } })
          "caller_cancelled" db h in
      absurd (ground (arith, same, new))
  after_invocation-Unpublished abandoned db h new =
      let same : Unpublished (after_invocation p a row abandoned db).1 =
        rw (with_ambiguity-state _ (persist_ambiguity p a row "callback_timeout" db))
          (persist_ambiguity-Unpublished a "callback_timeout" db h) in
      absurd (ground (arith, same, new))
  after_invocation-Unpublished (failed e) db h new =
      absurd (ground (arith, reject_failed-Unpublished e db h, new))
  after_invocation-Unpublished delivered db h new = refl

-- A message becomes published only in an attempt whose connector answered, before its deadline, with a
-- valid receipt that accepts it: no timeout, error, invalid answer or cancellation publishes anything.
pub published_only_accepted :
    (p : Publisher) (a : Attempt) (row : OutboxRow) (k : String) (db : Outbox)
    → is_published k db ≡ false
    → is_published k (publish_one p a row db).1 ≡ true
    → Accepts p.blank a.response
unfolding publish_one
published_only_accepted p a row k db before after =
    elim (Option-cases (lease_budget_timestamp p a.budget_clock row)) [
      | inl short ↦
          let same : is_published k (publish_one p a row db).1 ≡ false =
            rw
              (
                short,
                publish_one,
                over_budget-state (reject_failed p a row lease_budget_exhausted db),
              )
              (reject_failed-Unpublished p a row k lease_budget_exhausted db before) in
          absurd (ground (arith, same, after))
      | inr (at, enough) ↦
          let new : is_published k
                (after_invocation p a row (invoke_with_hard_deadline p.blank a.response) db).1
              ≡ true =
            rw (enough, publish_one) at after in
          delivered_lem p.blank a.response (after_invocation-Unpublished p a row k _ db before new)
    ]
