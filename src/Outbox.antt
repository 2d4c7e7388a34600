-- ===== src/Outbox.antt =====
-- src/quantum_entanglement/store.py, the outbox of `SQLiteEventStore`: `claim_outbox`, `acknowledge_outbox`,
-- `reject_outbox`, `mark_outbox_ambiguous` and `resolve_outbox_ambiguity` on the tables `outbox` and
-- `outbox_ambiguities` (src/quantum_entanglement/delivery.py has the messages). Timestamps are texts.
-- `julianday` is SQLite's function, with no value where it gives NULL; `digest` is SHA-256. The clock,
-- the deadline of a lease and the new lease ids are arguments, and so are timestamps that the source
-- normalizes before the transaction.
pub mod Lease
pub mod Resolve
pub mod Life
pub mod Calls
pub mod Quarantine
pub mod Settled
use quantum_entanglement.Prelude.{
  ℕ, zero, suc, ◌+◌, String, Bool, true, false, ◌&&◌, ◌||◌, not, List, [], ◌∷◌, ◌++◌, ◌==◌, Option,
  none, some, any, all, find, select, take, if◌then◌else◌, eqb, ltb, leb, Result, ok, err, guard,
  or_raise, ◌>>=◌, ◌>>◌, transact,
}
use quantum_entanglement.Prelude.Text.{elem, opt_eq}
use quantum_entanglement.Prelude.Table.{update_where, count_where}

-- `OutboxStatus`
pub data OutboxStatus : Type 0 where
  pending in_flight published dead_letter : OutboxStatus

-- A row of `outbox`, which `_row_to_outbox` reads as a `StoredOutboxMessage`.
pub record OutboxRow : Type 0 where
  pub message_id : String
  pub destination : String
  pub payload : String
  pub headers : String
  pub idempotency_key : String
  pub triggering_event_id : String
  pub triggering_global_position : ℕ
  pub status : OutboxStatus
  pub attempt_count : ℕ
  pub available_at : String
  pub created_at : String
  pub lease_token : Option String
  pub lease_expires_at : Option String
  pub last_error : Option String
  pub published_at : Option String

-- `OutboxAmbiguity`
pub record OutboxAmbiguity : Type 0 where
  pub message_id : String
  pub lease_token_digest : String
  pub reason_code : String
  pub attempt_count : ℕ
  pub marked_at : String
  pub resolution : Option String
  pub resolved_at : Option String

-- The two tables, the rows in the order of their insertion.
pub record Outbox : Type 0 where
  pub messages : List OutboxRow
  pub ambiguities : List OutboxAmbiguity

pub data Error : Type 0 where
  disappeared constraint bad_reason bad_resolution bad_digest integrity bad_limit : Error

abbrev pub is_in_flight : OutboxStatus → Bool
is_in_flight in_flight = true
is_in_flight _ = false

abbrev pub is_waiting : OutboxStatus → Bool
is_waiting pending = true
is_waiting _ = false

-- `resolved_at IS NULL`
abbrev pub is_null : Option String → Bool
is_null none = true
is_null (some t) = false

-- The ambiguities of a message that wait for an operator.
abbrev pub is_open : String → OutboxAmbiguity → Bool
is_open k a = a.message_id == k && is_null a.resolved_at

abbrev pub is_quarantined : String → Outbox → Bool
is_quarantined k db = any (is_open k) db.ambiguities

-- A comparison with NULL does not hold.
abbrev pub not_after : Option ℕ → Option ℕ → Bool
not_after (some a) (some b) = leb a b
not_after _ _ = false

abbrev pub after : Option ℕ → Option ℕ → Bool
after (some a) (some b) = ltb b a
after _ _ = false

abbrev pub or_else : Option String → String → String
or_else none t = t
or_else (some a) t = a

-- The reason codes and the three resolutions that are accepted.
abbrev pub reasons : List String
reasons = "callback_timeout" ∷ "caller_cancelled" ∷ "ack_failed" ∷ "lease_expired_after_accept" ∷ []

-- `resolution`
pub data Resolution : Type 0 where
  as_published as_retry as_dead_letter : Resolution

abbrev pub resolution_text : Resolution → String
resolution_text as_published = "published"
resolution_text as_retry = "retry"
resolution_text as_dead_letter = "dead_letter"

-- The UPDATE of `claim_outbox`.
abbrev pub lease_row : String → String → OutboxRow → OutboxRow
lease_row token deadline x = record x {
  status = in_flight;
  attempt_count = x.attempt_count + 1;
  lease_token = some token;
  lease_expires_at = some deadline;
}

abbrev pub publish_row : String → OutboxRow → OutboxRow
publish_row at x = record x {
  status = published;
  lease_token = none;
  lease_expires_at = none;
  published_at = some at;
  last_error = none;
}

abbrev pub return_row : Bool → String → String → OutboxRow → OutboxRow
return_row dead at error x = record x {
  status = if dead then dead_letter else pending;
  available_at = at;
  lease_token = none;
  lease_expires_at = none;
  last_error = some error;
}

-- `get_outbox`
abbrev pub get_outbox : String → Outbox → Option OutboxRow
get_outbox k db = find (λ x. x.message_id == k) db.messages

abbrev pub has_status : OutboxStatus → OutboxRow → Bool
has_status pending x = is_waiting x.status
has_status in_flight x = is_in_flight x.status
has_status published x = elim x.status [ published ↦ true | _ ↦ false ]
has_status dead_letter x = elim x.status [ dead_letter ↦ true | _ ↦ false ]

-- `read_outbox`, in the order of insertion.
unfoldable pub read_outbox : Option OutboxStatus → Outbox → List OutboxRow
read_outbox none db = db.messages
read_outbox (some status) db = select (has_status status) db.messages

-- `read_outbox_ambiguities`
unfoldable pub read_outbox_ambiguities : Bool → Outbox → List OutboxAmbiguity
read_outbox_ambiguities open_only db =
    if open_only then select (λ a. is_null a.resolved_at) db.ambiguities else db.ambiguities
