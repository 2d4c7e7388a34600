-- ===== src/Events.antt =====
-- src/quantum_entanglement/store.py, the event log of `SQLiteEventStore`: its table `events`, and the calls
-- `append`, `append_many`, `stream_version` and `get_idempotent_event`. The rows are listed the newest
-- first. A payload is its serialized text.
pub mod Laws
pub mod Keep
pub mod Run
use quantum_entanglement.Prelude.{
  ℕ, ◌+◌, max, String, Bool, true, false, ◌&&◌, ◌||◌, not, List, [], ◌∷◌, ◌==◌, Option, none, some,
  any, all, find, if◌then◌else◌, eqb, ltb, leb, Result, ok, err, guard, ◌>>=◌, ◌>>◌, transact,
}
use quantum_entanglement.Prelude.Text.{opt_eq}

pub data Error : Type 0 where
  concurrency constraint wrong_stream : Error

-- `DomainEvent` (src/quantum_entanglement/events.py)
pub record DomainEvent : Type 0 where
  pub stream_id : String
  pub event_type : String
  pub payload : String
  pub actor_id : String
  pub event_id : String
  pub timestamp : String
  pub correlation_id : Option String
  pub causation_id : Option String
  pub idempotency_key : Option String

pub record StoredEvent : Type 0 where
  pub event : DomainEvent
  pub sequence : ℕ
  pub global_position : ℕ

abbrev pub Log : Type 0
Log = List StoredEvent

-- SELECT COALESCE(MAX(sequence), 0) ... WHERE stream_id = ?
unfoldable pub stream_version : String → Log → ℕ
stream_version s [] = 0
stream_version s (e ∷ log) =
    let rest = stream_version s log in if e.event.stream_id == s then max e.sequence rest else rest

-- SELECT COALESCE(MAX(global_position), 0), which is also the last value that AUTOINCREMENT gave,
-- since no row is ever deleted.
unfoldable pub last_position : Log → ℕ
last_position [] = 0
last_position (e ∷ log) = max e.global_position (last_position log)

-- WHERE stream_id = ? AND idempotency_key = ?
abbrev pub has_key : String → String → StoredEvent → Bool
has_key s k e = e.event.stream_id == s && opt_eq e.event.idempotency_key (some k)

-- `get_idempotent_event`
unfoldable pub get_idempotent_event : String → String → Log → Option StoredEvent
get_idempotent_event s k log = find (has_key s k) log

-- The row of the stream that holds the event's key, if the event has one.
unfoldable pub existing : DomainEvent → Log → Option StoredEvent
existing e log = elim e.idempotency_key [ none ↦ none | some k ↦ find (has_key e.stream_id k) log ]

abbrev pub is_expected : Option ℕ → ℕ → Bool
is_expected none version = true
is_expected (some v) version = eqb v version

abbrev pub same_key : DomainEvent → StoredEvent → Bool
same_key e row =
    row.event.stream_id == e.stream_id
    && elim e.idempotency_key [ none ↦ false | some k ↦ opt_eq row.event.idempotency_key (some k) ]

-- The UNIQUE constraints that an INSERT meets.
abbrev pub clashes : DomainEvent → ℕ → StoredEvent → Bool
clashes e sequence row =
    row.event.event_id == e.event_id
    || (row.event.stream_id == e.stream_id && eqb row.sequence sequence || same_key e row)

abbrev pub stored_as : DomainEvent → ℕ → Log → StoredEvent
stored_as e sequence log = record {
  event = e;
  sequence = sequence;
  global_position = last_position log + 1;
}

-- The INSERT of one event.
unfoldable pub insert_event : DomainEvent → ℕ → Log → Result Error (StoredEvent × Log)
insert_event e sequence log = guard (not (any (clashes e sequence) log)) constraint >>= λ _.
    ok (stored_as e sequence log, stored_as e sequence log ∷ log)

-- The part of `_append_in_transaction` after its search for a retry.
unfoldable pub append_new :
    DomainEvent → Option ℕ → Option ℕ → Log → Result Error (StoredEvent × Log)
append_new e expected_version expected_global_position log =
    guard (is_expected expected_global_position (last_position log)) concurrency >>= λ _.
    guard (is_expected expected_version (stream_version e.stream_id log)) concurrency >>= λ _.
    insert_event e (stream_version e.stream_id log + 1) log

-- `_append_in_transaction`
unfoldable pub append_in_transaction :
    DomainEvent → Option ℕ → Option ℕ → Log → Result Error (StoredEvent × Log)
append_in_transaction e expected_version expected_global_position log = elim (existing e log) [
  | some old ↦ ok (old, log)
  | none ↦ append_new e expected_version expected_global_position log
]

-- `append`
unfoldable pub append : DomainEvent → Option ℕ → Option ℕ → Log → Result Error StoredEvent × Log
append e expected_version expected_global_position log =
    transact log (append_in_transaction e expected_version expected_global_position log)

-- The loop of `append_many`, from the sequence before its first event.
unfoldable pub append_rows : ℕ → List DomainEvent → Log → Result Error (List StoredEvent × Log)
append_rows version [] log = ok ([], log)
append_rows version (e ∷ es) log = insert_event e (version + 1) log >>= λ first.
    append_rows (version + 1) es first.1 >>= λ rest. ok (first.0 ∷ rest.0, rest.1)

-- `append_many` after its checks, on a batch of the declared stream.
unfoldable pub append_batch :
    String → List DomainEvent → Option ℕ → Log → Result Error (List StoredEvent × Log)
append_batch s [] expected_version log = ok ([], log)
append_batch s (e ∷ es) expected_version log =
    guard (is_expected expected_version (stream_version s log)) concurrency >>= λ _.
    append_rows (stream_version s log) (e ∷ es) log

-- `append_many`
unfoldable pub append_many :
    String → List DomainEvent → Option ℕ → Log → Result Error (List StoredEvent) × Log
append_many s es expected_version log = transact log (
    guard (all (λ e. e.stream_id == s) es) wrong_stream >>= λ _.
    append_batch s es expected_version log)
