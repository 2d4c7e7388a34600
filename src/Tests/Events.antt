-- ===== src/Tests/Events.antt =====
-- The theorems on the event log (src/quantum_entanglement/store.py) at concrete events.
use quantum_entanglement.Prelude.{String, [], ◌∷◌, Option, none, some, ok, err, ◌≡◌, refl}
use quantum_entanglement.Events.{
  DomainEvent, StoredEvent, concurrency, stored_as, existing, stream_version, last_position,
  insert_event, append_new, append_in_transaction, append,
}
use quantum_entanglement.Events.Laws.{IsGapless, append_retry, append_race}
use quantum_entanglement.Events.Run.{one, many, run, run-IsGapless}

abbrev event : String → Option String → DomainEvent
event k key = record {
  stream_id = "session:1";
  event_type = "task.ready";
  payload = "{}";
  actor_id = "scheduler";
  event_id = k;
  timestamp = "2026-01-01T00:00:00Z";
  correlation_id = none;
  causation_id = none;
  idempotency_key = key;
}

abbrev first : StoredEvent
first = stored_as (event "e1" (some "k")) 1 []

run-IsGapless_example : IsGapless (
    run
      (one (event "e1" none) none none ∷ many "session:1" (event "e2" none ∷ []) (some 1) ∷ [])
      [])
run-IsGapless_example =
    run-IsGapless
      (one (event "e1" none) none none ∷ many "session:1" (event "e2" none ∷ []) (some 1) ∷ []) []
      tt

appends : append (event "e1" (some "k")) (some 0) none [] ≡ (ok first, first ∷ [])
unfolding append append_in_transaction append_new insert_event existing stream_version last_position
appends = refl

append_retry_example :
    append (event "e9" (some "k")) (some 7) none (first ∷ []) ≡ (ok first, first ∷ [])
append_retry_example =
    append_retry (event "e1" (some "k")) (event "e9" (some "k")) (some 0) none (some 7) none "k" []
      (first ∷ []) first refl refl refl appends

unknown :
    (existing (event "e1" (some "k")) [] ≡ none) × (existing (event "e2" none) (first ∷ []) ≡ none)
unfolding existing
unknown = (refl, refl)

append_race_example :
    append (event "e2" none) (some 0) none (first ∷ []) ≡ (err concurrency, first ∷ [])
append_race_example =
    append_race (event "e1" (some "k")) (event "e2" none) 0 none none [] (first ∷ []) first
      unknown.0 appends refl unknown.1
