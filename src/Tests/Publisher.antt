-- ===== src/Tests/Publisher.antt =====
-- The theorems on the publisher (src/quantum_entanglement/publisher.py) at concrete attempts.
use Prim.Native.Nat.{min}
use quantum_entanglement.Prelude.{◌-◌, ◌*◌, true, false, [], ◌∷◌, ◌==◌, none, some, ◌≡◌, ◌≤◌, refl}
use quantum_entanglement.Outbox.{Outbox}
use quantum_entanglement.Outbox.Lease.{acknowledge_outbox}
use quantum_entanglement.Publisher.{
  Publisher, PublishReceipt, accepted, Response, answered, no_answer, StoreCall, receipt_ok,
  invoke_with_hard_deadline, lease_budget_timestamp, valid_ack_timestamp,
}
use quantum_entanglement.Publisher.Retry.{power, capped_delay, retry_delay, retry_delay_lem}
use quantum_entanglement.Publisher.Attempt.{
  Attempt, publish_one, after_invocation, acknowledge_accepted, after_acknowledge,
}
use quantum_entanglement.Publisher.Accepted.{is_published, Accepts, published_only_accepted}
use quantum_entanglement.Publisher.Settles.{Holds, Decided, publish_one-Decided}
use quantum_entanglement.Tests.Delivery.{julianday, held}

abbrev publisher : Publisher
publisher = record {
  worker_id = "p";
  batch_size = 8;
  max_callback_tasks = 4;
  publish_timeout = 3;
  max_attempts = 5;
  base_retry_delay = 1;
  max_retry_delay = 4;
  jitter = λ n. none;
  parse_timestamp = julianday;
  timestamp = λ n. some "2";
  error_formatter = λ e. none;
  allowed_error_codes = [];
  blank = λ t. t == "";
  julianday = julianday;
  digest = λ token. token;
}

abbrev call : StoreCall
call = record { now = "2"; raises = false; cancels = false }

abbrev attempt : Response → Attempt
attempt response = record {
  budget_clock = some 1;
  response = response;
  ack_clock = some 2;
  retry_clock = some 2;
  acknowledges = call;
  rejects = call;
  marks = call;
  marked_at = "2";
}

abbrev receipt : PublishReceipt
receipt = record { result = accepted; receipt_id = some "r1"; reason_code = none }

abbrev box : Outbox
box = record { messages = held ∷ []; ambiguities = [] }

retry_delay_lem_example :
    (capped_delay publisher 3 ≡ min 4 (1 * power (3 - 1)))
    × (retry_delay publisher 3 ≤ capped_delay publisher 3)
retry_delay_lem_example = retry_delay_lem publisher 3 refl

publishes : is_published "m1" (publish_one publisher (attempt (answered receipt)) held box).1 ≡ true
unfolding publish_one after_invocation acknowledge_accepted after_acknowledge acknowledge_outbox
    lease_budget_timestamp valid_ack_timestamp invoke_with_hard_deadline receipt_ok
publishes = refl

published_only_accepted_example : Accepts (λ t. t == "") (answered receipt)
published_only_accepted_example =
    published_only_accepted publisher (attempt (answered receipt)) held "m1" box refl publishes

holds : Holds publisher held "p:a" box
holds = record {
  stored = refl;
  in_flight = refl;
  token_of = refl;
  given = refl;
  started = refl;
  free = refl;
  unmarked = refl;
}

publish_one-Decided_example :
    Decided publisher held (publish_one publisher (attempt no_answer) held box).1
publish_one-Decided_example =
    publish_one-Decided publisher (attempt no_answer) held "p:a" box holds refl (refl, refl)
      (refl, refl)
