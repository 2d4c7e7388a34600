-- ===== src/NeedsYou.antt =====
-- src/quantum_entanglement/policy.py, `ApprovalRequest` and `NeedsYouQueue`: the human inbox.
-- `_clone_request` copies a value whose fields are immutable; over values it is a field-wise copy.
pub mod Laws
use quantum_entanglement.Prelude.{
  String, Bool, true, false, ◌&&◌, ◌||◌, not, List, [], ◌∷◌, ◌==◌, Option, none, some,
  if◌then◌else◌, Result, ok, err, find, select, or_raise, ◌>>=◌,
}
use quantum_entanglement.Prelude.Text.{Dict, get, put, values, opt_eq}
use quantum_entanglement.Protocol.{ApprovalDecision, approve, reject, revise, ActionIntent}

pub record ApprovalRequest : Type 0 where
  pub session_id : String
  pub task_id : String
  pub intent : ActionIntent
  pub reason : String
  pub request_id : String
  pub created_at : String
  pub decision : Option ApprovalDecision
  pub decided_by : Option String
  pub comment : Option String

-- `ApprovalRequest.pending`
abbrev pub is_pending : ApprovalRequest → Bool
is_pending r = elim r.decision [ none ↦ true | some d ↦ false ]

pub data Error : Type 0 where
  key_error already_decided : Error

abbrev pub Queue : Type 0
Queue = Dict ApprovalRequest

abbrev pub clone_request : ApprovalRequest → ApprovalRequest
clone_request r = record {
  session_id = r.session_id;
  task_id = r.task_id;
  intent = r.intent;
  reason = r.reason;
  request_id = r.request_id;
  created_at = r.created_at;
  decision = r.decision;
  decided_by = r.decided_by;
  comment = r.comment;
}

-- The test of `create` for a request that is already waiting on the same task.
abbrev pub waits_for : String → String → ApprovalRequest → Bool
waits_for session task item =
    item.session_id == session && (item.task_id == task && is_pending item)

-- What `create` does with the request that its search found.
abbrev store_or_reuse : Option ApprovalRequest → ApprovalRequest → Queue → ApprovalRequest × Queue
store_or_reuse (some existing) r q = (clone_request existing, q)
store_or_reuse none r q =
    let stored = clone_request r in (clone_request stored, put stored.request_id stored q)

unfoldable pub create : ApprovalRequest → Queue → ApprovalRequest × Queue
create r q = store_or_reuse (find (waits_for r.session_id r.task_id) (values q)) r q

unfoldable pub restore : ApprovalRequest → Queue → ApprovalRequest × Queue
restore r q = let stored = clone_request r in (clone_request stored, put stored.request_id stored q)

unfoldable pub get_request : String → Queue → Result Error ApprovalRequest
get_request k q = do r ← or_raise (get k q) key_error; ok (clone_request r)

-- `pending(session_id)`; no session asks for every session's requests.
unfoldable pub pending : Option String → Queue → List ApprovalRequest
pending none q = select is_pending (values q)
pending (some s) q = select (λ item. is_pending item && item.session_id == s) (values q)

abbrev decision_eq : ApprovalDecision → ApprovalDecision → Bool
decision_eq approve approve = true
decision_eq reject reject = true
decision_eq revise revise = true
decision_eq _ _ = false

-- `request.decision == decision and request.decided_by == actor_id`
abbrev pub same_verdict : ApprovalRequest → ApprovalDecision → String → Bool
same_verdict r d actor = elim r.decision [
  | none ↦ false
  | some old ↦ decision_eq old d && opt_eq r.decided_by (some actor)
]

-- `decide` on the request that it found under the key.
abbrev settle :
    ApprovalRequest
    → String
    → ApprovalDecision
    → String
    → Option String
    → Queue
    → Result Error (ApprovalRequest × Queue)
settle r k d actor comment q =
    if not (is_pending r)
    then if same_verdict r d actor then ok (clone_request r, q) else err already_decided
    else let decided = record r { decision = some d; decided_by = some actor; comment = comment } in
      ok (clone_request decided, put k decided q)

unfoldable pub decide :
    String
    → ApprovalDecision
    → String
    → Option String
    → Queue
    → Result Error (ApprovalRequest × Queue)
decide k d actor comment q = do r ← or_raise (get k q) key_error; settle r k d actor comment q

-- A use of the inbox: a request comes in, an old one is restored, or an actor answers one. An answer that
-- raises changes nothing.
pub data Call : Type 0 where
  ask : ApprovalRequest → Call
  put_back : ApprovalRequest → Call
  answer : String → ApprovalDecision → String → Option String → Call

abbrev pub kept : Queue → Result Error (ApprovalRequest × Queue) → Queue
kept q (ok (r, q')) = q'
kept q (err e) = q

unfoldable pub apply : Call → Queue → Queue
apply (ask r) q = (create r q).1
apply (put_back r) q = (restore r q).1
apply (answer k d actor c) q = kept q (decide k d actor c q)

unfoldable pub run : List Call → Queue → Queue
run [] q = q
run (c ∷ cs) q = run cs (apply c q)
