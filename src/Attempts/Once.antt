-- ===== src/Attempts/Once.antt =====
-- The calls of the invocation store (src/quantum_entanglement/attempts.py) in any order, as they reach
-- one database one after the other.
pub mod Rows
pub mod Update
pub mod Laws
pub mod Fence
pub mod Final
use quantum_entanglement.Prelude.{ℕ, String, Option, List, [], ◌∷◌}
use quantum_entanglement.Attempts.Rows.{InvocationJob, InvocationLease, Store}
use quantum_entanglement.Attempts.Enqueue.{InvocationJobSpec, enqueue}
use quantum_entanglement.Attempts.Enqueue.Laws.{enqueue-Nexts}
use quantum_entanglement.Attempts.Owner.{heartbeat, complete, fail}
use quantum_entanglement.Attempts.Owner.Laws.{owner-Nexts}
use quantum_entanglement.Attempts.Recover.{recover_expired}
use quantum_entanglement.Attempts.Recover.Laws.{recover-Nexts}
use quantum_entanglement.Attempts.Claim.{ClaimRequest, claim}
use quantum_entanglement.Attempts.Claim.Laws.{claim-Nexts}
use quantum_entanglement.Attempts.Life.{Nexts, done, Nexts-trans}

-- A public call with its arguments and the instant that the store's clock showed.
pub data Call : Type 0 where
  enqueued : ℕ → InvocationJobSpec → Call
  claimed : ClaimRequest → ℕ → ℕ → String → String → Call
  beaten : InvocationLease → ℕ → ℕ → Call
  completed : InvocationLease → Option String → ℕ → Call
  gave_up : InvocationLease → String → Option ℕ → ℕ → Call
  recovered : ℕ → ℕ → Call

module _ (digest : String → String) where
  unfoldable pub apply : Call → Store → Store
  apply (enqueued now s) db = (enqueue now s db).1
  apply (claimed r duration now attempt_id token) db =
      (claim digest r duration now attempt_id token db).1
  apply (beaten l duration now) db = (heartbeat digest l duration now db).1
  apply (completed l result_ref now) db = (complete digest l result_ref now db).1
  apply (gave_up l error retry_at now) db = (fail digest l error retry_at now db).1
  apply (recovered limit now) db = (recover_expired limit now db).1

  unfoldable pub run : List Call → Store → Store
  run [] db = db
  run (c ∷ cs) db = run cs (apply c db)
