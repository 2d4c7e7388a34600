-- ===== src/Delivery/Snapshots.antt =====
-- src/quantum_entanglement/store.py: `save_snapshot` and `load_snapshot`.
use quantum_entanglement.Prelude.{ℕ, String, Option, none, some, if◌then◌else◌, leb}
use quantum_entanglement.Prelude.Text.{get, put}
use quantum_entanglement.Delivery.{Snapshot, Database}

-- `save_snapshot`: an older sequence does not replace a newer one.
unfoldable pub save_snapshot : String → ℕ → String → String → Database → Database
save_snapshot s sequence state at db =
    let new : Snapshot = record { sequence = sequence; state = state; updated_at = at } in
    elim (get s db.snapshots) [
      | none ↦ record db { snapshots = put s new db.snapshots }
      | some old ↦
          if leb old.sequence sequence then record db { snapshots = put s new db.snapshots } else db
    ]

-- `load_snapshot`
unfoldable pub load_snapshot : String → Database → Option (ℕ × String)
load_snapshot s db = elim (get s db.snapshots) [
  | none ↦ none
  | some row ↦ some (row.sequence, row.state)
]
