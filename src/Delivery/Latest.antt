-- ===== src/Delivery/Latest.antt =====
-- The snapshots over sequences of the event store's calls (src/quantum_entanglement/store.py).
use quantum_entanglement.Prelude.{
  ℕ, String, true, List, [], ◌∷◌, ◌==◌, none, some, leb, if◌then◌else◌, Bool-cases, Option-cases,
  ◌≡◌, refl, arith, eq_iff, inl, inr,
}
use quantum_entanglement.Prelude.Text.{get, get-put, get-put_self}
use quantum_entanglement.Delivery.{Snapshot, Database}
use quantum_entanglement.Delivery.Snapshots.{save_snapshot, load_snapshot}
use quantum_entanglement.Delivery.Writes.{
  append_with_outbox_lem, append_inbox_keeps, save_snapshot_lem,
}
use quantum_entanglement.Delivery.Run.{
  Call, appended, appended_many, with_outbox, inbox, snapshot, claimed, acknowledged, rejected,
  marked, resolved, Platform, apply, run,
}

-- The stored snapshot of the stream is of the sequence or of a later one.
abbrev pub Reaches : String → ℕ → Database → Type 0
Reaches s n db = (row : Snapshot) × (get s db.snapshots ≡ some row) × (leb n row.sequence ≡ true)

-- Saving what no later snapshot stands in the way of, and loading it again, gives it back; otherwise
-- the later snapshot stays, and is loaded. A load of another stream is unaffected.
pub load-save :
    (s : String) (n : ℕ) (state at : String) (t : String) (db : Database)
    → load_snapshot t (save_snapshot s n state at db) ≡ (
        if s == t
        then elim (load_snapshot s db) [
          | none ↦ some (n, state)
          | some (m, old) ↦ if leb m n then some (n, state) else some (m, old)
        ]
        else load_snapshot t db)
unfolding load_snapshot save_snapshot
load-save s n state at t db =
    let row : Snapshot = record { sequence = n; state = state; updated_at = at } in
    elim (Option-cases (get s db.snapshots)) [
      | inl new ↦
          rw (new, save_snapshot, load_snapshot, get-put s t row db.snapshots)
            (ground (arith, new, eq_iff s t))
      | inr (old, found) ↦ elim (Bool-cases (leb old.sequence n)) [
        | inl later ↦
            rw (found, later, save_snapshot, load_snapshot, get-put s t row db.snapshots)
              (ground (arith, found, later, eq_iff s t))
        | inr earlier ↦ elim (Bool-cases (s == t)) [
          | inl same ↦
              let stream : s ≡ t = ground (arith, eq_iff s t) in
              let there : get t db.snapshots ≡ some old = rw stream at found in
              rw (found, earlier, same, there, save_snapshot, load_snapshot) refl
          | inr other ↦ rw (found, earlier, other, save_snapshot) refl
        ]
      ]
    ]

save_snapshot-Reaches :
    (s : String) (n : ℕ) (state at : String) (db : Database)
    → Reaches s n (save_snapshot s n state at db)
unfolding save_snapshot
save_snapshot-Reaches s n state at db =
    let row : Snapshot = record { sequence = n; state = state; updated_at = at } in
    elim (Option-cases (get s db.snapshots)) [
      | inl new ↦ rw (new, save_snapshot) (row, get-put_self s row db.snapshots, ground arith)
      | inr (old, found) ↦ elim (Bool-cases (leb old.sequence n)) [
        | inl later ↦
            rw (found, later, save_snapshot) (row, get-put_self s row db.snapshots, ground arith)
        | inr earlier ↦ rw (found, earlier, save_snapshot) (old, found, ground arith)
      ]
    ]

save_snapshot_keeps :
    (t s : String) (m n : ℕ) (state at : String) (db : Database)
    → Reaches t m db
    → Reaches t m (save_snapshot s n state at db)
save_snapshot_keeps t s m n state at db (row, found, reached) =
    save_snapshot_lem (Reaches t m) s n state at db (row, found, reached)
      λ later.
        let new : Snapshot = record { sequence = n; state = state; updated_at = at } in
        elim (Bool-cases (s == t)) [
          | inl same ↦
              let stream : s ≡ t = ground (arith, eq_iff s t) in
              let reach = later row (rw (← stream) at found) in
              (new, rw (get-put s t new db.snapshots, same) refl, ground arith)
          | inr other ↦ (row, rw (get-put s t new db.snapshots, other) found, reached)
        ]

apply-Reaches :
    (p : Platform) (c : Call) (s : String) (n : ℕ) (db : Database)
    → Reaches s n db
    → Reaches s n (apply p c db)
unfolding apply
apply-Reaches p (appended e v position) s n db h = h
apply-Reaches p (appended_many t es v) s n db h = h
apply-Reaches p (with_outbox e batch v) s n db h =
    append_with_outbox_lem (Reaches s n) e batch v db h (λ _ _ _ _. h)
apply-Reaches p (inbox consumer message e result at v) s n db h =
    append_inbox_keeps (Reaches s n) consumer message e result at v db h (λ _ _. h)
apply-Reaches p (snapshot t m state at) s n db h = save_snapshot_keeps s t n m state at db h
apply-Reaches p (claimed worker limit now deadline ids) s n db h = h
apply-Reaches p (acknowledged k token at now) s n db h = h
apply-Reaches p (rejected k token error at dead now) s n db h = h
apply-Reaches p (marked k token reason at) s n db h = h
apply-Reaches p (resolved k d resolution at retry_at) s n db h = h

run-Reaches :
    (p : Platform) (cs : List Call) (s : String) (n : ℕ) (db : Database)
    → Reaches s n db
    → Reaches s n (run p cs db)
unfolding run
run-Reaches p [] s n db h = h
run-Reaches p (c ∷ cs) s n db h = run-Reaches p cs s n (apply p c db) (apply-Reaches p c s n db h)

-- A snapshot of a stream never goes back: after a save, whatever calls reach the database, the stored
-- snapshot of the stream is of the saved sequence or of a later one.
pub snapshot_never_goes_back :
    (p : Platform) (cs : List Call) (s : String) (n : ℕ) (state at : String) (db : Database)
    → Reaches s n (run p cs (save_snapshot s n state at db))
snapshot_never_goes_back p cs s n state at db =
    run-Reaches p cs s n (save_snapshot s n state at db) (save_snapshot-Reaches s n state at db)
