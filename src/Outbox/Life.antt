-- ===== src/Outbox/Life.antt =====
-- The life of an outbox row (src/quantum_entanglement/store.py), and the effect of each call on the rows.
use Prim.Native.String.{◌++◌ as ◌<>◌}
use quantum_entanglement.Prelude.{
  ℕ, ◌+◌, String, Bool, true, false, ◌||◌, List, [], ◌∷◌, ◌==◌, none, find, or_raise, Gives,
  Gives-bind, Gives-ok, All, All-rows, All-imp, ◌≡◌, refl, arith,
}
use quantum_entanglement.Prelude.Table.{update_where, All-update}
use quantum_entanglement.Prelude.Moves.{Grows, done, evolve, Evolves-update, Grows-trans}
use quantum_entanglement.Outbox.{
  pending, OutboxStatus, OutboxRow, disappeared, is_in_flight, is_waiting, lease_row, publish_row,
  return_row,
}
use quantum_entanglement.Outbox.Lease.{lease_rows}

-- The columns that no call writes.
pub record SameMessage (x y : OutboxRow) : Type 0 where
  pub message_id : y.message_id ≡ x.message_id
  pub destination : y.destination ≡ x.destination
  pub payload : y.payload ≡ x.payload
  pub headers : y.headers ≡ x.headers
  pub idempotency_key : y.idempotency_key ≡ x.idempotency_key
  pub triggering_event_id : y.triggering_event_id ≡ x.triggering_event_id
  pub triggering_global_position : y.triggering_global_position ≡ x.triggering_global_position
  pub created_at : y.created_at ≡ x.created_at

-- A row that waits, or that a publisher holds.
abbrev pub is_unsettled : OutboxStatus → Bool
is_unsettled s = is_waiting s || is_in_flight s

-- One move of a row.
pub data RowMove (x y : OutboxRow) : Type 0 where
  -- A publisher leases it; a row in flight is leased again when its lease ran out.
  lease :
      SameMessage x y
      → is_unsettled x.status ≡ true
      → is_in_flight y.status ≡ true
      → y.attempt_count ≡ x.attempt_count + 1
      → RowMove x y
  -- The lease ends: published, given back, or given up.
  settle :
      SameMessage x y
      → is_in_flight x.status ≡ true
      → is_in_flight y.status ≡ false
      → y.attempt_count ≡ x.attempt_count
      → y.lease_token ≡ none
      → RowMove x y

abbrev pub id_of : OutboxRow → String
id_of x = x.message_id

-- A message that is added waits, and was never leased.
abbrev pub IsFresh : OutboxRow → Type 0
IsFresh x = (x.status ≡ pending) × (x.attempt_count ≡ 0)

abbrev pub Lives : List OutboxRow → List OutboxRow → Type 0
Lives = Grows id_of RowMove IsFresh

lease_row-RowMove :
    (token deadline : String) (x : OutboxRow)
    → is_unsettled x.status ≡ true
    → RowMove x (lease_row token deadline x)
lease_row-RowMove token deadline x active =
    lease
      (record {
        message_id = refl;
        destination = refl;
        payload = refl;
        headers = refl;
        idempotency_key = refl;
        triggering_event_id = refl;
        triggering_global_position = refl;
        created_at = refl;
      })
      active refl refl

pub publish_row-RowMove :
    (at : String) (x : OutboxRow) → is_in_flight x.status ≡ true → RowMove x (publish_row at x)
publish_row-RowMove at x held = settle (ground arith) held refl refl refl

pub return_row-RowMove :
    (dead : Bool) (at error : String) (x : OutboxRow)
    → is_in_flight x.status ≡ true
    → RowMove x (return_row dead at error x)
return_row-RowMove true at error x held = settle (ground arith) held refl refl refl
return_row-RowMove false at error x held = settle (ground arith) held refl refl refl

pub Lives-update :
    (p : OutboxRow → Bool) (f : OutboxRow → OutboxRow) (xs : List OutboxRow)
    → ((x : OutboxRow) → p x ≡ true → RowMove x (f x))
    → Lives xs (update_where p f xs)
Lives-update p f xs moves =
    evolve (Evolves-update RowMove (λ _. Unit {0}) p f xs (λ x _ h. moves x h) (All-rows xs)) done

-- Every row with the id of the row waits or is held.
abbrev pub AllActive : List OutboxRow → OutboxRow → Type 0
AllActive table x =
    All (λ (y : OutboxRow). (y.message_id == x.message_id) ≡ true → is_unsettled y.status ≡ true)
      table

pub lease_rows-Lives :
    (worker_id : String) (lease_id : ℕ → String) (deadline : String) (xs : List OutboxRow) (n : ℕ)
    (table : List OutboxRow)
    → All (AllActive table) xs
    → Gives
        (λ (out : List OutboxRow × List OutboxRow). Lives table out.1)
        (lease_rows worker_id lease_id deadline xs n table)
unfolding lease_rows
lease_rows-Lives worker_id lease_id deadline [] n table active = Gives-ok _ ([], table) done
lease_rows-Lives worker_id lease_id deadline (x ∷ xs) n table active =
    let p = λ (y : OutboxRow). y.message_id == x.message_id in
    let f = lease_row (worker_id <> ":" <> lease_id n) deadline in
    let first : Lives table (update_where p f table) =
      evolve
        (Evolves-update RowMove _ p f table (λ y h hit. lease_row-RowMove _ deadline y (h hit))
          active.0)
        done in
    let still : All (AllActive (update_where p f table)) xs =
      All-imp _ _ xs (λ z h. All-update _ p f table (λ y _ _ _. refl) h) active.1 in
    Gives-bind _ (or_raise (find p (update_where p f table)) disappeared) _ λ updated _.
      Gives-bind _ (lease_rows worker_id lease_id deadline xs (n + 1) (update_where p f table)) _
        λ rest left.
          Gives-ok _ (updated ∷ rest.0, rest.1)
            (Grows-trans id_of RowMove IsFresh first (
              lease_rows-Lives worker_id lease_id deadline xs (n + 1) (update_where p f table) still
                rest left))
