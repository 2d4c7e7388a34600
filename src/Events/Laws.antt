-- ===== src/Events/Laws.antt =====
-- The numbers, the retry keys and the expected versions of appends (src/quantum_entanglement/store.py).
use quantum_entanglement.Prelude.{
  ℕ, ◌+◌, max, String, true, false, not, List, [], ◌∷◌, ◌==◌, Option, none, some, any, all, find,
  length, eqb, ok, err, guard, Gives, Gives-bind, Gives-ok, guard-eq_ok, transact-eq_ok,
  Option-cases, Bool-cases, ◌≡◌, refl, sym, ap, ◌∙◌, ◌⊎◌, transact-keeps, arith, eq_iff, eq_refl,
  inl, inr, both,
}
use quantum_entanglement.Prelude.Table.{count_where}
use quantum_entanglement.Events.{
  concurrency, constraint, wrong_stream, DomainEvent, StoredEvent, Log, stream_version,
  last_position, has_key, existing, is_expected, clashes, stored_as, insert_event, append_new,
  append_in_transaction, append, append_rows, append_batch, append_many,
}

-- How many events of the stream the log holds.
abbrev pub events_of : String → Log → ℕ
events_of s log = count_where (λ e. e.event.stream_id == s) log

-- Every event has the number that follows those of its stream, and of the log.
abbrev pub IsGapless : Log → Type 0
IsGapless [] = Unit
IsGapless (e ∷ log) =
    (e.sequence ≡ events_of e.event.stream_id log + 1)
    × ((e.global_position ≡ length log + 1) × IsGapless log)

IsGapless-stream_version :
    (s : String) (log : Log) → IsGapless log → stream_version s log ≡ events_of s log
unfolding stream_version
IsGapless-stream_version s [] h = refl
IsGapless-stream_version s (e ∷ log) h =
    ground (arith, IsGapless-stream_version s log, h.0, eq_iff e.event.stream_id s)

pub IsGapless-last_position : (log : Log) → IsGapless log → last_position log ≡ length log
unfolding last_position
IsGapless-last_position [] h = refl
IsGapless-last_position (e ∷ log) h =
    let rest = IsGapless-last_position log h.1.1 in omega (arith, h.1.0, rest)

pub stored_as-IsGapless :
    (e : DomainEvent) (n : ℕ) (log : Log)
    → n ≡ stream_version e.stream_id log + 1
    → IsGapless log
    → IsGapless (stored_as e n log ∷ log)
stored_as-IsGapless e n log next h = (
  next ∙ ap (λ (v : ℕ). v + 1) (IsGapless-stream_version e.stream_id log h),
  (ap (λ (v : ℕ). v + 1) (IsGapless-last_position log h), h),
)

-- What an INSERT that returned left.
pub insert_event_lem :
    (e : DomainEvent) (n : ℕ) (log : Log)
    → Gives
        (λ (out : StoredEvent × Log).
          (out.0 ≡ stored_as e n log) × (out.1 ≡ stored_as e n log ∷ log))
        (insert_event e n log)
unfolding insert_event
insert_event_lem e n log =
    Gives-bind _ (guard (not (any (clashes e n) log)) constraint) _
      λ _ _. Gives-ok _ (stored_as e n log, stored_as e n log ∷ log) (refl, refl)

abbrev pub new_row : DomainEvent → Log → StoredEvent
new_row e log = stored_as e (stream_version e.stream_id log + 1) log

pub append_new_lem :
    (e : DomainEvent) (v p : Option ℕ) (log : Log)
    → Gives
        (λ (out : StoredEvent × Log).
          (is_expected v (stream_version e.stream_id log) ≡ true)
          × (out.0 ≡ new_row e log)
          × (out.1 ≡ new_row e log ∷ log))
        (append_new e v p log)
unfolding append_new
append_new_lem e v p log =
    Gives-bind _ (guard (is_expected p (last_position log)) concurrency) _ λ _ _.
      Gives-bind _ (guard (is_expected v (stream_version e.stream_id log)) concurrency) _
        λ u tested. λ out inserted.
          let facts = insert_event_lem e (stream_version e.stream_id log + 1) log out inserted in
          (guard-eq_ok _ concurrency u tested, facts.0, facts.1)

-- The two ways in which an append returns: a retry, or a new row.
pub append_lem :
    (e : DomainEvent) (v p : Option ℕ) (log : Log) (out : StoredEvent × Log)
    → append_in_transaction e v p log ≡ ok out
    → ((existing e log ≡ some out.0) × (out.1 ≡ log))
      ⊎ ((existing e log ≡ none)
          × (is_expected v (stream_version e.stream_id log) ≡ true)
          × (out.0 ≡ new_row e log)
          × (out.1 ≡ new_row e log ∷ log))
unfolding append_in_transaction
append_lem e v p log out h = elim (Option-cases (existing e log)) [
  | inl new ↦
      let appended : append_new e v p log ≡ ok out = rw (new, append_in_transaction) at h in
      let facts = append_new_lem e v p log out appended in inr (new, facts.0, facts.1, facts.2)
  | inr (old, found) ↦
      let same : ok (old, log) ≡ ok out = rw (found, append_in_transaction) at h in
      inl (found ∙ ground arith, ground arith)
]

pub append-IsGapless :
    (e : DomainEvent) (v p : Option ℕ) (log : Log) → IsGapless log → IsGapless (append e v p log).1
unfolding append
append-IsGapless e v p log h =
    transact-keeps IsGapless log (append_in_transaction e v p log) h λ out done.
      elim (append_lem e v p log out done) [
        | inl (_, same) ↦ rw same h
        | inr (_, _, _, left) ↦ rw left (stored_as-IsGapless e _ log refl h)
      ]

stream_version-stored_as :
    (s : String) (e : DomainEvent) (n : ℕ) (log : Log)
    → e.stream_id ≡ s
    → stream_version s (stored_as e n log ∷ log) ≡ max n (stream_version s log)
unfolding stream_version
stream_version-stored_as s e n log same = rw (same, eq_refl s) refl

pub existing-key :
    (e : DomainEvent) (k : String) (log : Log)
    → e.idempotency_key ≡ some k
    → existing e log ≡ find (has_key e.stream_id k) log
unfolding existing
existing-key e k log key = rw key refl

-- A stored event is found by its key.
pub found_stored :
    (e : DomainEvent) (n : ℕ) (k : String) (log : Log)
    → e.idempotency_key ≡ some k
    → find (has_key e.stream_id k) (stored_as e n log ∷ log) ≡ some (stored_as e n log)
found_stored e n k log key = rw (key, eq_refl e.stream_id, eq_refl k) refl

refused_late :
    (e : DomainEvent) (v : ℕ) (p : Option ℕ) (log : Log)
    → eqb v (stream_version e.stream_id log) ≡ false
    → append_new e (some v) p log ≡ err concurrency
unfolding append_new
refused_late e v p log late = elim (Bool-cases (is_expected p (last_position log))) [
  | inl tested ↦ rw (tested, late) refl
  | inr moved ↦ rw moved refl
]

pub append_rows-IsGapless :
    (s : String) (version : ℕ) (es : List DomainEvent) (log : Log)
    → all (λ e. e.stream_id == s) es ≡ true
    → version ≡ stream_version s log
    → IsGapless log
    → Gives (λ (out : List StoredEvent × Log). IsGapless out.1) (append_rows version es log)
unfolding append_rows
append_rows-IsGapless s version [] log one next h = Gives-ok _ ([], log) h
append_rows-IsGapless s version (e ∷ es) log one next h =
    let (here, rest) = both (e.stream_id == s) _ one in
    let stream : e.stream_id ≡ s = ground (arith, eq_iff e.stream_id s) in
    let number : version + 1 ≡ stream_version e.stream_id log + 1 =
      rw stream (ap (λ (v : ℕ). v + 1) next) in
    let new = stored_as-IsGapless e (version + 1) log number h in
    Gives-bind _ (insert_event e (version + 1) log) _ λ first inserted.
      let left = (insert_event_lem e (version + 1) log first inserted).1 in
      let grown : version + 1 ≡ stream_version s (stored_as e (version + 1) log ∷ log) =
        omega (arith, stream_version-stored_as s e (version + 1) log stream, next) in
      Gives-bind _ (append_rows (version + 1) es first.1) _ λ others appended.
        Gives-ok _ (first.0 ∷ others.0, others.1)
          (append_rows-IsGapless s (version + 1) es first.1 rest (rw left grown) (rw left new)
            others appended)

pub append_many-IsGapless :
    (s : String) (es : List DomainEvent) (v : Option ℕ) (log : Log)
    → IsGapless log
    → IsGapless (append_many s es v log).1
unfolding append_many append_batch
append_many-IsGapless s [] v log h = h
append_many-IsGapless s (e ∷ es) v log h = transact-keeps IsGapless log _ h (
    Gives-bind _ (guard (all (λ e. e.stream_id == s) (e ∷ es)) wrong_stream) _ λ u one.
      Gives-bind _ (guard (is_expected v (stream_version s log)) concurrency) _ λ _ _.
        append_rows-IsGapless s (stream_version s log) (e ∷ es) log
          (guard-eq_ok _ wrong_stream u one) refl h)

-- A retry key names one event: after an append with a key that returned, every append with that key
-- on that stream, whatever else it carries, returns the same event and leaves the log as it is.
pub append_retry :
    (e e' : DomainEvent) (v p v' p' : Option ℕ) (k : String) (log log' : Log) (stored : StoredEvent)
    → e.idempotency_key ≡ some k
    → e'.stream_id ≡ e.stream_id
    → e'.idempotency_key ≡ some k
    → append e v p log ≡ (ok stored, log')
    → append e' v' p' log' ≡ (ok stored, log')
unfolding append append_in_transaction
append_retry e e' v p v' p' k log log' stored key stream key' done =
    let returned = transact-eq_ok log (append_in_transaction e v p log) stored log' done in
    let same_search : existing e' log' ≡ find (has_key e.stream_id k) log' =
      existing-key e' k log' key' ∙ ap (λ s. find (has_key s k) log') stream in
    let found : find (has_key e.stream_id k) log' ≡ some stored =
      elim (append_lem e v p log (stored, log') returned) [
        | inl (old, same) ↦ rw same (sym (existing-key e k log key) ∙ old)
        | inr (_, _, row, left) ↦ rw (left, row) (found_stored e _ k log key)
      ] in
    let again : append_in_transaction e' v' p' log' ≡ ok (stored, log') =
      rw (same_search ∙ found, append_in_transaction) refl in
    rw again refl

-- One winner for a version: after an append of a new event that expected a version returned, an append
-- of another new event to the stream that expects the same version raises, and changes nothing.
pub append_race :
    (e e' : DomainEvent) (v : ℕ) (p p' : Option ℕ) (log log' : Log) (stored : StoredEvent)
    → existing e log ≡ none
    → append e (some v) p log ≡ (ok stored, log')
    → e'.stream_id ≡ e.stream_id
    → existing e' log' ≡ none
    → append e' (some v) p' log' ≡ (err concurrency, log')
unfolding append append_in_transaction
append_race e e' v p p' log log' stored new done stream new' =
    let returned = transact-eq_ok log (append_in_transaction e (some v) p log) stored log' done in
    elim (append_lem e (some v) p log (stored, log') returned) [
      | inl (old, _) ↦ absurd (ground (arith, new, old))
      | inr (_, expected, _, left) ↦
          let grown =
            stream_version-stored_as e'.stream_id e (stream_version e.stream_id log + 1) log
              (sym stream) in
          let late : eqb v (stream_version e'.stream_id log') ≡ false =
            rw left (ground (arith, grown, stream, expected)) in
          let refused : append_in_transaction e' (some v) p' log' ≡ err concurrency =
            rw (new', append_in_transaction) (refused_late e' v p' log' late) in
          rw refused refl
    ]
