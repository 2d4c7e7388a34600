-- ===== src/Events/Keep.antt =====
-- What holds of the log, and of every log with one more event, holds after the appends of
-- src/quantum_entanglement/store.py.
use quantum_entanglement.Prelude.{
  ℕ, ◌+◌, String, List, [], ◌∷◌, ◌==◌, Option, all, guard, Gives, Gives-bind, Gives-ok, ◌≡◌,
  transact-keeps, inl, inr, ok,
}
use quantum_entanglement.Events.{
  wrong_stream, concurrency, is_expected, stream_version, DomainEvent, StoredEvent, Log, stored_as,
  insert_event, append_in_transaction, append, append_rows, append_batch, append_many,
}
use quantum_entanglement.Events.Laws.{append_lem, insert_event_lem, new_row}

module _ (P : Log → Type 0) where
  -- An append that kept `P` if its new row does.
  pub append_in_transaction-keeps :
      (e : DomainEvent) (v p : Option ℕ) (log : Log) (out : StoredEvent × Log)
      → P log
      → P (new_row e log ∷ log)
      → append_in_transaction e v p log ≡ ok out
      → P out.1
  append_in_transaction-keeps e v p log out same more done = elim (append_lem e v p log out done) [
    | inl (_, left) ↦ rw left same
    | inr (_, _, _, left) ↦ rw left more
  ]

  pub append_keeps :
      (e : DomainEvent) (v p : Option ℕ) (log : Log)
      → P log
      → P (new_row e log ∷ log)
      → P (append e v p log).1
  unfolding append
  append_keeps e v p log same more =
      transact-keeps P log (append_in_transaction e v p log) same
        (λ out done. append_in_transaction-keeps e v p log out same more done)

  module _
      (insert : (e : DomainEvent) (n : ℕ) (log : Log) → P log → P (stored_as e n log ∷ log)) where
    append_rows_keeps :
        (version : ℕ) (es : List DomainEvent) (log : Log)
        → P log
        → Gives (λ (out : List StoredEvent × Log). P out.1) (append_rows version es log)
    unfolding append_rows
    append_rows_keeps version [] log h = Gives-ok _ ([], log) h
    append_rows_keeps version (e ∷ es) log h =
        Gives-bind _ (insert_event e (version + 1) log) _ λ first inserted.
          let left = (insert_event_lem e (version + 1) log first inserted).1 in
          Gives-bind _ (append_rows (version + 1) es first.1) _ λ others appended.
            Gives-ok _ (first.0 ∷ others.0, others.1)
              (append_rows_keeps (version + 1) es first.1 (rw left (insert e (version + 1) log h))
                others appended)

    pub append_many_keeps :
        (s : String) (es : List DomainEvent) (v : Option ℕ) (log : Log)
        → P log
        → P (append_many s es v log).1
    unfolding append_many append_batch
    append_many_keeps s [] v log h = h
    append_many_keeps s (e ∷ es) v log h = transact-keeps P log _ h (
        Gives-bind _ (guard (all (λ e. e.stream_id == s) (e ∷ es)) wrong_stream) _ λ _ _.
          Gives-bind _ (guard (is_expected v (stream_version s log)) concurrency) _
            λ _ _. append_rows_keeps (stream_version s log) (e ∷ es) log h)
