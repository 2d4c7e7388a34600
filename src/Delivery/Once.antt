-- ===== src/Delivery/Once.antt =====
-- The log and the receipts over sequences of the event store's calls (src/quantum_entanglement/store.py).
use quantum_entanglement.Prelude.{
  ℕ, ◌+◌, String, Bool, true, List, [], ◌∷◌, ◌++◌, Option, none, some, find, leb, ok,
  transact-eq_ok, Bool-cases, Option-cases, eqb_refl, ◌≡◌, refl, sym, ◌∙◌, arith, eq_refl, inl, inr,
}
use quantum_entanglement.Events.{
  DomainEvent, StoredEvent, Log, last_position, stored_as, has_key, existing, append_in_transaction,
  append_many,
}
use quantum_entanglement.Events.Laws.{
  IsGapless, IsGapless-last_position, existing-key, append_lem, append_new_lem,
  append_many-IsGapless, stored_as-IsGapless, new_row,
}
use quantum_entanglement.Events.Keep.{append_in_transaction-keeps, append_keeps, append_many_keeps}
use quantum_entanglement.Delivery.{InboxReceipt, Database}
use quantum_entanglement.Delivery.Inbox.{InboxAppendResult, append_inbox, event_at, is_receipt}
use quantum_entanglement.Delivery.Writes.{
  append_with_outbox_lem, append_inbox_lem, append_inbox_keeps, save_snapshot_lem,
}
use quantum_entanglement.Delivery.Run.{
  Call, appended, appended_many, with_outbox, inbox, snapshot, claimed, acknowledged, rejected,
  marked, resolved, Platform, apply, run,
}

-- What the appends of one event and of a batch keep of the log, every call keeps.
module _ (p : Platform) (P : Log → Type 0)
    (one : (e : DomainEvent) (log : Log) → P log → P (new_row e log ∷ log))
    (many : (s : String) (es : List DomainEvent) (v : Option ℕ) (log : Log)
      → P log
      → P (append_many s es v log).1) where
  apply-log : (c : Call) (db : Database) → P db.log → P (apply p c db).log
  unfolding apply
  apply-log (appended e v position) db h = append_keeps P e v position db.log h (one e db.log h)
  apply-log (appended_many s es v) db h = many s es v db.log h
  apply-log (with_outbox e batch v) db h =
      append_with_outbox_lem (λ out. P out.log) e batch v db h
        λ appended rows done _.
          let left = (append_new_lem e v none db.log appended done).2 in rw left (one e db.log h)
  apply-log (inbox consumer message e result at v) db h =
      append_inbox_keeps (λ out. P out.log) consumer message e result at v db h
        (λ appended. append_in_transaction-keeps P e v none db.log appended h (one e db.log h))
  apply-log (snapshot s n state at) db h =
      save_snapshot_lem (λ out. P out.log) s n state at db h (λ _. h)
  apply-log (claimed worker limit now deadline ids) db h = h
  apply-log (acknowledged k token at now) db h = h
  apply-log (rejected k token error at dead now) db h = h
  apply-log (marked k token reason at) db h = h
  apply-log (resolved k d resolution at retry_at) db h = h

  run-log : (cs : List Call) (db : Database) → P db.log → P (run p cs db).log
  unfolding run
  run-log [] db h = h
  run-log (c ∷ cs) db h = run-log cs (apply p c db) (apply-log c db h)

-- Whatever calls reach the database, those that write other tables with an event included: the events
-- keep the numbers and the positions that follow the older ones, without a gap or a repeat.
pub whole_run-IsGapless :
    (p : Platform) (cs : List Call) (db : Database) → IsGapless db.log → IsGapless (run p cs db).log
whole_run-IsGapless p cs db h =
    run-log p IsGapless (λ e log. stored_as-IsGapless e _ log refl) append_many-IsGapless cs db h

found-position :
    (position : ℕ) (e : StoredEvent) (log : Log)
    → event_at position log ≡ some e
    → leb position (last_position log) ≡ true
unfolding event_at last_position
found-position position e [] h = cc
found-position position e (x ∷ log) h = ground (arith, found-position position e log)

-- A stored event stays at its position.
event_at-stored_as :
    (position : ℕ) (stored : StoredEvent) (e : DomainEvent) (n : ℕ) (log : Log)
    → event_at position log ≡ some stored
    → event_at position (stored_as e n log ∷ log) ≡ some stored
unfolding event_at
event_at-stored_as position stored e n log h =
    ground (arith, found-position position stored log h, h)

run-event_at :
    (p : Platform) (cs : List Call) (db : Database) (position : ℕ) (stored : StoredEvent)
    → event_at position db.log ≡ some stored
    → event_at position (run p cs db).log ≡ some stored
run-event_at p cs db position stored h =
    run-log p (λ log. event_at position log ≡ some stored)
      (λ e log. event_at-stored_as position stored e _ log)
      (append_many_keeps (λ log. event_at position log ≡ some stored)
        (event_at-stored_as position stored))
      cs db h

find-append :
    {A : Type 0} (q : A → Bool) (xs : List A) (x y : A)
    → find q xs ≡ some x
    → find q (xs ++ y ∷ []) ≡ some x
find-append q [] x y h = cc
find-append q (z ∷ zs) x y h = ground (arith, find-append q zs x y)

find_last :
    {A : Type 0} (q : A → Bool) (xs : List A) (y : A)
    → find q xs ≡ none
    → q y ≡ true
    → find q (xs ++ y ∷ []) ≡ some y
find_last q [] y h hit = ground arith
find_last q (z ∷ zs) y h hit = ground (arith, find_last q zs y)

-- The receipt of a message stays the first one of its consumer and message.
apply-receipt :
    (p : Platform) (c : Call) (consumer message : String) (r : InboxReceipt) (db : Database)
    → find (is_receipt consumer message) db.receipts ≡ some r
    → find (is_receipt consumer message) (apply p c db).receipts ≡ some r
unfolding apply
apply-receipt p (appended e v position) consumer message r db h = h
apply-receipt p (appended_many s es v) consumer message r db h = h
apply-receipt p (with_outbox e batch v) consumer message r db h =
    append_with_outbox_lem (λ out. find (is_receipt consumer message) out.receipts ≡ some r) e batch
      v db h (λ _ _ _ _. h)
apply-receipt p (inbox c m e result at v) consumer message r db h =
    append_inbox_keeps (λ out. find (is_receipt consumer message) out.receipts ≡ some r) c m e
      result at v db h (λ appended _. find-append (is_receipt consumer message) db.receipts r _ h)
apply-receipt p (snapshot s n state at) consumer message r db h =
    save_snapshot_lem (λ out. find (is_receipt consumer message) out.receipts ≡ some r) s n state at
      db h (λ _. h)
apply-receipt p (claimed worker limit now deadline ids) consumer message r db h = h
apply-receipt p (acknowledged k token at now) consumer message r db h = h
apply-receipt p (rejected k token error at dead now) consumer message r db h = h
apply-receipt p (marked k token reason at) consumer message r db h = h
apply-receipt p (resolved k d resolution at retry_at) consumer message r db h = h

run-receipt :
    (p : Platform) (cs : List Call) (consumer message : String) (r : InboxReceipt) (db : Database)
    → find (is_receipt consumer message) db.receipts ≡ some r
    → find (is_receipt consumer message) (run p cs db).receipts ≡ some r
unfolding run
run-receipt p [] consumer message r db h = h
run-receipt p (c ∷ cs) consumer message r db h =
    run-receipt p cs consumer message r (apply p c db) (apply-receipt p c consumer message r db h)

-- In a log without gaps, a row that a search finds is the row at its position.
found-event_at :
    (q : StoredEvent → Bool) (stored : StoredEvent) (log : Log)
    → IsGapless log
    → find q log ≡ some stored
    → event_at stored.global_position log ≡ some stored
unfolding event_at
found-event_at q stored [] gapless h = cc
found-event_at q stored (x ∷ log) gapless h = elim (Bool-cases (q x)) [
  | inl hit ↦
      let same : x ≡ stored = ground (arith, h, hit) in
      rw (same, eqb_refl stored.global_position) refl
  | inr miss ↦
      let rest = found-event_at q stored log gapless.1.1 (ground (arith, h, miss)) in
      let low = found-position stored.global_position stored log rest in
      let last = IsGapless-last_position log gapless.1.1 in
      let next = gapless.1.0 in ground (arith, rest, low, last, next)
]

existing-event_at :
    (e : DomainEvent) (stored : StoredEvent) (log : Log)
    → IsGapless log
    → existing e log ≡ some stored
    → event_at stored.global_position log ≡ some stored
unfolding existing
existing-event_at e stored log gapless h = elim (Option-cases e.idempotency_key) [
  | inl none_given ↦
      let nothing : none ≡ some stored = rw (none_given, existing) at h in absurd (ground arith)
  | inr (k, key) ↦
      found-event_at (has_key e.stream_id k) stored log gapless (sym (existing-key e k log key) ∙ h)
]

-- What an append returned stands at its position.
append-event_at :
    (e : DomainEvent) (v : Option ℕ) (log : Log) (out : StoredEvent × Log)
    → IsGapless log
    → append_in_transaction e v none log ≡ ok out
    → event_at out.0.global_position out.1 ≡ some out.0
unfolding event_at
append-event_at e v log out gapless done = elim (append_lem e v none log out done) [
  | inl (old, left) ↦ rw left (existing-event_at e out.0 log gapless old)
  | inr (_, _, row, left) ↦ rw (left, row, eqb_refl (last_position log + 1)) refl
]

-- The receipt of the message, and the event that it names.
abbrev Received : String → String → InboxAppendResult → Database → Type 0
Received consumer message out db =
    (find (is_receipt consumer message) db.receipts ≡ some out.receipt)
    × (event_at out.receipt.event_global_position db.log ≡ some out.event)

append_inbox-Received :
    (consumer message : String) (e : DomainEvent) (result at : String) (v : Option ℕ)
    (db db' : Database) (out : InboxAppendResult)
    → IsGapless db.log
    → append_inbox consumer message e result at v db ≡ (ok out, db')
    → Received consumer message out db'
unfolding append_inbox
append_inbox-Received consumer message e result at v db db' out gapless done =
    append_inbox_lem (λ found. Received consumer message found.0 found.1) consumer message e result
      at v db (λ r stored found there. (found, there))
      (λ appended fresh returned. (
        find_last (is_receipt consumer message) db.receipts _ fresh
            (rw (eq_refl consumer, eq_refl message) refl),
        append-event_at e v db.log appended gapless returned,
      ))
      (out, db') (transact-eq_ok db _ out db' done)

-- A message is processed once: after an append of a consumer's message returned, whatever calls reach
-- the database, an append of that message by that consumer, with whatever event and result, returns the
-- event and the receipt of the first one as a duplicate, and writes nothing.
pub inbox_once :
    (p : Platform) (cs : List Call) (consumer message : String) (e e' : DomainEvent)
    (result at result' at' : String) (v v' : Option ℕ) (db db' : Database) (out : InboxAppendResult)
    → IsGapless db.log
    → append_inbox consumer message e result at v db ≡ (ok out, db')
    → append_inbox consumer message e' result' at' v' (run p cs db')
      ≡ (ok (record { event = out.event; receipt = out.receipt; duplicate = true }), run p cs db')
unfolding append_inbox
inbox_once p cs consumer message e e' result at result' at' v v' db db' out gapless done =
    let received = append_inbox-Received consumer message e result at v db db' out gapless done in
    let receipt = run-receipt p cs consumer message out.receipt db' received.0 in
    let event = run-event_at p cs db' out.receipt.event_global_position out.event received.1 in
    rw (receipt, event) refl
