-- ===== src/Lib.antt =====
-- The coordination core of quantum_entanglement, a runtime in which agents work on a shared plan:
-- src/quantum_entanglement/ in the repository.
--
-- A plan is a graph of tasks. The scheduler says which tasks may run; the policy gate decides for
-- each intended action whether it runs, waits for a human or is refused, and what waits is a
-- request in the human inbox; a task that runs is an invocation job, which a worker claims under a
-- lease, keeps alive by heartbeats, and completes or fails, while recovery takes jobs from workers
-- whose lease ran out. What happens is recorded in an event log, which in the same transaction
-- takes in messages from outside and hands out messages that a publisher sends under a lease, and
-- an agent is shown a bundle of context within a budget.
--
-- The parts and their files:
-- Prelude: lists, results that may raise, SQL statements over tables (Prelude.Table), tables whose
-- rows move under a primary key (Prelude.Moves, Prelude.Keys), dictionaries in insertion order and
-- text order (Prelude.Text).
-- Protocol: protocol.py, the task statuses, risk ranks, authorities and action intents;
-- Protocol.Value has the values that dictionaries are made of with the Python operations on them,
-- Protocol.Codec the dictionary forms of actors, authorities and intents, Protocol.Envelope the
-- coordination envelope, and Protocol.RoundTrip and Protocol.Checks theorems.
-- Chat: chat.py, `MentionRouter`, with theorems in Chat.Laws.
-- Policy: policy.py, `PolicyEngine.evaluate`, with theorems in Policy.Laws.
-- NeedsYou: policy.py, `NeedsYouQueue`, with theorems in NeedsYou.Laws.
-- Events: store.py and events.py, the event log with `append` and `append_many`; theorems are in
-- Events.Laws, and sequences of appends in Events.Run.
-- Outbox: store.py and delivery.py, the outbox table and its ambiguities: Outbox.Lease has claim,
-- acknowledge and reject, Outbox.Resolve the ambiguities; Outbox.Life the life of a row, and
-- Outbox.Calls, Outbox.Quarantine and Outbox.Settled what the calls do to rows.
-- Delivery: store.py and delivery.py, the calls that write an event together with messages, a
-- receipt (Delivery.Inbox) or beside snapshots (Delivery.Snapshots), and in Delivery.Run any
-- sequence of these calls, the appends and the outbox calls on one database. Delivery.Rows,
-- Delivery.Quarantine, Delivery.Once, Delivery.Retry and Delivery.Latest have the theorems.
-- Publisher: publisher.py, `OutboxPublisher`: Publisher.Attempt has one attempt with the store's
-- calls that it makes, Publisher.Retry the delay before the next one, Publisher.Batch a cycle;
-- Publisher.Stored says what the store holds after a call, Publisher.Outcome what the counters of
-- an attempt mean, and Publisher.Counts, Publisher.Balance, Publisher.Accepted and
-- Publisher.Settles have theorems.
-- Context: context.py, `ContextCompiler.compile`, with the sort in Context.Order, the loop in
-- Context.Pack and theorems in Context.Laws.
-- Scheduler: scheduler.py. Scheduler.Task has the task data and the table of allowed moves,
-- Scheduler.Graph the construction of `TaskGraph` with its two validations, Scheduler.Moves the
-- transitions, Scheduler.Refresh the refresh, Scheduler.Ready the choice of tasks.
-- Attempts: attempts.py, `SQLiteInvocationAttemptStore`. Attempts.Rows has the two tables and the
-- checks on each row that is read, Attempts.Enqueue, Attempts.Claim, Attempts.Owner and
-- Attempts.Recover the operations, Attempts.Life the life of a job row, Attempts.Once sequences of
-- calls.
-- Tests: the theorems at concrete inputs.
--
-- How the code is read. A call that raises is an `err`; a body in a transaction leaves the store
-- as it was if it raises. A store is its tables, as lists of rows in the order of insertion (the
-- event log: the newest first); an UPDATE rewrites the rows that pass its WHERE clause and counts
-- them, and ORDER BY ... LIMIT 1 is the first row by that order. The transactions are serial, as
-- SQLite's write lock makes them, so that concurrent workers are sequences of calls. Timestamps
-- are natural numbers, as the source compares normalized UTC texts of one format. The clock, new
-- identifiers and lease tokens are arguments; the token digest and SQLite's `julianday` are
-- parameters. In the outbox, timestamps are texts that only `julianday` compares, and payloads,
-- headers, results and states are their canonical JSON texts.
--
-- What Python's own conversions do (`str` of what is no text, `int` of a text or a fraction,
-- `strip`) is a parameter of the dictionary forms, and a field that `from_dict` takes over
-- untested holds any value.
--
-- In the publisher, what the clocks, the connector and the store's calls do in an attempt is an
-- argument (a reading, an answer, an error, a cancellation), the attempts of a batch run one after
-- the other, and delays are whole numbers of one unit, without the rounding of floats.
--
-- Bounds and fuel. The SQLite maximum 2^63 - 1 and the last instant of `datetime` are written out.
-- `_validate_acyclic` recurses on a fuel of one more than the number of tasks: the calls that are
-- open at one time have different ids. `ceil(log2(max / base))` of the retry delay is counted as
-- the doublings of the base delay that reach the greatest one, on a fuel of the greatest delay: a
-- base delay of at least 1 reaches it within that many doublings.
--
-- Not modelled: the reconciliation of a commit whose outcome is unknown, the handling of signals
-- and tracebacks, the type and text checks on arguments (every value of the model has the type
-- that they ask for), the other dictionary codecs, the publisher's polling loop and connector
-- threads, the paged reads of the store, and the parts of the runtime outside the files above (the
-- adapters, backup and the service among them).
pub mod Prelude
pub mod Protocol
pub mod Policy
pub mod NeedsYou
pub mod Context
pub mod Events
pub mod Outbox
pub mod Delivery
pub mod Publisher
pub mod Chat
pub mod Scheduler
pub mod Attempts
pub mod Tests
