-- ===== src/Publisher/Counts.antt =====
-- The counters of an attempt (src/quantum_entanglement/publisher.py), from its parts.
use quantum_entanglement.Outbox.{Outbox}
use quantum_entanglement.Publisher.{Publisher}
use quantum_entanglement.Publisher.Attempt.{Attempt}
