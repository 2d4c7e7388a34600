-- ===== src/Events/Run.antt =====
-- The appends (src/quantum_entanglement/store.py) in any order, as they reach one log.
use quantum_entanglement.Prelude.{ℕ, String, Option, List, [], ◌∷◌}
use quantum_entanglement.Events.{DomainEvent, Log, append, append_many}
use quantum_entanglement.Events.Laws.{IsGapless, append-IsGapless, append_many-IsGapless}

pub data Call : Type 0 where
  one : DomainEvent → Option ℕ → Option ℕ → Call
  many : String → List DomainEvent → Option ℕ → Call

-- The log that the calls leave, those that raise included.
unfoldable pub run : List Call → Log → Log
run [] log = log
run (one e v p ∷ cs) log = run cs (append e v p log).1
run (many s es v ∷ cs) log = run cs (append_many s es v log).1

-- Whatever appends reach the log, alone or in batches, with retries and errors: every event of the log
-- keeps the number that follows the older events of its stream, and the position that follows all older
-- events, so that neither has a gap or a repeat.
pub run-IsGapless : (cs : List Call) (log : Log) → IsGapless log → IsGapless (run cs log)
unfolding run
run-IsGapless [] log h = h
run-IsGapless (one e v p ∷ cs) log h =
    run-IsGapless cs (append e v p log).1 (append-IsGapless e v p log h)
run-IsGapless (many s es v ∷ cs) log h =
    run-IsGapless cs (append_many s es v log).1 (append_many-IsGapless s es v log h)
