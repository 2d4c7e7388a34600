-- ===== src/Scheduler/Task.antt =====
-- src/quantum_entanglement/scheduler.py: task specifications, the status sets and the transition table.
-- A task's handoff contract and metadata are carried by the source and never read by the graph.
use quantum_entanglement.Prelude.{
  ℕ, String, Bool, true, false, ◌&&◌, ◌||◌, not, List, Option, eqb, leb, Result, ok, guard, ◌>>◌,
}
use quantum_entanglement.Prelude.Text.{elem, Dict}
use quantum_entanglement.Protocol.{
  TaskStatus, pending, ready, running, waiting_input, waiting_approval, completed, failed, blocked,
  canceled, superseded, ActionIntent,
}

pub data Error : Type 0 where
  blank_title priority_out_of_range self_dependency : Error
  no_tasks duplicate_task missing_dependency cycle : Error
  key_error invalid_transition negative_revision changed_after_preview : Error
  out_of_fuel : Error

pub record TaskSpec : Type 0 where
  pub title : String
  pub agent_id : String
  pub task_id : String
  pub depends_on : List String
  pub input_artifacts : List String
  pub action : ActionIntent
  pub priority : ℕ

-- `TaskSpec.__post_init__`; `blank` is Python's `not text.strip()`. The source's test that the
-- priority is not negative holds of every `ℕ`.
unfoldable pub check_spec : (String → Bool) → TaskSpec → Result Error TaskSpec
check_spec blank t = do
  guard (not (blank t.title) && not (blank t.agent_id)) blank_title
  guard (leb t.priority 100) priority_out_of_range
  guard (not (elem t.task_id t.depends_on)) self_dependency
  ok t

-- Enumeration equality, by the place in the enumeration.
abbrev pub index : TaskStatus → ℕ
index pending = 0
index ready = 1
index running = 2
index waiting_input = 3
index waiting_approval = 4
index completed = 5
index failed = 6
index blocked = 7
index canceled = 8
index superseded = 9

abbrev pub status_eq : TaskStatus → TaskStatus → Bool
status_eq a b = eqb (index a) (index b)

-- `DONE_STATUSES`, `FAILED_STATUSES`, `TERMINAL_STATUSES`
abbrev pub is_done : TaskStatus → Bool
is_done completed = true
is_done superseded = true
is_done _ = false

abbrev pub is_failed : TaskStatus → Bool
is_failed failed = true
is_failed blocked = true
is_failed canceled = true
is_failed _ = false

abbrev pub is_terminal_status : TaskStatus → Bool
is_terminal_status s = is_done s || is_failed s

-- `TaskGraph._ALLOWED`
abbrev pub allowed : TaskStatus → TaskStatus → Bool
allowed pending ready = true
allowed pending blocked = true
allowed pending canceled = true
allowed ready running = true
allowed ready blocked = true
allowed ready canceled = true
allowed running completed = true
allowed running failed = true
allowed running waiting_input = true
allowed running waiting_approval = true
allowed running canceled = true
allowed waiting_approval ready = true
allowed waiting_approval canceled = true
allowed waiting_approval waiting_input = true
allowed waiting_input ready = true
allowed waiting_input canceled = true
allowed completed superseded = true
allowed _ _ = false

pub record TaskTransition : Type 0 where
  pub task_id : String
  pub previous : TaskStatus
  pub current : TaskStatus
  pub reason : Option String
  pub revision : ℕ

pub record TaskGraph : Type 0 where
  pub tasks : Dict TaskSpec
  pub statuses : Dict TaskStatus
  pub reasons : Dict String
  pub revisions : Dict ℕ
