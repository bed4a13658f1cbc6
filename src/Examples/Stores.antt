-- ===== src/Examples/Stores.antt =====
-- Jobs and tasks at work: the machine, the job table, the task store.
use pwnproxy.Prelude.{ℕ, ◌≡◌, ◌≢◌, refl, String, true, false, none, some, [], ◌∷◌, string_eq}
use pwnproxy.Dict
use pwnproxy.Jobs.State.{
  running, completed, cancelled, state_eq, of_value, resolve_state, ok, err, invalid_transition,
  Job,
}
use pwnproxy.Jobs.Storage.{JobRow, Db, get, transition_status}
use pwnproxy.Jobs.Storage.Calm.{calm, arrives, IsWritten, Settled}
use pwnproxy.Jobs.Storage.Terminal.{is_final, AreFair, transition_status-keeps}
use pwnproxy.Jobs.Storage.Outcome.{transition_status_outcome}
use pwnproxy.Tasks.{
  TaskRecord, TaskStore, canonical_task_state, state_move_legal, task_is_terminal, cancel,
  task_transition_legal, stop_runner,
}
use pwnproxy.Prelude.Text.{lower}
use pwnproxy.Tasks.Steps.{Step, Step-Moves}

abbrev row_of : ℕ → String → JobRow
row_of id status = record {
  id = id;
  kind = "crawl";
  status = status;
  config = "{}";
  stats = "{}";
  error = none;
  created_at = 1;
  started_at = some 2;
  finished_at = none;
}

-- one job that runs and one that has completed
abbrev table : Db
table = record { rows = row_of 1 "running" ∷ row_of 2 "completed" ∷ []; next_id = 3 }

running_row : get 1 table ≡ some (row_of 1 "running")
unfolding get
running_row = refl

completed_row : get 2 table ≡ some (row_of 2 "completed")
unfolding get
completed_row = refl

running_state : resolve_state (row_of 1 "running").status ≡ some running
unfolding resolve_state of_value Dict.get
running_state = refl

completed_final : is_final (row_of 2 "completed").status ≡ true
unfolding resolve_state of_value Dict.get
completed_final = refl

calm-AreFair : AreFair calm
calm-AreFair k db j r h f = h

transition_status_outcome_example :
    (running ≡ cancelled
      → transition_status calm 9 1 "cancelled" none none table ≡ (table, ok "cancelled"))
    × (arrives running cancelled ≡ true
        → (r : JobRow) × IsWritten 9 none cancelled (row_of 1 "running") r
          × Settled 1 r table (transition_status calm 9 1 "cancelled" none none table))
    × (arrives running cancelled ≡ false
        → running ≢ cancelled
        → transition_status calm 9 1 "cancelled" none none table ≡ (table, err invalid_transition))
transition_status_outcome_example =
    transition_status_outcome 9 1 cancelled none table (row_of 1 "running") running running_row
      running_state

transition_status-keeps_example :
    get 2 (transition_status calm 9 2 "running" none none table).0 ≡ some (row_of 2 "completed")
transition_status-keeps_example =
    transition_status-keeps calm calm-AreFair 9 2 none "running" none table 2 (row_of 2 "completed")
      completed_row completed_final

abbrev done : Job
done = record { state = completed; started_at = some 2; finished_at = some 3 }

abbrev task_in : String → TaskRecord
task_in status = record {
  id = "t1";
  session = "s";
  kind = "fuzz";
  status = status;
  progress = 0;
  total = 0;
  config = "{}";
  result = none;
  error = none;
  created_at = some 1;
  completed_at = none;
}

abbrev store_of : String → TaskStore
store_of status = record { tasks = ("t1", task_in status) ∷ []; running_tasks = []; cancelled = [] }

abbrev cancelled_task : ℕ → TaskRecord
cancelled_task now = record (task_in "running") { status = "cancelled"; completed_at = some now }

task_there : (status : String) → Dict.get (store_of status).tasks "t1" ≡ some (task_in status)
unfolding Dict.get
task_there status = refl

task_after : Dict.get (cancel 7 "t1" (store_of "running")).0.tasks "t1" ≡ some (cancelled_task 7)
unfolding cancel task_transition_legal canonical_task_state lower stop_runner Dict.get Dict.put
task_after = refl

task_kept :
    Dict.get (cancel 7 "t1" (store_of "completed")).0.tasks "t1" ≡ some (task_in "completed")
unfolding cancel task_transition_legal canonical_task_state lower stop_runner Dict.get Dict.put
task_kept = refl

task_ended : task_is_terminal "completed" ≡ true
unfolding task_is_terminal canonical_task_state lower Dict.get
task_ended = refl

state_cancelled : canonical_task_state "cancelled" ≡ cancelled
unfolding canonical_task_state lower Dict.get
state_cancelled = refl

Step-Moves_example :
    state_move_legal (canonical_task_state "running") (canonical_task_state "cancelled") ≡ true
Step-Moves_example =
    Step-Moves "t1" (task_in "running") (cancelled_task 7)
      (Step.cancels 7 "t1" (store_of "running")) (task_there "running") task_after
