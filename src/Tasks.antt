-- ===== src/Tasks.antt =====
-- pwnproxy/services/session/store.py: the task store. The table is a dict from task ids to
-- records; JSON columns are texts that the methods pass on; times are numbers of milliseconds.
-- A tracked runner is the flag that it is done; `cancelled` logs the calls of `cancel` on runners.
pub mod Legal
pub mod Steps
use pwnproxy.Prelude.{
  ℕ, ◌+◌, String, Bool, true, false, not, ◌&&◌, ◌||◌, Option, none, some, List, [], ◌∷◌, ◌++◌, take,
  keep_if, ltb, leb, map, any_of, ◌==◌, nat_eq, string_eq, if◌then◌else◌,
}
use pwnproxy.Prelude.Text.{lower}
use pwnproxy.Prelude.Sort.{sort_by}
use pwnproxy.Dict.{Dict, get_or, put, remove}
use pwnproxy.Dict
use pwnproxy.Jobs.State.{
  JobState, created, running, completed, failed, cancelled, state_eq, legal_transitions,
  terminal_states, has_state,
}

abbrev pub stale_timeout : ℕ
stale_timeout = 300000

abbrev pub task_to_jobstate : Dict String JobState
task_to_jobstate =
    ("pending", created)
    ∷ ("queued", created)
    ∷ ("running", running)
    ∷ ("completed", completed)
    ∷ ("failed", failed)
    ∷ ("cancelled", cancelled)
    ∷ []

-- `status or "pending"`
abbrev or_pending : String → String
or_pending status = if status == "" then "pending" else status

unfoldable pub canonical_task_state : String → JobState
canonical_task_state status = get_or task_to_jobstate (lower (or_pending status)) created

-- the tests of `_task_transition_legal`, on the canonical states
abbrev pub state_move_legal : JobState → JobState → Bool
state_move_legal cur new =
    if cur == new
    then true
    else if has_state (legal_transitions cur) new
    then true
    else if cur == created && (new == running || new == failed)
    then true
    else cur == running && new == cancelled

unfoldable pub task_transition_legal : String → String → Bool
task_transition_legal current new =
    state_move_legal (canonical_task_state current) (canonical_task_state new)

unfoldable pub task_is_terminal : String → Bool
task_is_terminal status = has_state terminal_states (canonical_task_state status)

pub record TaskRecord : Type 0 where
  pub id : String
  pub session : String
  pub kind : String  -- the column `type`
  pub status : String
  pub progress : ℕ
  pub total : ℕ
  pub config : String
  pub result : Option String
  pub error : Option String
  pub created_at : Option ℕ
  pub completed_at : Option ℕ

pub record TaskStore : Type 0 where
  pub tasks : Dict String TaskRecord
  pub running_tasks : Dict String Bool
  pub cancelled : List String

-- `task_id` is what `uuid4` gives.
unfoldable pub create : ℕ → String → String → String → String → TaskStore → TaskStore
create now task_id task_type config session_name s = record s {
  tasks = put s.tasks task_id (record {
    id = task_id;
    session = session_name;
    kind = task_type;
    status = "queued";
    progress = 0;
    total = 0;
    config = config;
    result = none;
    error = none;
    created_at = some now;
    completed_at = none;
  });
}

pub record Changes : Type 0 where
  pub status : Option String
  pub progress : Option ℕ
  pub total : Option ℕ
  pub result : Option String
  pub error : Option String

-- the status block of `update`; `none` is its early return
unfoldable pub change_status : ℕ → Option String → TaskRecord → Option TaskRecord
change_status now none r = some r
change_status now (some status) r =
    let new_status = lower status in
    if task_transition_legal r.status new_status
    then some (record r {
      status = new_status;
      completed_at = if task_is_terminal new_status then some now else r.completed_at;
    })
    else none

abbrev given {ℓ} : {A : Type ℓ} → Option A → A → A
given none old = old
given (some new) old = new

abbrev given_text : Option String → Option String → Option String
given_text none old = old
given_text (some new) old = some new

abbrev pub fill : Changes → TaskRecord → TaskRecord
fill c r = record r {
  progress = given c.progress r.progress;
  total = given c.total r.total;
  result = given_text c.result r.result;
  error = given_text c.error r.error;
}

unfoldable pub update : ℕ → String → Changes → TaskStore → TaskStore
update now task_id c s = elim (Dict.get s.tasks task_id) [
  | none ↦ s
  | some r ↦ elim (change_status now c.status r) [
    | none ↦ s
    | some r' ↦ record s { tasks = put s.tasks task_id (fill c r') }
  ]
]

abbrev is_old : ℕ → Option ℕ → Bool
is_old now none = false
is_old now (some t) = ltb (t + stale_timeout) now

abbrev is_tracked : String → TaskStore → Bool
is_tracked id s = elim (Dict.get s.running_tasks id) [ none ↦ false | some _ ↦ true ]

-- the stale test of `get` and `list`, and what it writes
unfoldable pub expire : ℕ → TaskStore → TaskRecord → TaskRecord
expire now s r =
    if (r.status == "running" || r.status == "queued")
      && not (task_is_terminal r.status)
      && is_old now r.created_at
      && not (is_tracked r.id s)
    then record r {
      status = "failed";
      completed_at = some now;
      error = some "Stale — task timed out";
    }
    else r

unfoldable pub get : ℕ → String → TaskStore → TaskStore × Option TaskRecord
get now task_id s = elim (Dict.get s.tasks task_id) [
  | none ↦ (s, none)
  | some r ↦ let r' = expire now s r in (record s { tasks = put s.tasks task_id r' }, some r')
]

abbrev newer : (String × TaskRecord) → (String × TaskRecord) → Bool
newer (i, a) (j, b) = elim a.created_at [
  | none ↦ elim b.created_at [ none ↦ true | some _ ↦ false ]
  | some t ↦ elim b.created_at [ none ↦ true | some u ↦ leb u t ]
]

-- the WHERE clause of `list` and `count`; an empty type is no filter
abbrev pub is_listed : String → String → (String × TaskRecord) → Bool
is_listed task_type session_name (i, r) =
    r.session == session_name && (task_type == "" || r.kind == task_type)

-- the rows that `list` reads
unfoldable pub selected : String → ℕ → String → TaskStore → Dict String TaskRecord
selected task_type limit session_name s =
    take limit (sort_by newer (keep_if (is_listed task_type session_name) s.tasks))

-- the loop over the rows: each write is to the row's place in the table
unfoldable pub expire_each :
    ℕ → TaskStore → Dict String TaskRecord → Dict String TaskRecord → Dict String TaskRecord
expire_each now s [] tasks = tasks
expire_each now s ((i, r) ∷ rows) tasks =
    expire_each now s rows
      (elim (Dict.get tasks i) [ none ↦ tasks | some x ↦ put tasks i (expire now s x) ])

unfoldable pub list : ℕ → String → ℕ → String → TaskStore → TaskStore × List TaskRecord
list now task_type limit session_name s =
    let rows = selected task_type limit session_name s in
    (
      record s { tasks = expire_each now s rows s.tasks },
      map (λ (row : String × TaskRecord). expire now s row.1) rows,
    )

-- the end of `cancel` and `delete`
unfoldable pub stop_runner : String → TaskStore → TaskStore
stop_runner task_id s = elim (Dict.get s.running_tasks task_id) [
  | none ↦ s
  | some done ↦ record s {
    running_tasks = remove s.running_tasks task_id;
    cancelled = if done then s.cancelled else s.cancelled ++ task_id ∷ [];
  }
]

unfoldable pub cancel : ℕ → String → TaskStore → TaskStore × Bool
cancel now task_id s = elim (Dict.get s.tasks task_id) [
  | none ↦ (s, false)
  | some r ↦
      if task_transition_legal r.status "cancelled"
      then (
        stop_runner task_id (record s {
          tasks = put s.tasks task_id (record r { status = "cancelled"; completed_at = some now });
        }),
        true,
      )
      else (s, true)
]

unfoldable pub delete : String → TaskStore → TaskStore × Bool
delete task_id s = (
  stop_runner task_id (record s { tasks = remove s.tasks task_id }),
  elim (Dict.get s.tasks task_id) [ none ↦ false | some _ ↦ true ],
)

unfoldable pub track : String → TaskStore → TaskStore
track task_id s = record s { running_tasks = put s.running_tasks task_id false }
