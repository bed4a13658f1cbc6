-- ===== src/Jobs/Storage.antt =====
-- `JobStorage` of pwnproxy/services/crawler/storage.py, over a table of rows in the order of their
-- ids. The JSON columns are texts that the methods pass on; times are numbers. Other writers act
-- between the database accesses of a call: `others k` is what they do before its `k`-th access.
pub mod Terminal
pub mod Calm
pub mod Outcome
use pwnproxy.Prelude.{
  ℕ, zero, suc, ◌+◌, String, Bool, true, false, not, ◌&&◌, ◌||◌, Option, none, some, List, [], ◌∷◌,
  ◌++◌, map, length, take, keep_if, ◌==◌, nat_eq, string_eq, if◌then◌else◌,
}
use mathlib.Core.List.{reverse}
use pwnproxy.Dict.{get_or}
use pwnproxy.Dict
use pwnproxy.Jobs.State.{
  JobState, created, starting, running, stopping, completed, failed, cancelled, state_eq, value,
  of_value, resolve_state, legacy_map, terminal_states, has_state, JobError, Result, ok, err,
  invalid_transition, not_found, invalid_status, disappeared, Job, transition,
}

pub record JobRow : Type 0 where
  pub id : ℕ
  pub kind : String  -- the column `type`
  pub status : String
  pub config : String
  pub stats : String
  pub error : Option String
  pub created_at : ℕ
  pub started_at : Option ℕ
  pub finished_at : Option ℕ

pub record Db : Type 0 where
  pub rows : List JobRow
  pub next_id : ℕ

abbrev new_row : ℕ → String → String → String → ℕ → JobRow
new_row id kind status config now = record {
  id = id;
  kind = kind;
  status = status;
  config = config;
  stats = "{}";
  error = none;
  created_at = now;
  started_at = none;
  finished_at = none;
}

abbrev add_row : String → String → String → ℕ → Db → Db × ℕ
add_row kind status config now db = (
  record {
    rows = db.rows ++ new_row db.next_id kind status config now ∷ [];
    next_id = db.next_id + 1;
  },
  db.next_id,
)

unfoldable pub create : ℕ → String → String → Db → Db × ℕ
create now kind config db = add_row kind "queued" config now db

abbrev pub find_row : ℕ → List JobRow → Option JobRow
find_row id [] = none
find_row id (r ∷ rs) = if r.id == id then some r else find_row id rs

unfoldable pub get : ℕ → Db → Option JobRow
get id db = find_row id db.rows

unfoldable pub list_active : Db → List JobRow
list_active db = keep_if (λ r. r.status == "queued" || r.status == "running") db.rows

unfoldable pub list_all : ℕ → Db → List JobRow
list_all limit db = take limit (reverse db.rows)

-- The column values of `update_status`; `error` is `none` for `_UNSET`.
abbrev pub write_status : ℕ → String → Option (Option String) → JobRow → JobRow
write_status now status error r = record r {
  status = status;
  error = elim error [ none ↦ r.error | some e ↦ e ];
  started_at = if status == "running" then some now else r.started_at;
  finished_at =
      if status == "completed" || status == "failed" || status == "stopped" || status == "cancelled"
      then some now
      else r.finished_at;
}

-- The WHERE clause; `none` is no `expected_status`.
abbrev pub is_target : ℕ → Option String → JobRow → Bool
is_target id none r = r.id == id
is_target id (some status) r = r.id == id && r.status == status

-- an UPDATE, with its row count
unfoldable pub update_rows : (JobRow → Bool) → (JobRow → JobRow) → List JobRow → List JobRow × ℕ
update_rows p f [] = ([], 0)
update_rows p f (r ∷ rs) =
    let (rest, n) = update_rows p f rs in if p r then (f r ∷ rest, n + 1) else (r ∷ rest, n)

-- `JobState(_LEGACY_MAP.get(status, status))` raises no error
abbrev pub is_status : String → Bool
is_status status = elim (Dict.get legacy_map status) [
  | some _ ↦ true
  | none ↦ elim (of_value status) [ some _ ↦ true | none ↦ false ]
]

unfoldable pub update_status :
    ℕ → ℕ → String → Option (Option String) → Option String → Db → Db × Result ℕ
update_status now id status error expected db =
    let (rows, n) = update_rows (is_target id expected) (write_status now status error) db.rows in
    if is_status status then (record db { rows = rows }, ok n) else (db, err invalid_status)

unfoldable pub update_stats : ℕ → String → Db → Db
update_stats id stats db = record db {
  rows = map (λ r. if r.id == id then record r { stats = stats } else r) db.rows;
}

unfoldable pub clone_job : ℕ → ℕ → Db → Db × Result ℕ
clone_job now original_id db = elim (get original_id db) [
  | none ↦ (db, err not_found)
  | some r ↦ let (db', id) = add_row r.kind "created" r.config now db in (db', ok id)
]

abbrev pub Others : Type 0
Others = ℕ → Db → Db

-- the `path` of `transition_status`
unfoldable pub path : JobState → JobState → List JobState
path current target =
    (if target == running && current == created then starting ∷ [] else [])
    ++ (if target == cancelled && (current == running || current == starting)
        then stopping ∷ []
        else [])
    ++ target ∷ []

-- After a write of no row: the winner's status, read at access `k`.
unfoldable pub lost_race : Others → ℕ → ℕ → Db → Db × Result String
lost_race others k id db =
    let seen = others k db in
    elim (get id seen) [ none ↦ (seen, err disappeared) | some r ↦ (seen, ok r.status) ]

abbrev pub step_error : Option String → List JobState → Option (Option String)
step_error error [] = some error
step_error error (_ ∷ _) = none

-- one step of the walk that the machine admits: the write, and whether it lost the race
unfoldable pub cas_step :
    Others → ℕ → ℕ → ℕ → Option (Option String) → JobState → String → Db → Db × Result ℕ
cas_step others now k id error step prev db =
    update_status now id (value step) error (some prev) (others k db)

-- The loop over the path; `prev` is `prev_value`, and the write of the first step is access `k`.
unfoldable pub walk :
    Others → ℕ → ℕ → ℕ → Option String → List JobState → String → Job → Db → Db × Result String
walk others now k id error [] prev job db = (db, ok prev)
walk others now k id error (step ∷ rest) prev job db =
    let written = cas_step others now k id (step_error error rest) step prev db in
    let lost = lost_race others (k + 1) id written.0 in
    let next = λ (job' : Job). walk others now (k + 1) id error rest (value step) job' written.0 in
    elim (transition now job step) [
      | err e ↦ (db, err e)
      | ok job' ↦ elim written.1 [
        | err e ↦ (written.0, err e)
        | ok n ↦ if n == 0 then lost else next job'
      ]
    ]

-- from the terminal test on
unfoldable pub advance :
    Others → ℕ → ℕ → JobState → Option String → JobRow → JobState → Db → Db × Result String
advance others now id target error row current db =
    let job : Job = record {
      state = current;
      started_at = row.started_at;
      finished_at = row.finished_at;
    } in
    if has_state terminal_states current
    then (db, err invalid_transition)
    else walk others now 1 id error (path current target) row.status job db

-- the two tests before it: nothing to do, or not in the expected state
unfoldable pub attempt :
    Others
    → ℕ
    → ℕ
    → JobState
    → Option String
    → Option String
    → JobRow
    → JobState
    → Db
    → Db × Result String
attempt others now id target error none row current db =
    if current == target
    then (db, ok (value current))
    else advance others now id target error row current db
attempt others now id target error (some expected) row current db =
    if current == target then (db, ok (value current)) else elim (of_value expected) [
      | none ↦ (db, err invalid_status)
      | some s ↦
          if current == s
          then advance others now id target error row current db
          else (db, ok (value current))
    ]

unfoldable pub transition_status :
    Others → ℕ → ℕ → String → Option String → Option String → Db → Db × Result String
transition_status others now id target error expected db =
    let seen = others 0 db in
    elim (get id seen) [
      | none ↦ (seen, err not_found)
      | some row ↦ elim (resolve_state row.status) [
        | none ↦ (seen, err invalid_status)
        | some current ↦ elim (of_value target) [
          | none ↦ (seen, err invalid_status)
          | some t ↦ attempt others now id t error expected row current seen
        ]
      ]
    ]

abbrev pub is_running : JobRow → Bool
is_running r = r.status == "running"

abbrev count_failed : Result String → ℕ → ℕ
count_failed (ok status) n = if status == "failed" then n + 1 else n
count_failed (err _) n = n

-- The loop of `mark_stale_running_failed`; an exception ends its round only. The calls of the
-- `i`-th round meet `others i`.
unfoldable pub fail_each : (ℕ → Others) → ℕ → ℕ → List JobRow → Db → Db × ℕ
fail_each others now i [] db = (db, 0)
fail_each others now i (r ∷ rs) db =
    let (db1, outcome) =
      transition_status (others i) now r.id "failed" (some "worker restarted") (some "running")
        db in
    let (db2, n) = fail_each others now (i + 1) rs db1 in (db2, count_failed outcome n)

unfoldable pub mark_stale_running_failed : (ℕ → Others) → ℕ → Db → Db × ℕ
mark_stale_running_failed others now db = fail_each others now 0 (keep_if is_running db.rows) db
