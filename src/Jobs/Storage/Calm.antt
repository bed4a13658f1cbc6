-- ===== src/Jobs/Storage/Calm.antt =====
-- `transition_status` with no other writer: what it does to the job's row, on every branch.
use pwnproxy.Prelude.{
  ℕ, suc, ◌+◌, ◌-◌, ◌<◌, subst, ◌≡◌, ◌≢◌, refl, ap, sym, ◌∙◌, String, Bool, true, false, ◌&&◌, ◌||◌,
  Option, some, List, [], ◌∷◌, arith, ◌==◌, ==_iff, nat_eq, string_eq, if◌then◌else◌,
}
use pwnproxy.Dict
use pwnproxy.Jobs.State.{
  JobState, created, starting, running, stopping, completed, failed, cancelled, state_eq, value,
  of_value, legal_transitions, terminal_states, has_state, Result, ok, err, invalid_status, Job,
  entered, transition,
}
use pwnproxy.Jobs.Storage.{
  JobRow, Db, Others, find_row, get, write_status, is_target, is_status, update_rows, update_status,
  cas_step, step_error, walk, advance, path,
}

-- No other writer.
abbrev pub calm : Others
calm k db = db

update_rows-hit :
    (id : ℕ) (prev : String) (f : JobRow → JobRow) (r : JobRow) (rs : List JobRow)
    → ((x : JobRow) → (f x).id ≡ x.id)
    → find_row id rs ≡ some r
    → r.status ≡ prev
    → let u = update_rows (is_target id (some prev)) f rs in
      (find_row id u.0 ≡ some (f r)) × (0 < u.1)
unfolding update_rows
update_rows-hit id prev f r [] same h e = cc
update_rows-hit id prev f r (x ∷ rs) same h e =
    ground (arith, same x, ==_iff x.status prev, update_rows-hit id prev f r rs same)

update_rows-miss :
    (id j : ℕ) (prev : String) (f : JobRow → JobRow) (rs : List JobRow)
    → ((x : JobRow) → (f x).id ≡ x.id)
    → j ≢ id
    → find_row j (update_rows (is_target id (some prev)) f rs).0 ≡ find_row j rs
unfolding update_rows
update_rows-miss id j prev f [] same n = refl
update_rows-miss id j prev f (x ∷ rs) same n =
    ground (arith, same x, update_rows-miss id j prev f rs same n)

-- A step of the walk on a row in the state that it was left in.
record Stepped (id : ℕ) (r : JobRow) (db : Db) (w : Db × Result ℕ) : Type 0 where
  count : ℕ
  wrote : w.1 ≡ ok (suc count)
  row : get id w.0 ≡ some r
  rest : (j : ℕ) → j ≢ id → get j w.0 ≡ get j db

is_status-value : (s : JobState) → is_status (value s) ≡ true
unfolding of_value Dict.get
is_status-value created = refl
is_status-value starting = refl
is_status-value running = refl
is_status-value stopping = refl
is_status-value completed = refl
is_status-value failed = refl
is_status-value cancelled = refl

updated : ℕ → ℕ → String → Option (Option String) → String → Db → Db × Result ℕ
updated now id status e prev db =
    let u = update_rows (is_target id (some prev)) (write_status now status e) db.rows in
    (record db { rows = u.0 }, ok u.1)

update_status_lem :
    (now id : ℕ) (e : Option (Option String)) (s : JobState) (prev : String) (db : Db)
    → update_status now id (value s) e (some prev) db ≡ updated now id (value s) e prev db
unfolding update_status updated
update_status_lem now id e s prev db =
    ap (λ b. if b then updated now id (value s) e prev db else (db, err invalid_status))
      (is_status-value s)

updated-Stepped :
    (now id : ℕ) (status : String) (e : Option (Option String)) (prev : String) (r : JobRow)
    (db : Db)
    → get id db ≡ some r
    → r.status ≡ prev
    → Stepped id (write_status now status e r) db (updated now id status e prev db)
unfolding updated get
updated-Stepped now id status e prev r db h p =
    let f : JobRow → JobRow = write_status now status e in
    let hit = update_rows-hit id prev f r db.rows (λ x. refl) h p in
    record {
      count = (update_rows (is_target id (some prev)) f db.rows).1 - 1;
      wrote = ap ok (omega (arith, hit.1));
      row = hit.0;
      rest = λ j n. update_rows-miss id j prev f db.rows (λ x. refl) n;
    }

cas_step_lem :
    (now k id : ℕ) (e : Option (Option String)) (step : JobState) (prev : String) (r : JobRow)
    (db : Db)
    → get id db ≡ some r
    → r.status ≡ prev
    → Stepped id (write_status now (value step) e r) db (cas_step calm now k id e step prev db)
unfolding cas_step
cas_step_lem now k id e step prev r db h p =
    subst (Stepped id (write_status now (value step) e r) db)
      (sym (update_status_lem now id e step prev db))
      (updated-Stepped now id (value step) e prev r db h p)

-- The row of the job is `r`, the other jobs' rows are as before, and the call returned `status`.
pub record Settled (id : ℕ) (r : JobRow) (db : Db) (w : Db × Result String) : Type 0 where
  pub returned : w.1 ≡ ok r.status
  pub row : get id w.0 ≡ some r
  pub rest : (j : ℕ) → j ≢ id → get j w.0 ≡ get j db

-- The rows that a walk over the path leaves, one write after the other.
abbrev pub walked : ℕ → Option String → List JobState → JobRow → JobRow
walked now error [] r = r
walked now error (s ∷ rest) r =
    walked now error rest (write_status now (value s) (step_error error rest) r)

-- Each state of the path is a legal successor of the one before it.
abbrev pub IsLegalPath : JobState → List JobState → Type 0
IsLegalPath c [] = Unit
IsLegalPath c (s ∷ rest) = (has_state (legal_transitions c) s ≡ true) × IsLegalPath s rest

transition_legal :
    (now : ℕ) (job : Job) (s : JobState)
    → has_state (legal_transitions job.state) s ≡ true
    → transition now job s ≡ ok (entered now s job)
unfolding transition
transition_legal now job s h = rw h

walk_step :
    (now k id : ℕ) (error : Option String) (s : JobState) (rest : List JobState) (prev : String)
    (job : Job) (db : Db) {job' : Job} {n : ℕ}
    → transition now job s ≡ ok job'
    → (cas_step calm now k id (step_error error rest) s prev db).1 ≡ ok (suc n)
    → walk calm now k id error (s ∷ rest) prev job db
      ≡ walk calm now
          (k + 1)
          id
          error
          rest
          (value s)
          job'
          (cas_step calm now k id (step_error error rest) s prev db).0
unfolding walk
walk_step now k id error s rest prev job db p q = rw (p, q, walk) (ground arith)

walk_lem :
    (now k id : ℕ) (error : Option String) (steps : List JobState) (prev : String) (job : Job)
    (r : JobRow) (db : Db)
    → IsLegalPath job.state steps
    → get id db ≡ some r
    → r.status ≡ prev
    → Settled id (walked now error steps r) db (walk calm now k id error steps prev job db)
walk_lem now k id error [] prev job r db l h p =
    unfold walk in record { returned = ap ok (sym p); row = h; rest = λ j n. refl }
walk_lem now k id error (s ∷ rest) prev job r db l h p =
    let e = step_error error rest in
    let w = cas_step calm now k id e s prev db in
    let r' = write_status now (value s) e r in
    let done = cas_step_lem now k id e s prev r db h p in
    let on =
      walk_lem now (k + 1) id error rest (value s) (entered now s job) r' w.0 l.1 done.row refl in
    subst (Settled id (walked now error rest r') db)
      (sym
        (walk_step now k id error s rest prev job db (transition_legal now job s l.0) done.wrote))
      (record { returned = on.returned; row = on.row; rest = λ j n. on.rest j n ∙ done.rest j n })

-- The states that a call can take a job to from `current`: the legal successors, and RUNNING from
-- CREATED and CANCELLED from RUNNING and STARTING, over the state in between.
abbrev pub arrives : JobState → JobState → Bool
arrives current target =
    has_state (legal_transitions current) target
    || current == created && target == running
    || (current == running || current == starting) && target == cancelled

arrives-alive : (c t : JobState) → arrives c t ≡ true → has_state terminal_states c ≡ false
arrives-alive created t a = refl
arrives-alive starting t a = refl
arrives-alive running t a = refl
arrives-alive stopping t a = refl
arrives-alive completed t a = ground arith
arrives-alive failed t a = ground arith
arrives-alive cancelled t a = ground arith

pub arrives-ne : (c t : JobState) → arrives c t ≡ true → (c == t) ≡ false
arrives-ne c t a = ground arith

path_legal : (c t : JobState) → arrives c t ≡ true → IsLegalPath c (path c t)
unfolding path
path_legal created t h = ground arith
path_legal starting t h = ground arith
path_legal running t h = ground arith
path_legal stopping t h = ground arith
path_legal completed t h = ground arith
path_legal failed t h = ground arith
path_legal cancelled t h = ground arith

-- What a successful call leaves in the row of its job.
pub record IsWritten (now : ℕ) (error : Option String) (t : JobState) (row r : JobRow)
    : Type 0 where
  pub status : r.status ≡ value t
  pub error_set : r.error ≡ error
  pub started : r.started_at ≡ (if t == running then some now else row.started_at)
  pub finished : r.finished_at ≡ (if has_state terminal_states t then some now else row.finished_at)

pub walked-path :
    (now : ℕ) (error : Option String) (c t : JobState) (row : JobRow)
    → arrives c t ≡ true
    → IsWritten now error t row (walked now error (path c t) row)
unfolding path
walked-path now error created starting row h = record {
  status = refl;
  error_set = refl;
  started = refl;
  finished = refl;
}
walked-path now error created running row h = record {
  status = refl;
  error_set = refl;
  started = refl;
  finished = refl;
}
walked-path now error created cancelled row h = record {
  status = refl;
  error_set = refl;
  started = refl;
  finished = refl;
}
walked-path now error starting running row h = record {
  status = refl;
  error_set = refl;
  started = refl;
  finished = refl;
}
walked-path now error starting failed row h = record {
  status = refl;
  error_set = refl;
  started = refl;
  finished = refl;
}
walked-path now error starting stopping row h = record {
  status = refl;
  error_set = refl;
  started = refl;
  finished = refl;
}
walked-path now error starting cancelled row h = record {
  status = refl;
  error_set = refl;
  started = refl;
  finished = refl;
}
walked-path now error running stopping row h = record {
  status = refl;
  error_set = refl;
  started = refl;
  finished = refl;
}
walked-path now error running completed row h = record {
  status = refl;
  error_set = refl;
  started = refl;
  finished = refl;
}
walked-path now error running failed row h = record {
  status = refl;
  error_set = refl;
  started = refl;
  finished = refl;
}
walked-path now error running cancelled row h = record {
  status = refl;
  error_set = refl;
  started = refl;
  finished = refl;
}
walked-path now error stopping cancelled row h = record {
  status = refl;
  error_set = refl;
  started = refl;
  finished = refl;
}
walked-path now error stopping failed row h = record {
  status = refl;
  error_set = refl;
  started = refl;
  finished = refl;
}
walked-path now error c t row h = absurd (cc h)

pub advance-arrives :
    (now id : ℕ) (t : JobState) (error : Option String) (row : JobRow) (c : JobState) (db : Db)
    → get id db ≡ some row
    → arrives c t ≡ true
    → Settled id (walked now error (path c t) row) db (advance calm now id t error row c db)
unfolding advance
advance-arrives now id t error row c db h a =
    let job : Job = record {
      state = c;
      started_at = row.started_at;
      finished_at = row.finished_at;
    } in
    let alive : has_state terminal_states c ≡ false = arrives-alive c t a in
    rw alive (walk_lem now 1 id error (path c t) row.status job row db (path_legal c t a) h refl)
