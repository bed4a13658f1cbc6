-- ===== src/Jobs/Storage/Outcome.antt =====
-- The outcome of `transition_status` with no other writer.
use pwnproxy.Prelude.{
  ℕ, ◌≡◌, ◌≢◌, refl, ◌∙◌, String, true, false, Option, none, some, [], ◌∷◌, arith, ◌==◌, ==_iff,
  if◌then◌else◌,
}
use pwnproxy.Dict
use pwnproxy.Jobs.State.{
  JobState, created, starting, running, stopping, completed, failed, cancelled, state_eq, value,
  of_value, resolve_state, legal_transitions, has_state, ok, err, invalid_transition, Job,
  transition,
}
use pwnproxy.Jobs.Storage.{JobRow, Db, get, walk, advance, attempt, transition_status, path}
use pwnproxy.Jobs.Storage.Calm.{
  calm, arrives, Settled, IsWritten, walked, walked-path, advance-arrives, arrives-ne,
}

-- A step that the machine refuses ends the walk before it writes.
walk_refused :
    (now k id : ℕ) (error : Option String) (t : JobState) (prev : String) (job : Job) (db : Db)
    → has_state (legal_transitions job.state) t ≡ false
    → walk calm now k id error (t ∷ []) prev job db ≡ (db, err invalid_transition)
unfolding transition walk
walk_refused now k id error t prev job db h = rw (h, walk)

path_refused :
    (c t : JobState)
    → arrives c t ≡ false
    → (path c t ≡ t ∷ []) × (has_state (legal_transitions c) t ≡ false)
unfolding path
path_refused created t h = ground arith
path_refused starting t h = ground arith
path_refused running t h = ground arith
path_refused stopping t h = ground arith
path_refused completed t h = ground arith
path_refused failed t h = ground arith
path_refused cancelled t h = ground arith

advance_refused :
    (now id : ℕ) (t : JobState) (error : Option String) (row : JobRow) (c : JobState) (db : Db)
    → arrives c t ≡ false
    → advance calm now id t error row c db ≡ (db, err invalid_transition)
unfolding advance
advance_refused now id t error row c db a =
    let job : Job = record {
      state = c;
      started_at = row.started_at;
      finished_at = row.finished_at;
    } in
    let p = path_refused c t a in
    ground (arith, p, walk_refused now 1 id error t row.status job db p.1)

of_value-value : (t : JobState) → of_value (value t) ≡ some t
unfolding of_value Dict.get
of_value-value created = refl
of_value-value starting = refl
of_value-value running = refl
of_value-value stopping = refl
of_value-value completed = refl
of_value-value failed = refl
of_value-value cancelled = refl

module _ (now id : ℕ) (t : JobState) (error : Option String) (db : Db) (row : JobRow) (c : JobState)
    (found : get id db ≡ some row) (resolved : resolve_state row.status ≡ some c) where
  at_attempt :
      transition_status calm now id (value t) error none db
      ≡ (if c == t then (db, ok (value c)) else advance calm now id t error row c db)
  unfolding attempt transition_status
  at_attempt = rw (found, resolved, of_value-value t, transition_status)

  -- With no other writer, a call for the state `t` on a job that is in state `c`: where `c` is
  -- `t`, nothing is written and its name is returned; where the machine has a way, at most over one
  -- implied state, the row ends in `t` with the call's error and the times of its last writes,
  -- its name is returned and the other rows are as they were; else the call raises
  -- InvalidJobTransition and the table is as it was.
  pub transition_status_outcome :
      (c ≡ t → transition_status calm now id (value t) error none db ≡ (db, ok (value t)))
      × (arrives c t ≡ true
          → (r : JobRow) × IsWritten now error t row r
            × Settled id r db (transition_status calm now id (value t) error none db))
      × (arrives c t ≡ false
          → c ≢ t
          → transition_status calm now id (value t) error none db ≡ (db, err invalid_transition))
  transition_status_outcome = (
    λ e. at_attempt ∙ ground (arith, ==_iff c t),
    λ a. (
      walked now error (path c t) row,
      walked-path now error c t row a,
      rw (at_attempt, arrives-ne c t a) (advance-arrives now id t error row c db found a),
    ),
    λ a n. at_attempt ∙ ground (arith, ==_iff c t, advance_refused now id t error row c db a),
  )
