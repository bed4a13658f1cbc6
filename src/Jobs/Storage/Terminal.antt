-- ===== src/Jobs/Storage/Terminal.antt =====
-- The compare-and-set walk of `transition_status` against other writers: rows in a terminal state.
use pwnproxy.Prelude.{
  ℕ, ◌+◌, ◌≡◌, refl, ap, sym, ◌∙◌, String, Bool, true, false, Option, none, some, List, [], ◌∷◌,
  inl, inr, arith, ==_iff, nat_eq, string_eq, Option-cases, keep_if,
}
use pwnproxy.Jobs.State.{
  JobState, created, starting, running, stopping, completed, failed, cancelled, state_eq, value,
  of_value, resolve_state, terminal_states, has_state, Result-cases, Job, transition,
}
use pwnproxy.Dict
use pwnproxy.Jobs.State.Machine.{transition_state}
use pwnproxy.Jobs.Storage.{
  JobRow, Db, Others, find_row, get, write_status, is_target, update_rows, update_status, lost_race,
  cas_step, step_error, walk, advance, attempt, transition_status, path, fail_each,
  mark_stale_running_failed, is_running,
}

-- A status text that stands for a terminal state.
abbrev pub is_final : String → Bool
is_final status = elim (resolve_state status) [
  | none ↦ false
  | some s ↦ has_state terminal_states s
]

-- Every row in a terminal state is in `b` what it is in `a`.
abbrev pub KeepsFinal : Db → Db → Type 0
KeepsFinal a b =
    (id : ℕ) (r : JobRow) → get id a ≡ some r → is_final r.status ≡ true → get id b ≡ some r

-- What the other writers do keeps the rows that are in a terminal state.
abbrev pub AreFair : Others → Type 0
AreFair others = (k : ℕ) (db : Db) → KeepsFinal db (others k db)

update_rows-find :
    (p : JobRow → Bool) (f : JobRow → JobRow) (j : ℕ) (r : JobRow) (rs : List JobRow)
    → ((x : JobRow) → (f x).id ≡ x.id)
    → find_row j rs ≡ some r
    → p r ≡ false
    → find_row j (update_rows p f rs).0 ≡ some r
unfolding update_rows
update_rows-find p f j r [] same h n = cc
update_rows-find p f j r (x ∷ rs) same h n =
    ground (arith, same x, update_rows-find p f j r rs same)

not_target :
    (id : ℕ) (prev : String) (r : JobRow)
    → is_final r.status ≡ true
    → is_final prev ≡ false
    → is_target id (some prev) r ≡ false
not_target id prev r f g = ground (arith, ==_iff r.status prev)

update_status-keeps :
    (now id : ℕ) (status prev : String) (e : Option (Option String)) (db : Db)
    → is_final prev ≡ false
    → KeepsFinal db (update_status now id status e (some prev) db).0
unfolding update_status get
update_status-keeps now id status prev e db g j r h f = ground (
  arith,
  update_rows-find (is_target id (some prev)) (write_status now status e) j r db.rows (λ x. refl) h
      (not_target id prev r f g),
)

lost_race-keeps :
    (others : Others) (k id : ℕ) (db : Db)
    → AreFair others
    → KeepsFinal db (lost_race others k id db).0
unfolding lost_race
lost_race-keeps others k id db fair j r h f = ground (arith, fair k db j r h f)

is_final-value : (s : JobState) → is_final (value s) ≡ has_state terminal_states s
unfolding resolve_state of_value Dict.get
is_final-value created = refl
is_final-value starting = refl
is_final-value running = refl
is_final-value stopping = refl
is_final-value completed = refl
is_final-value failed = refl
is_final-value cancelled = refl

cas_step-keeps :
    (others : Others) (now k id : ℕ) (e : Option (Option String)) (step : JobState) (prev : String)
    (db : Db)
    → AreFair others
    → is_final prev ≡ false
    → KeepsFinal db (cas_step others now k id e step prev db).0
unfolding cas_step
cas_step-keeps others now k id e step prev db fair g j r h f =
    update_status-keeps now id (value step) prev e (others k db) g j r (fair k db j r h f) f

walk-keeps :
    (others : Others) (now k id : ℕ) (error : Option String) (steps : List JobState) (prev : String)
    (job : Job) (db : Db)
    → AreFair others
    → is_final prev ≡ has_state terminal_states job.state
    → KeepsFinal db (walk others now k id error steps prev job db).0
unfolding walk
walk-keeps others now k id error [] prev job db fair g j r h f = h
walk-keeps others now k id error (step ∷ rest) prev job db fair g j r h f =
    let w = cas_step others now k id (step_error error rest) step prev db in
    elim (Result-cases (transition now job step)) [
      | inl (job', p) ↦
          let t = transition_state now job step p in
          let done : get j w.0 ≡ some r =
            cas_step-keeps others now k id (step_error error rest) step prev db fair (g ∙ t.1) j r h
              f in
          ground (
            arith,
            lost_race-keeps others (k + 1) id w.0 fair j r done f,
            walk-keeps others now (k + 1) id error rest (value step) job' w.0 fair
                (is_final-value step ∙ ap (has_state terminal_states) (sym t.0)) j r done f,
          )
      | inr (e, p) ↦ ground arith
    ]

module _ (others : Others) (fair : AreFair others) (now id : ℕ) (error : Option String) where
  advance-keeps :
      (target : JobState) (row : JobRow) (current : JobState) (db : Db)
      → is_final row.status ≡ has_state terminal_states current
      → KeepsFinal db (advance others now id target error row current db).0
  unfolding advance
  advance-keeps target row current db g j r h f =
      let job : Job = record {
        state = current;
        started_at = row.started_at;
        finished_at = row.finished_at;
      } in
      ground (
        arith,
        walk-keeps others now 1 id error (path current target) row.status job db fair g j r h f,
      )

  attempt-keeps :
      (target : JobState) (expected : Option String) (row : JobRow) (current : JobState) (db : Db)
      → is_final row.status ≡ has_state terminal_states current
      → KeepsFinal db (attempt others now id target error expected row current db).0
  unfolding attempt
  attempt-keeps target none row current db g j r h f =
      ground (arith, advance-keeps target row current db g j r h f)
  attempt-keeps target (some e) row current db g j r h f =
      ground (arith, advance-keeps target row current db g j r h f)

  -- `transition_status`, whatever state it is asked for and whatever the other writers do between
  -- its accesses, leaves every row that is in a terminal state as it is, if those writers do.
  pub transition_status-keeps :
      (target : String) (expected : Option String) (db : Db) (j : ℕ) (r : JobRow)
      → get j db ≡ some r
      → is_final r.status ≡ true
      → get j (transition_status others now id target error expected db).0 ≡ some r
  unfolding transition_status
  transition_status-keeps target expected db j r h f =
      let seen = others 0 db in
      let kept = fair 0 db j r h f in
      elim (Option-cases (get id seen)) [
        | inl p ↦ rw (p, transition_status) kept
        | inr (row, p) ↦ elim (Option-cases (resolve_state row.status)) [
          | inl q ↦ ground arith
          | inr (c, q) ↦ elim (Option-cases (of_value target)) [
            | inl t ↦ ground arith
            | inr (t, u) ↦
                ground (arith, attempt-keeps t expected row c seen (ground arith) j r kept f)
          ]
        ]
      ]

fail_each-keeps :
    (others : ℕ → Others) (now i : ℕ) (rs : List JobRow) (db : Db)
    → ((n : ℕ) → AreFair (others n))
    → KeepsFinal db (fail_each others now i rs db).0
unfolding fail_each
fail_each-keeps others now i [] db fair j r h f = h
fail_each-keeps others now i (x ∷ rs) db fair j r h f =
    fail_each-keeps others now (i + 1) rs
      (transition_status (others i) now x.id "failed" (some "worker restarted") (some "running")
        db).0
      fair j r
      (transition_status-keeps (others i) (fair i) now x.id (some "worker restarted") "failed"
        (some "running") db j r h f)
      f

-- Crash recovery, too, leaves every row in a terminal state as it is, if the other writers do.
pub mark_stale-keeps :
    (others : ℕ → Others) (now : ℕ) (db : Db) (j : ℕ) (r : JobRow)
    → ((n : ℕ) → AreFair (others n))
    → get j db ≡ some r
    → is_final r.status ≡ true
    → get j (mark_stale_running_failed others now db).0 ≡ some r
unfolding mark_stale_running_failed
mark_stale-keeps others now db j r fair =
    fail_each-keeps others now 0 (keep_if is_running db.rows) db fair j r
