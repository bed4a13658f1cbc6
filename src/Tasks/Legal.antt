-- ===== src/Tasks/Legal.antt =====
-- The status moves that the task store admits, operation by operation.
use pwnproxy.Prelude.{
  ℕ, ◌≡◌, refl, String, true, not, ◌&&◌, ◌||◌, Option, none, some, inl, inr, arith, ◌==◌, ==_iff,
  Option-cases, string_eq,
}
use pwnproxy.Prelude.Text.{lower}
use pwnproxy.Dict.{Dict, put, remove, get-put, get-remove}
use pwnproxy.Dict
use pwnproxy.Jobs.State.{
  JobState, created, starting, running, stopping, completed, failed, cancelled, state_eq,
}
use pwnproxy.Jobs.Storage.Calm.{arrives}
use pwnproxy.Tasks.{
  canonical_task_state, state_move_legal, task_transition_legal, TaskRecord, TaskStore, Changes,
  change_status, fill, update, expire, get, stop_runner, cancel, delete,
}

-- The moves between different states that the task store admits are those by which the job table
-- takes a job to a state with at most one implied state in between, but STARTING → CANCELLED, and
-- the move CREATED → FAILED besides; staying in a state is always admitted.
pub state_move_iff :
    (c t : JobState)
    → state_move_legal c t ≡ (
        c == t
        || (arrives c t && not (c == starting && t == cancelled))
        || (c == created && t == failed))
state_move_iff created t = ground arith
state_move_iff starting t = ground arith
state_move_iff running t = ground arith
state_move_iff stopping t = ground arith
state_move_iff completed t = ground arith
state_move_iff failed t = ground arith
state_move_iff cancelled t = ground arith

pub move_refl : (c : JobState) → state_move_legal c c ≡ true
move_refl c = ground arith

canonical_words :
    (canonical_task_state "running" ≡ running)
    × (canonical_task_state "queued" ≡ created)
    × (canonical_task_state "failed" ≡ failed)
    × (canonical_task_state "cancelled" ≡ cancelled)
unfolding canonical_task_state lower Dict.get
canonical_words = (refl, refl, refl, refl)

-- Both records are of one task, before and after: its canonical state moved legally.
abbrev pub IsMove : TaskRecord → TaskRecord → Type 0
IsMove r r' =
    state_move_legal (canonical_task_state r.status) (canonical_task_state r'.status) ≡ true

-- Every task that is in both stores made a legal move.
abbrev pub Moves : TaskStore → TaskStore → Type 0
Moves a b =
    (id : String) (r r' : TaskRecord)
    → Dict.get a.tasks id ≡ some r
    → Dict.get b.tasks id ≡ some r'
    → IsMove r r'

pub same_task :
    (id : String) (a b : TaskStore) (r r' : TaskRecord)
    → Dict.get a.tasks id ≡ some r
    → Dict.get b.tasks id ≡ some r'
    → Dict.get b.tasks id ≡ Dict.get a.tasks id
    → IsMove r r'
same_task id a b r r' p q e = ground (arith, move_refl (canonical_task_state r.status))

pub expire-IsMove : (now : ℕ) (s : TaskStore) (r : TaskRecord) → IsMove r (expire now s r)
unfolding expire
expire-IsMove now s r = ground (
  arith,
  canonical_words,
  ==_iff r.status "running",
  ==_iff r.status "queued",
  move_refl (canonical_task_state r.status),
)

change_status-IsMove :
    (now : ℕ) (status : Option String) (c : Changes) (r : TaskRecord) {r' : TaskRecord}
    → change_status now status r ≡ some r'
    → IsMove r (fill c r')
unfolding change_status task_transition_legal
change_status-IsMove now none c r h = ground (arith, move_refl (canonical_task_state r.status))
change_status-IsMove now (some status) c r h = ground arith

-- A write of one task's record, by a legal move of it.
pub put-Moves :
    (s : TaskStore) (id : String) (x x' : TaskRecord)
    → Dict.get s.tasks id ≡ some x
    → IsMove x x'
    → Moves s (record s { tasks = put s.tasks id x' })
put-Moves s id x x' h m j r r' p q =
    ground (arith, get-put s.tasks id j x', ==_iff id j, move_refl (canonical_task_state r.status))

pub update-Moves :
    (now : ℕ) (id : String) (c : Changes) (s : TaskStore) → Moves s (update now id c s)
unfolding update
update-Moves now id c s j r r' p q = elim (Option-cases (Dict.get s.tasks id)) [
  | inl e ↦ ground (arith, move_refl (canonical_task_state r.status))
  | inr (x, e) ↦ elim (Option-cases (change_status now c.status x)) [
    | inl f ↦ ground (arith, move_refl (canonical_task_state r.status))
    | inr (x', f) ↦
        put-Moves s id x (fill c x') e (change_status-IsMove now c.status c x f) j r r' p
          (ground arith)
  ]
]

pub get-Moves : (now : ℕ) (id : String) (s : TaskStore) → Moves s (get now id s).0
unfolding get
get-Moves now id s j r r' p q = elim (Option-cases (Dict.get s.tasks id)) [
  | inl e ↦ ground (arith, move_refl (canonical_task_state r.status))
  | inr (x, e) ↦ put-Moves s id x (expire now s x) e (expire-IsMove now s x) j r r' p (ground arith)
]

pub stop_runner-tasks : (id : String) (s : TaskStore) → (stop_runner id s).tasks ≡ s.tasks
unfolding stop_runner
stop_runner-tasks id s = ground arith

pub cancel-Moves : (now : ℕ) (id : String) (s : TaskStore) → Moves s (cancel now id s).0
unfolding cancel task_transition_legal
cancel-Moves now id s j r r' p q = elim (Option-cases (Dict.get s.tasks id)) [
  | inl e ↦ ground (arith, move_refl (canonical_task_state r.status))
  | inr (x, e) ↦
      let x' : TaskRecord = record x { status = "cancelled"; completed_at = some now } in
      ground (
        arith,
        move_refl (canonical_task_state r.status),
        stop_runner-tasks id (record s { tasks = put s.tasks id x' }),
        λ (m : IsMove x x'). put-Moves s id x x' e m j r r' p,
      )
]

pub delete-Moves : (id : String) (s : TaskStore) → Moves s (delete id s).0
unfolding delete
delete-Moves id s j r r' p q = ground (
  arith,
  stop_runner-tasks id (record s { tasks = remove s.tasks id }),
  get-remove s.tasks id j,
  move_refl (canonical_task_state r.status),
)

pub canonical_cancelled : canonical_task_state "cancelled" ≡ cancelled
canonical_cancelled = canonical_words.3
