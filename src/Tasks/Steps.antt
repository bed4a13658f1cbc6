-- ===== src/Tasks/Steps.antt =====
-- The operations of the task store as steps, and what none of them does.
use pwnproxy.Prelude.{
  ℕ, ◌≡◌, ap, ◌∙◌, String, true, ◌⊎◌, none, some, [], ◌∷◌, inl, inr, arith, ==_iff, ==_refl,
  Option-cases, string_eq,
}
use pwnproxy.Dict.{Dict, put, get-put}
use pwnproxy.Dict
use pwnproxy.Jobs.State.{JobState, cancelled, has_state, terminal_states}
use pwnproxy.Tasks.{
  canonical_task_state, state_move_legal, task_transition_legal, task_is_terminal, TaskRecord,
  TaskStore, Changes, create, update, expire, get, expire_each, list, cancel, delete, track,
  selected,
}
use pwnproxy.Tasks.Legal.{
  IsMove, Moves, move_refl, expire-IsMove, update-Moves, get-Moves, cancel-Moves, delete-Moves,
  stop_runner-tasks, canonical_cancelled,
}

expire_idem :
    (now : ℕ) (s : TaskStore) (r : TaskRecord) → expire now s (expire now s r) ≡ expire now s r
unfolding expire
expire_idem now s r = ground arith

-- A record of the sweep: as it was, or expired.
abbrev IsSwept : ℕ → TaskStore → TaskRecord → TaskRecord → Type 0
IsSwept now s r x = (x ≡ r) ⊎ (x ≡ expire now s r)

expire-IsSwept :
    (now : ℕ) (s : TaskStore) (r x : TaskRecord)
    → IsSwept now s r x
    → IsSwept now s r (expire now s x)
expire-IsSwept now s r x (inl e) = inr (ap (expire now s) e)
expire-IsSwept now s r x (inr e) = inr (ap (expire now s) e ∙ expire_idem now s r)

expire_each-IsSwept :
    (now : ℕ) (s : TaskStore) (rows tasks : Dict String TaskRecord) (j : String) (r x : TaskRecord)
    → ((y : TaskRecord) → Dict.get tasks j ≡ some y → IsSwept now s r y)
    → Dict.get (expire_each now s rows tasks) j ≡ some x
    → IsSwept now s r x
unfolding expire_each
expire_each-IsSwept now s [] tasks j r x inv h = inv x h
expire_each-IsSwept now s ((i, row) ∷ rows) tasks j r x inv h =
    elim (Option-cases (Dict.get tasks i)) [
      | inl e ↦ expire_each-IsSwept now s rows tasks j r x inv (ground arith)
      | inr (y, e) ↦
          expire_each-IsSwept now s rows (put tasks i (expire now s y)) j r x
            (λ z q. ground (
              arith,
              get-put tasks i j (expire now s y),
              ==_iff i j,
              inv z,
              inv y,
              expire-IsSwept now s r y,
            ))
            (ground arith)
    ]

swept-IsMove : (now : ℕ) (s : TaskStore) (r x : TaskRecord) → IsSwept now s r x → IsMove r x
swept-IsMove now s r x h =
    ground (arith, move_refl (canonical_task_state r.status), expire-IsMove now s r)

list-Moves :
    (now : ℕ) (kind : String) (limit : ℕ) (session : String) (s : TaskStore)
    → Moves s (list now kind limit session s).0
unfolding list
list-Moves now kind limit session s j r x p q = swept-IsMove now s r x (
    expire_each-IsSwept now s (selected kind limit session s) s.tasks j r x
      (λ y e. inl (ground arith)) q)

-- An operation of the task store; a new task has an id that is not in use.
pub data Step : TaskStore → TaskStore → Type 0 where
  creates :
      (now : ℕ) (id kind config session : String) (s : TaskStore)
      → Dict.get s.tasks id ≡ none
      → Step s (create now id kind config session s)
  updates : (now : ℕ) (id : String) (c : Changes) (s : TaskStore) → Step s (update now id c s)
  gets : (now : ℕ) (id : String) (s : TaskStore) → Step s (get now id s).0
  lists :
      (now : ℕ) (kind : String) (limit : ℕ) (session : String) (s : TaskStore)
      → Step s (list now kind limit session s).0
  cancels : (now : ℕ) (id : String) (s : TaskStore) → Step s (cancel now id s).0
  deletes : (id : String) (s : TaskStore) → Step s (delete id s).0
  tracks : (id : String) (s : TaskStore) → Step s (track id s)

create-Moves :
    (now : ℕ) (id kind config session : String) (s : TaskStore)
    → Dict.get s.tasks id ≡ none
    → Moves s (create now id kind config session s)
unfolding create
create-Moves now id kind config session s free j r r' p q = ground (
  arith,
  get-put s.tasks id j (record {
    id = id;
    session = session;
    kind = kind;
    status = "queued";
    progress = 0;
    total = 0;
    config = config;
    result = none;
    error = none;
    created_at = some now;
    completed_at = none;
  }),
  ==_iff id j,
  move_refl (canonical_task_state r.status),
)

track-Moves : (id : String) (s : TaskStore) → Moves s (track id s)
unfolding track
track-Moves id s j r r' p q = ground (arith, move_refl (canonical_task_state r.status))

step_lem : {a b : TaskStore} → Step a b → Moves a b
step_lem (creates now id kind config session s free) =
    create-Moves now id kind config session s free
step_lem (updates now id c s) = update-Moves now id c s
step_lem (gets now id s) = get-Moves now id s
step_lem (lists now kind limit session s) = list-Moves now kind limit session s
step_lem (cancels now id s) = cancel-Moves now id s
step_lem (deletes id s) = delete-Moves id s
step_lem (tracks id s) = track-Moves id s

-- No operation of the store, its reads with their expiry included, moves a task from one canonical
-- state to another but by an admitted move.
pub Step-Moves :
    {a b : TaskStore} (id : String) (r r' : TaskRecord)
    → Step a b
    → Dict.get a.tasks id ≡ some r
    → Dict.get b.tasks id ≡ some r'
    → state_move_legal (canonical_task_state r.status) (canonical_task_state r'.status) ≡ true
Step-Moves id r r' st = step_lem st id r r'

move_terminal :
    (c t : JobState) → has_state terminal_states c ≡ true → state_move_legal c t ≡ true → t ≡ c
move_terminal c t h m = ground arith

-- A task in a terminal state that is still in the store after an operation has the same canonical
-- state.
pub Step-terminal :
    {a b : TaskStore} (id : String) (r r' : TaskRecord)
    → Step a b
    → Dict.get a.tasks id ≡ some r
    → Dict.get b.tasks id ≡ some r'
    → task_is_terminal r.status ≡ true
    → canonical_task_state r'.status ≡ canonical_task_state r.status
unfolding task_is_terminal
Step-terminal id r r' st p q t =
    move_terminal (canonical_task_state r.status) (canonical_task_state r'.status) t
      (Step-Moves id r r' st p q)

-- A task that is cancelled already is not left alone by `cancel`: its completion time becomes the
-- time of the call, and the call returns true.
pub cancel_again :
    (now : ℕ) (id : String) (s : TaskStore) (r : TaskRecord)
    → Dict.get s.tasks id ≡ some r
    → canonical_task_state r.status ≡ cancelled
    → (Dict.get (cancel now id s).0.tasks id
        ≡ some (record r { status = "cancelled"; completed_at = some now }))
      × ((cancel now id s).1 ≡ true)
unfolding cancel task_transition_legal
cancel_again now id s r h c =
    let r' : TaskRecord = record r { status = "cancelled"; completed_at = some now } in
    ground (
      arith,
      stop_runner-tasks id (record s { tasks = put s.tasks id r' }),
      get-put s.tasks id id r',
      ==_refl id,
      canonical_cancelled,
    )
