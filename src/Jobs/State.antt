-- ===== src/Jobs/State.antt =====
-- pwnproxy/shared/contracts/job.py: the states of a job and `transition`. A job's `state` stands
-- for the value that `_resolve_state` gives; `config`, `stats` and `type` play no part here.
pub mod Machine
use pwnproxy.Prelude.{
  ℕ, ◌≡◌, ◌↔◌, ◌⊎◌, inl, inr, refl, String, Bool, true, false, Option, none, some, List, [], ◌∷◌,
  arith, any_of, Eq, ◌==◌, nat_beq, string_eq, if◌then◌else◌,
}
use pwnproxy.Dict.{Dict, get}

pub data JobState : Type 0 where
  created starting running stopping completed failed cancelled : JobState

abbrev index : JobState → ℕ
index created = 0
index starting = 1
index running = 2
index stopping = 3
index completed = 4
index failed = 5
index cancelled = 6

abbrev pub state_beq : JobState → JobState → Bool
state_beq a b = nat_beq (index a) (index b)

pub state_beq_iff : (a b : JobState) → (state_beq a b ≡ true) ↔ (a ≡ b)
state_beq_iff a b = ground arith

instance abbrev pub state_eq : Eq JobState
state_eq = record { decides = state_beq_iff; same = state_beq }

-- `.value` of the enum
abbrev pub value : JobState → String
value created = "created"
value starting = "starting"
value running = "running"
value stopping = "stopping"
value completed = "completed"
value failed = "failed"
value cancelled = "cancelled"

abbrev states_by_value : Dict String JobState
states_by_value =
    ("created", created)
    ∷ ("starting", starting)
    ∷ ("running", running)
    ∷ ("stopping", stopping)
    ∷ ("completed", completed)
    ∷ ("failed", failed)
    ∷ ("cancelled", cancelled)
    ∷ []

abbrev pub legacy_map : Dict String JobState
legacy_map =
    ("queued", created)
    ∷ ("running", running)
    ∷ ("completed", completed)
    ∷ ("failed", failed)
    ∷ ("stopped", cancelled)
    ∷ []

-- `JobState(v)`; `none` is its ValueError
unfoldable pub of_value : String → Option JobState
of_value v = get states_by_value v

-- `_resolve_state` of a string; `none` is its ValueError
unfoldable pub resolve_state : String → Option JobState
resolve_state v = elim (of_value v) [ some s ↦ some s | none ↦ get legacy_map v ]

abbrev pub legal_transitions : JobState → List JobState
legal_transitions created = starting ∷ cancelled ∷ []
legal_transitions starting = running ∷ failed ∷ stopping ∷ []
legal_transitions running = stopping ∷ completed ∷ failed ∷ []
legal_transitions stopping = cancelled ∷ failed ∷ []
legal_transitions completed = []
legal_transitions failed = []
legal_transitions cancelled = []

abbrev pub terminal_states : List JobState
terminal_states = completed ∷ failed ∷ cancelled ∷ []

abbrev pub has_state : List JobState → JobState → Bool
has_state states s = any_of (λ t. t == s) states

pub data JobError : Type 0 where
  invalid_transition not_found invalid_status disappeared : JobError

pub data Result {ℓ} (A : Type ℓ) : Type ℓ where
  ok : A → Result A
  err : JobError → Result A

pub Result-cases {ℓ} :
    {A : Type ℓ} (r : Result A) → ((a : A) × (r ≡ ok a)) ⊎ ((e : JobError) × (r ≡ err e))
Result-cases (ok a) = inl (a, refl)
Result-cases (err e) = inr (e, refl)

pub record Job : Type 0 where
  pub state : JobState
  pub started_at : Option ℕ
  pub finished_at : Option ℕ

abbrev pub first_time : Option ℕ → ℕ → Option ℕ
first_time none now = some now
first_time (some t) now = some t

-- the job after the checks: its new state and its times
abbrev pub entered : ℕ → JobState → Job → Job
entered now new_state job = record {
  state = new_state;
  started_at = if new_state == running then first_time job.started_at now else job.started_at;
  finished_at = if has_state terminal_states new_state then some now else job.finished_at;
}

unfoldable pub transition : ℕ → Job → JobState → Result Job
transition now job new_state =
    if has_state (legal_transitions job.state) new_state
    then ok (entered now new_state job)
    else err invalid_transition
