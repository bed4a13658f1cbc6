-- ===== src/Jobs/State/Machine.antt =====
-- The machine of contracts/job.py as a relation, and what `transition` does along it.
use pwnproxy.Prelude.{
  ℕ, ◌≡◌, ◌↔◌, refl, ap, ◌∙◌, Bool, true, false, inl, inr, Bool-cases, Option, none, some, List, [],
  ◌∷◌, arith,
}
use pwnproxy.Jobs.State.{
  JobState, created, starting, running, stopping, completed, failed, cancelled, state_eq,
  legal_transitions, terminal_states, has_state, Result, ok, err, invalid_transition, Job, entered,
  transition,
}

-- The arrows of the state diagram.
infix 40 ◌⟶◌ ◌⟶*◌
pub data ◌⟶◌ : JobState → JobState → Type 0 where
  launch : created ⟶ starting
  withdraw : created ⟶ cancelled
  begin : starting ⟶ running
  misfire : starting ⟶ failed
  abort : starting ⟶ stopping
  halt : running ⟶ stopping
  finish : running ⟶ completed
  crash : running ⟶ failed
  settle : stopping ⟶ cancelled
  break : stopping ⟶ failed

pub data ◌⟶*◌ : JobState → JobState → Type 0 where
  here : {s : JobState} → s ⟶* s
  then : {s t u : JobState} → s ⟶ t → t ⟶* u → s ⟶* u

pub ruleset arrows = (launch, withdraw, begin, misfire, abort, halt, finish, crash, settle, break)

abbrev pub IsTerminal : JobState → Type 0
IsTerminal s = has_state terminal_states s ≡ true

legal-⟶ : (s t : JobState) → has_state (legal_transitions s) t ≡ true → s ⟶ t
legal-⟶ created t h = grind (arith, arrows)
legal-⟶ starting t h = grind (arith, arrows)
legal-⟶ running t h = grind (arith, arrows)
legal-⟶ stopping t h = grind (arith, arrows)
legal-⟶ completed t h = absurd (cc h)
legal-⟶ failed t h = absurd (cc h)
legal-⟶ cancelled t h = absurd (cc h)

⟶-legal : {s t : JobState} → s ⟶ t → has_state (legal_transitions s) t ≡ true
⟶-legal launch = refl
⟶-legal withdraw = refl
⟶-legal begin = refl
⟶-legal misfire = refl
⟶-legal abort = refl
⟶-legal halt = refl
⟶-legal finish = refl
⟶-legal crash = refl
⟶-legal settle = refl
⟶-legal break = refl

-- `transition` succeeds exactly along the arrows of the diagram; along any other pair of states
-- it raises InvalidJobTransition.
pub transition_iff :
    (now : ℕ) (job : Job) (s : JobState)
    → (((job' : Job) × (transition now job s ≡ ok job')) ↔ (job.state ⟶ s))
      × (¬ (job.state ⟶ s) → transition now job s ≡ err invalid_transition)
unfolding transition
transition_iff now job s = (
  (λ h. legal-⟶ job.state s (ground (arith, h.1)), λ a. (entered now s job, rw (⟶-legal a))),
  λ n. elim (Bool-cases (has_state (legal_transitions job.state) s)) [
    | inl l ↦ absurd (n (legal-⟶ job.state s l))
    | inr l ↦ rw l
  ],
)

abbrev pub is_set : Option ℕ → Bool
is_set none = false
is_set (some t) = true

-- What the two times of a job say of its state.
pub record IsTimed (job : Job) : Type 0 where
  pub finished : is_set job.finished_at ≡ has_state terminal_states job.state
  pub begun : has_state (running ∷ completed ∷ []) job.state ≡ true → is_set job.started_at ≡ true

abbrev pub fresh : Job
fresh = record { state = created; started_at = none; finished_at = none }

abbrev pub answer : Job → Result Job → Job
answer job (ok job') = job'
answer job (err _) = job

-- Requests for a state at a time, one after the other; a refused one changes nothing.
unfoldable pub follow : List (ℕ × JobState) → Job → Job
follow [] job = job
follow ((now, s) ∷ rest) job = follow rest (answer job (transition now job s))

transition-IsTimed :
    (now : ℕ) (job : Job) (s : JobState) → IsTimed job → IsTimed (answer job (transition now job s))
unfolding transition
transition-IsTimed now job s h = ground arith

follow-IsTimed_from :
    (requests : List (ℕ × JobState)) (job : Job) → IsTimed job → IsTimed (follow requests job)
unfolding follow
follow-IsTimed_from [] job h = h
follow-IsTimed_from ((now, s) ∷ rest) job h =
    follow-IsTimed_from rest (answer job (transition now job s)) (transition-IsTimed now job s h)

-- After any requests to a new job, `finished_at` is set exactly when the state is terminal, and a
-- RUNNING or COMPLETED job has its `started_at`.
pub follow-IsTimed : (requests : List (ℕ × JobState)) → IsTimed (follow requests fresh)
follow-IsTimed requests = follow-IsTimed_from requests fresh (ground arith)

transition_terminal :
    (now : ℕ) (job : Job) (s : JobState)
    → IsTerminal job.state
    → transition now job s ≡ err invalid_transition
unfolding transition
transition_terminal now job s h = ground arith

transition-started :
    (now : ℕ) (job : Job) (s : JobState)
    → is_set job.started_at ≡ true
    → (answer job (transition now job s)).started_at ≡ job.started_at
unfolding transition
transition-started now job s h = ground arith

follow-started :
    (requests : List (ℕ × JobState)) (job : Job)
    → is_set job.started_at ≡ true
    → (follow requests job).started_at ≡ job.started_at
unfolding follow
follow-started [] job h = refl
follow-started ((now, s) ∷ rest) job h =
    let job' : Job = answer job (transition now job s) in
    let same = transition-started now job s h in
    follow-started rest job' (ap is_set same ∙ h) ∙ same

follow_terminal :
    (requests : List (ℕ × JobState)) (job : Job) → IsTerminal job.state → follow requests job ≡ job
unfolding follow
follow_terminal [] job h = refl
follow_terminal ((now, s) ∷ rest) job h =
    rw (transition_terminal now job s h) (follow_terminal rest job h)

-- Requests never rewrite history: a job in a terminal state stays exactly as it is, and in every
-- job `started_at`, once set, keeps its value.
pub follow_keeps :
    (requests : List (ℕ × JobState)) (job : Job)
    → (IsTerminal job.state → follow requests job ≡ job)
      × (is_set job.started_at ≡ true → (follow requests job).started_at ≡ job.started_at)
follow_keeps requests job = (follow_terminal requests job, follow-started requests job)

-- The diagram has a way from every state to a terminal one.
pub ⟶*-IsTerminal : (s : JobState) → (t : JobState) × (s ⟶* t) × IsTerminal t
⟶*-IsTerminal created = (cancelled, then withdraw here, refl)
⟶*-IsTerminal starting = (failed, then misfire here, refl)
⟶*-IsTerminal running = (failed, then crash here, refl)
⟶*-IsTerminal stopping = (failed, then break here, refl)
⟶*-IsTerminal completed = (completed, here, refl)
⟶*-IsTerminal failed = (failed, here, refl)
⟶*-IsTerminal cancelled = (cancelled, here, refl)

pub transition_state :
    (now : ℕ) (job : Job) (s : JobState) {job' : Job}
    → transition now job s ≡ ok job'
    → (job'.state ≡ s) × (has_state terminal_states job.state ≡ false)
unfolding transition
transition_state now job s h = ground arith
