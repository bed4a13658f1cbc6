-- ===== src/Triage/Budget.antt =====
-- The calls of the judge: their budget for each scan, and the bound of the queue.
use pwnproxy.Prelude.{
  arith, ℕ, ◌+◌, ◌-◌, ◌≤◌, ◌<◌, String, Bool, false, not, ◌&&◌, Option, none, some, List, [], ◌∷◌,
  ◌++◌, map, length, length-append, ◌==◌, ==_iff, ==_refl, nat_eq, string_eq, if◌then◌else◌,
  if-holds, Bool-cases, ◌≡◌, refl, ap, ◌∙◌, ◌⊎◌, inl, inr,
}
use pwnproxy.Dict.{Dict, get, get_or, put, get-put}
use pwnproxy.Findings.{FindingRow}
use pwnproxy.Triage.Heuristic.{Floats, TriageConfig, Features, HeuristicResult, score_finding}
use pwnproxy.Triage.Pipeline.{
  Job, JudgeVerdict, Update, Pipeline, start, stop, budget_available, is_full, enqueue, publish,
  set, apply, may_judge, job_of, send_gray, handle, handle_human_feedback, enrich_blocks_fp,
  take_job, blocked_reason, given_reason, settle, starts, stops, handles, hears, takes, settles,
  stores, Reach, fresh, next,
}

-- how often a key occurs
abbrev pub tally : String → List String → ℕ
tally key [] = 0
tally key (k ∷ ks) = (if k == key then 1 else 0) + tally key ks

tally-append :
    (key : String) (ks ls : List String) → tally key (ks ++ ls) ≡ tally key ks + tally key ls
tally-append key [] ls = omega arith
tally-append key (k ∷ ks) ls = omega (arith, tally-append key ks ls)

abbrev pub keys_of : List Job → List String
keys_of jobs = map (λ j. j.scan_key) jobs

keys_of-snoc :
    (jobs : List Job) (job : Job) → keys_of (jobs ++ job ∷ []) ≡ keys_of jobs ++ job.scan_key ∷ []
keys_of-snoc [] job = refl
keys_of-snoc (j ∷ jobs) job = ap (λ ks. j.scan_key ∷ ks) (keys_of-snoc jobs job)

get_or-put :
    (d : Dict String ℕ) (key other : String) (n : ℕ)
    → get_or (put d key n) other 0 ≡ (if key == other then n else get_or d other 0)
get_or-put d key other n = ground (arith, get-put d key other n)

-- nothing that the budget is about has changed
abbrev pub SameCalls : {S : Type 0} → Pipeline S → Pipeline S → Type 0
SameCalls t u = (u.queue ≡ t.queue) × (u.llm_calls ≡ t.llm_calls) × (u.judged ≡ t.judged)

module _ {S : Type 0} (floats : Floats S) (config : TriageConfig S) (has_judge has_bus : Bool) where
  -- the calls of the judge for a scan, and the entries that wait for one
  abbrev pub spent : String → Pipeline S → ℕ
  spent key t = tally key t.judged + tally key (keys_of t.queue)

  abbrev pub IsQueueBounded : List Job → Type 0
  IsQueueBounded queue = (config.queue_maxsize ≡ 0) ⊎ (length queue ≤ config.queue_maxsize)

  abbrev pub IsWithinBudget : Pipeline S → Type 0
  IsWithinBudget t =
      ((key : String)
        → (get_or t.llm_calls key 0 ≡ spent key t) × (spent key t ≤ config.max_llm_per_scan))
      × IsQueueBounded t.queue

  carry : (t u : Pipeline S) → SameCalls t u → IsWithinBudget t → IsWithinBudget u
  carry t u s i = (λ key. rw s.0 (rw s.1 (rw s.2 (i.0 key))), rw s.0 i.1)

  publish-SameCalls :
      (row : Option (FindingRow S Features)) (update : Update S) (t : Pipeline S)
      → SameCalls t (publish floats config has_judge has_bus row update t)
  unfolding publish
  publish-SameCalls none update t = (refl, refl, refl)
  publish-SameCalls (some row) update t =
      if-holds (SameCalls t) has_bus (λ _. (refl, refl, refl)) (λ _. (refl, refl, refl))

  set-SameCalls :
      (id : ℕ) (verdict method : String) (score : Option S) (reason : String)
      (features : Option Features) (t : Pipeline S)
      → SameCalls t (set floats config has_judge has_bus id verdict method score reason features t)
  unfolding set
  set-SameCalls id verdict method score reason features t =
      let s = publish-SameCalls _ _ _ in (s.0, s.1, s.2)

  set-IsWithinBudget :
      (id : ℕ) (verdict method : String) (score : Option S) (reason : String)
      (features : Option Features) (t : Pipeline S)
      → IsWithinBudget t
      → IsWithinBudget
          (set floats config has_judge has_bus id verdict method score reason features t)
  set-IsWithinBudget id verdict method score reason features t i =
      carry t (set floats config has_judge has_bus id verdict method score reason features t)
        (set-SameCalls id verdict method score reason features t) i

  release-same :
      (key other : String) (t : Pipeline S)
      → let reserved = put t.llm_calls key (get_or t.llm_calls key 0 + 1) in
        get_or (put reserved key (get_or reserved key 0 - 1)) other 0 ≡ get_or t.llm_calls other 0
  release-same key other t =
      let reserved = put t.llm_calls key (get_or t.llm_calls key 0 + 1) in
      ground (
        arith,
        get_or-put reserved key other (get_or reserved key 0 - 1),
        get_or-put t.llm_calls key other (get_or t.llm_calls key 0 + 1),
        get_or-put t.llm_calls key key (get_or t.llm_calls key 0 + 1),
        ==_refl key,
        string_eq.decides key other,
      )

  budget_below :
      (key : String) (t : Pipeline S)
      → not (budget_available floats config has_judge has_bus key t) ≡ false
      → get_or t.llm_calls key 0 < config.max_llm_per_scan
  unfolding budget_available
  budget_below key t h = ground arith

  room_left :
      (queue : List Job) (job : Job)
      → is_full floats config has_judge has_bus queue ≡ false
      → IsQueueBounded (queue ++ job ∷ [])
  unfolding is_full
  room_left queue job h = ground (arith, length-append queue (job ∷ []))

  -- one slot more for the entry's scan, and none for another
  reserved_lem :
      (job : Job) (t : Pipeline S) (key : String)
      → get_or t.llm_calls job.scan_key 0 < config.max_llm_per_scan
      → (get_or t.llm_calls key 0 ≡ spent key t) × (spent key t ≤ config.max_llm_per_scan)
      → let reserved = put t.llm_calls job.scan_key (get_or t.llm_calls job.scan_key 0 + 1) in
        let after = tally key t.judged + tally key (keys_of (t.queue ++ job ∷ [])) in
        (get_or reserved key 0 ≡ after) × (after ≤ config.max_llm_per_scan)
  reserved_lem job t key below i =
      let reserved =
        get_or-put t.llm_calls job.scan_key key (get_or t.llm_calls job.scan_key 0 + 1) in
      let waiting : tally key (keys_of (t.queue ++ job ∷ []))
          ≡ tally key (keys_of t.queue) + ((if job.scan_key == key then 1 else 0) + 0) =
        ap (tally key) (keys_of-snoc t.queue job)
        ∙ tally-append key (keys_of t.queue) (job.scan_key ∷ []) in
      elim (Bool-cases (job.scan_key == key)) [
        | inl e ↦
            let same : get_or t.llm_calls job.scan_key 0 ≡ get_or t.llm_calls key 0 =
              ap (λ k. get_or t.llm_calls k 0) ((==_iff job.scan_key key).0 e) in
            ground (arith, reserved, waiting, same, below, i.0, i.1, e)
        | inr d ↦ ground (arith, reserved, waiting, i.0, i.1, d)
      ]

  enqueue-IsWithinBudget :
      (job : Job) (t : Pipeline S)
      → IsWithinBudget t
      → IsWithinBudget (enqueue floats config has_judge has_bus job t)
  unfolding enqueue
  enqueue-IsWithinBudget job t i =
      if-holds IsWithinBudget
        (not (budget_available floats config has_judge has_bus job.scan_key t)) (λ _. i)
        (λ b.
          if-holds IsWithinBudget (is_full floats config has_judge has_bus t.queue)
            (λ _. (λ key. rw (release-same job.scan_key key t) (i.0 key), i.1))
            (λ r. (
              λ key. reserved_lem job t key (budget_below job.scan_key t b) (i.0 key),
              room_left t.queue job r,
            )))

  pub apply-SameCalls :
      (id : ℕ) (verdict method : String) (result : HeuristicResult S) (t : Pipeline S)
      → SameCalls t (apply floats config has_judge has_bus id verdict method result t)
  unfolding apply
  apply-SameCalls id verdict method result t = set-SameCalls id verdict method _ _ _ t

  apply-IsWithinBudget :
      (id : ℕ) (verdict : String) (result : HeuristicResult S) (t : Pipeline S)
      → IsWithinBudget t
      → IsWithinBudget (apply floats config has_judge has_bus id verdict "heuristic" result t)
  unfolding apply
  apply-IsWithinBudget id verdict result t i = set-IsWithinBudget id verdict "heuristic" _ _ _ t i

  handle-IsWithinBudget :
      (row : FindingRow S Features) (t : Pipeline S)
      → IsWithinBudget t
      → IsWithinBudget (handle floats config has_judge has_bus row t)
  unfolding handle send_gray
  handle-IsWithinBudget row t i =
      let result = score_finding floats config row in
      let gray = apply floats config has_judge has_bus row.id "uncertain" "heuristic" result t in
      let gray-fits = apply-IsWithinBudget row.id "uncertain" result t i in
      if-holds IsWithinBudget (not config.enabled) (λ _. i)
        (λ _.
          if-holds IsWithinBudget (floats.le config.auto_true result.score)
            (λ _. apply-IsWithinBudget row.id "true_positive" result t i)
            (λ _.
              if-holds IsWithinBudget (floats.le result.score config.auto_false)
                (λ _. apply-IsWithinBudget row.id "false_positive" result t i)
                (λ _.
                  if-holds IsWithinBudget (may_judge floats config has_judge has_bus row)
                    (λ _.
                      enqueue-IsWithinBudget (job_of floats config has_judge has_bus row) gray
                        gray-fits)
                    (λ _. gray-fits))))

  take_job-IsWithinBudget :
      (job : Job) (rest : List Job) (t : Pipeline S)
      → t.queue ≡ job ∷ rest
      → IsWithinBudget t
      → IsWithinBudget (take_job job rest t)
  unfolding take_job
  take_job-IsWithinBudget job rest t q i = (
    λ key.
        let waits : tally key (keys_of t.queue)
            ≡ (if job.scan_key == key then 1 else 0) + tally key (keys_of rest) =
          ap (λ js. tally key (keys_of js)) q in
        let k = i.0 key in
        omega (arith, k.0, k.1, waits, tally-append key t.judged (job.scan_key ∷ [])),
    shorter i.1,
  )
    where
      shorter : IsQueueBounded t.queue → IsQueueBounded rest
      shorter (inl z) = inl z
      shorter (inr l) = inr (omega (arith, l, ap length q))

  settle-IsWithinBudget :
      (job : Job) (answer : Option (JudgeVerdict S)) (t : Pipeline S)
      → IsWithinBudget t
      → IsWithinBudget (settle floats config has_judge has_bus job answer t)
  unfolding settle
  settle-IsWithinBudget job none t i = i
  settle-IsWithinBudget job (some v) t i =
      let free : Pipeline S = record t { judging = none } in
      if-holds IsWithinBudget
        (config.mode == "enrich" && enrich_blocks_fp floats config has_judge has_bus job.snapshot v)
        (λ _.
          set-IsWithinBudget job.finding_id "uncertain" "llm" (some v.confidence)
            (blocked_reason floats config has_judge has_bus v.confidence) (some job.features) free
            i)
        (λ _.
          set-IsWithinBudget job.finding_id v.verdict "llm" (some v.confidence) v.reason
            (some job.features) free i)

  -- In every state of the pipeline, whatever is saved, judged and stopped in whatever order, the
  -- judge was called for each scan, and waits to be called for entries in the queue, at most
  -- `max_llm_per_scan` times together, which is the count that the pipeline keeps, and the queue is
  -- no longer than its bound, where it has one.
  pub Reach-IsWithinBudget :
      {t : Pipeline S} → Reach floats config has_judge has_bus t → IsWithinBudget t
  unfolding get start stop handle_human_feedback
  Reach-IsWithinBudget (fresh db) = (λ key. (refl, omega arith), inr (omega arith))
  Reach-IsWithinBudget (next r (starts t)) = Reach-IsWithinBudget r
  Reach-IsWithinBudget (next r (stops t)) = Reach-IsWithinBudget r
  Reach-IsWithinBudget (next r (handles t row)) =
      handle-IsWithinBudget row t (Reach-IsWithinBudget r)
  Reach-IsWithinBudget (next r (hears t id verdict reason)) =
      set-IsWithinBudget id verdict "human" none (given_reason reason) none t
        (Reach-IsWithinBudget r)
  Reach-IsWithinBudget (next r (takes t job rest p n q)) =
      take_job-IsWithinBudget job rest t q (Reach-IsWithinBudget r)
  Reach-IsWithinBudget (next r (settles t job answer j)) =
      settle-IsWithinBudget job answer t (Reach-IsWithinBudget r)
  Reach-IsWithinBudget (next r (stores t db)) = Reach-IsWithinBudget r
