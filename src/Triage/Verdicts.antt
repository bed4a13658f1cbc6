-- ===== src/Triage/Verdicts.antt =====
-- Which verdict the heuristic gives, and which findings it leaves to the judge.
use pwnproxy.Prelude.{
  arith, ℕ, String, Bool, true, false, not, Option, none, some, List, [], ◌∷◌, ◌++◌, ◌==◌, ==_refl,
  nat_eq, string_eq, if-holds, if_true, if_false, Bool-cases, ◌≡◌, refl, sym, ap, ◌∙◌, subst, ◌⊎◌,
  inl, inr,
}
use pwnproxy.Prelude.Text.{lower, join}
use pwnproxy.Findings.{FindingRow, Triage, get, triaged}
use pwnproxy.Findings.History.{get-set_triage}
use pwnproxy.Triage.Heuristic.{
  Floats, TriageConfig, Features, HeuristicResult, is_in, floor, weighed, score_finding,
}
use pwnproxy.Triage.Pipeline.{
  Job, Update, Pipeline, or_default, should_llm, budget_available, is_full, enqueue, publish, set,
  apply, may_judge, job_of, send_gray, handle,
}
use pwnproxy.Triage.Budget.{SameCalls, apply-SameCalls}

-- what holds of Python's comparisons of floats that are numbers
abbrev pub IsOrdered : {S : Type 0} → Floats S → Type 0
IsOrdered {S} floats =
    ((a : S) → floats.le a a ≡ true) × ((a b : S) → floats.lt a b ≡ false → floats.le b a ≡ true)

true-false : true ≡ false → ⊥
true-false e = ground arith

module _ {S : Type 0} (floats : Floats S) (config : TriageConfig S) where
  floor-reaches :
      (reasons : List String) (final : S)
      → IsOrdered floats
      → floats.le config.auto_true (floor floats config "confirmed" (final, reasons)).0 ≡ true
  unfolding floor
  floor-reaches reasons final o = elim (Bool-cases (floats.lt final config.auto_true)) [
    | inl b ↦ rw b (o.0 config.auto_true)
    | inr b ↦ rw b (o.1 final config.auto_true b)
  ]

  score_confirmed :
      (row : FindingRow S Features)
      → IsOrdered floats
      → lower row.finding.confidence ≡ "confirmed"
      → floats.le config.auto_true (score_finding floats config row).score ≡ true
  unfolding score_finding
  score_confirmed row o c =
      let raw = weighed floats config row.finding in
      subst
        (λ k.
          floats.le config.auto_true (floor floats config k (floats.clamped raw.0, raw.1)).0 ≡ true)
        (sym c) (floor-reaches raw.1 (floats.clamped raw.0) o)

module _ {S : Type 0} (floats : Floats S) (config : TriageConfig S) (has_judge has_bus : Bool) where
  publish-db :
      (row : Option (FindingRow S Features)) (update : Update S) (t : Pipeline S)
      → (publish floats config has_judge has_bus row update t).db ≡ t.db
  unfolding publish
  publish-db none update t = refl
  publish-db (some row) update t =
      if-holds (λ (u : Pipeline S). u.db ≡ t.db) has_bus (λ _. refl) (λ _. refl)

  -- what `_apply` writes
  abbrev written : String → HeuristicResult S → Triage S Features
  written verdict result = record {
    verdict = verdict;
    method = "heuristic";
    score = some result.score;
    reason = some (or_default (join ";" result.reasons) "default");
    features = some result.features;
  }

  apply-get :
      (id : ℕ) (verdict : String) (result : HeuristicResult S) (t : Pipeline S)
      (old : FindingRow S Features)
      → get t.db id ≡ some old
      → get (apply floats config has_judge has_bus id verdict "heuristic" result t).db id
        ≡ some (triaged (written verdict result) old)
  unfolding apply set
  apply-get id verdict result t old g =
      ap (λ db. get db id) (publish-db _ _ _)
      ∙ get-set_triage id id (written verdict result) t.db old g
      ∙ if_true (id == id) _ _ (==_refl id)

  handle_high :
      (row : FindingRow S Features) (t : Pipeline S)
      → config.enabled ≡ true
      → floats.le config.auto_true (score_finding floats config row).score ≡ true
      → handle floats config has_judge has_bus row t
        ≡ apply floats config has_judge has_bus row.id "true_positive" "heuristic"
            (score_finding floats config row)
            t
  unfolding handle
  handle_high row t e h = if_false (not config.enabled) _ _ (ap not e) ∙ if_true _ _ _ h

  -- A finding of the table that its scanner confirmed is triaged by the heuristic as a true
  -- positive, whatever its evidence, its payload and the weights, and does not touch the queue, the
  -- budget or the judge, if the pipeline is enabled and the floats are ordered as numbers are.
  pub handle_confirmed :
      (row old : FindingRow S Features) (t : Pipeline S)
      → IsOrdered floats
      → config.enabled ≡ true
      → lower row.finding.confidence ≡ "confirmed"
      → get t.db row.id ≡ some old
      → let u = handle floats config has_judge has_bus row t in
        ((new : FindingRow S Features) × (get u.db row.id ≡ some new)
          × (new.triage_verdict ≡ some "true_positive")
          × (new.triage_method ≡ some "heuristic"))
        × SameCalls t u
  unfolding triaged
  handle_confirmed row old t o e c g =
      let result = score_finding floats config row in
      let same = handle_high row t e (score_confirmed floats config row o c) in
      (
        (
          triaged (written "true_positive" result) old,
          ap (λ u. get u.db row.id) same ∙ apply-get row.id "true_positive" result t old g,
          refl,
          refl,
        ),
        subst (SameCalls t) (sym same) (
            apply-SameCalls floats config has_judge has_bus row.id "true_positive" "heuristic"
              result t),
      )

  -- the modes in which a finding of this confidence goes to the judge
  abbrev pub JudgeMode : String → Type 0
  JudgeMode confidence =
      (config.mode ≡ "legacy_gray") ⊎ (config.mode ≡ "enrich") × (confidence ≡ "inferred")

  should_llm-JudgeMode :
      (confidence : String)
      → should_llm floats config has_judge has_bus confidence ≡ true
      → (confidence ≡ "confirmed" → ⊥)
      → JudgeMode confidence
  unfolding should_llm
  should_llm-JudgeMode confidence h n = ground (
    arith,
    string_eq.decides config.mode "legacy_gray",
    string_eq.decides config.mode "enrich",
    string_eq.decides "confirmed" confidence,
    string_eq.decides "inferred" confidence,
    n,
  )

  may_judge-parts :
      (row : FindingRow S Features)
      → may_judge floats config has_judge has_bus row ≡ true
      → let confidence = lower row.finding.confidence in
        (has_judge ≡ true)
        × (is_in confidence config.skip_llm_if_confidence ≡ false)
        × (should_llm floats config has_judge has_bus confidence ≡ true)
  unfolding may_judge
  may_judge-parts row h = ground arith

  enqueue-queue :
      (job : Job) (t : Pipeline S)
      → let u = enqueue floats config has_judge has_bus job t in
        (u.queue ≡ t.queue) ⊎ (u.queue ≡ t.queue ++ job ∷ [])
  unfolding enqueue
  enqueue-queue job t =
      let P = λ (u : Pipeline S). (u.queue ≡ t.queue) ⊎ (u.queue ≡ t.queue ++ job ∷ []) in
      if-holds P (not (budget_available floats config has_judge has_bus job.scan_key t))
        (λ _. inl refl)
        (λ _.
          if-holds P (is_full floats config has_judge has_bus t.queue) (λ _. inl refl)
            (λ _. inr refl))

  -- Of the entries of the queue, a finding that is handled adds its own or none, and its own only
  -- if there is a judge, its confidence is none of those that never reach it, its score lies
  -- strictly between the thresholds, and the mode is `legacy_gray`, or it is `enrich` and the
  -- confidence is `inferred`: a confirmed finding is never sent, for its score has a floor. The
  -- floats are ordered as numbers are.
  pub handle-queue :
      (row : FindingRow S Features) (t : Pipeline S)
      → IsOrdered floats
      → let u = handle floats config has_judge has_bus row t in
        let confidence = lower row.finding.confidence in
        let score = (score_finding floats config row).score in
        (u.queue ≡ t.queue)
        ⊎ (u.queue ≡ t.queue ++ job_of floats config has_judge has_bus row ∷ [])
          × (config.enabled ≡ true)
          × (has_judge ≡ true)
          × (is_in confidence config.skip_llm_if_confidence ≡ false)
          × (floats.le config.auto_true score ≡ false)
          × (floats.le score config.auto_false ≡ false)
          × JudgeMode confidence
  unfolding handle send_gray
  handle-queue row t o =
      let result = score_finding floats config row in
      let job = job_of floats config has_judge has_bus row in
      let applied = λ (verdict : String).
        apply floats config has_judge has_bus row.id verdict "heuristic" result t in
      let same = λ (verdict : String).
        (apply-SameCalls floats config has_judge has_bus row.id verdict "heuristic" result t).0 in
      let P = λ (u : Pipeline S).
        (u.queue ≡ t.queue)
        ⊎ (u.queue ≡ t.queue ++ job ∷ [])
          × (config.enabled ≡ true)
          × (has_judge ≡ true)
          × (is_in (lower row.finding.confidence) config.skip_llm_if_confidence ≡ false)
          × (floats.le config.auto_true result.score ≡ false)
          × (floats.le result.score config.auto_false ≡ false)
          × JudgeMode (lower row.finding.confidence) in
      if-holds P (not config.enabled) (λ _. inl refl)
        (λ e.
          if-holds P (floats.le config.auto_true result.score) (λ _. inl (same "true_positive"))
            (λ a.
              if-holds P (floats.le result.score config.auto_false)
                (λ _. inl (same "false_positive"))
                (λ b.
                  if-holds P (may_judge floats config has_judge has_bus row)
                    (λ m.
                      let parts = may_judge-parts row m in
                      elim (enqueue-queue job (applied "uncertain")) [
                        | inl q ↦ inl (q ∙ same "uncertain")
                        | inr q ↦ inr (
                          q ∙ ap (λ js. js ++ job ∷ []) (same "uncertain"),
                          ground arith,
                          parts.0,
                          parts.1,
                          a,
                          b,
                          should_llm-JudgeMode (lower row.finding.confidence) parts.2
                              (λ c. true-false (sym (score_confirmed floats config row o c) ∙ a)),
                        )
                      ])
                    (λ _. inl (same "uncertain")))))
