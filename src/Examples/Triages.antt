-- ===== src/Examples/Triages.antt =====
-- Findings saved and triaged. Scores are numbers of hundredths here.
use pwnproxy.Prelude.{
  arith, ℕ, ◌+◌, min, String, true, false, none, some, [], ◌∷◌, ◌++◌, ltb, leb, ◌≡◌, refl, nat_eq,
  string_eq, ◌⊎◌,
}
use pwnproxy.Prelude.Text.{lower}
use pwnproxy.Findings.{
  delete, history_row, update_rows, triaged, Finding, FindingRow, Triage, Db, new_row, save,
  find_row, get, set_triage, empty_db,
}
use pwnproxy.Findings.History.{IsAudited, latest, saved_at, Changes, Changes-IsAudited}
use pwnproxy.Triage.Heuristic.{Floats, TriageConfig, Features, is_in, score_finding}
use pwnproxy.Triage.Pipeline.{Pipeline, new_pipeline, handle, job_of, Step, Reach}
use pwnproxy.Triage.Budget.{IsWithinBudget, SameCalls, Reach-IsWithinBudget}
use pwnproxy.Triage.Verdicts.{IsOrdered, JudgeMode, handle_confirmed, handle-queue}

-- hundredths, with no negative weight
abbrev floats : Floats ℕ
floats = record {
  add = λ a b. a + b;
  lt = ltb;
  le = leb;
  zero_score = 0;
  base_score = 50;
  clamped = λ a. min 100 a;
  shown = λ a. "0.50";
}

floats-IsOrdered : IsOrdered floats
floats-IsOrdered = (λ a. ground arith, λ a b h. ground arith)

abbrev config : TriageConfig ℕ
config = record {
  enabled = true;
  mode = "legacy_gray";
  auto_true = 70;
  auto_false = 30;
  queue_maxsize = 1;
  weights = ("detailed_evidence", 10) ∷ ("confirmed_confidence", 5) ∷ [];
  max_llm_per_scan = 2;
  skip_llm_if_confidence = "tentative" ∷ [];
  enrich_fp_threshold = 85;
}

abbrev finding : String → Finding Features
finding confidence = record {
  scanner = "sqli";
  url = "http://a/";
  method = "GET";
  param_name = "id";
  param_location = "query";
  technique = "error";
  severity = "high";
  confidence = confidence;
  payload = "'";
  evidence = "near";
  timestamp = 0;
  extra = record { scan_id = some "s1"; triage_features = none };
  request_data = none;
}

abbrev row : String → FindingRow ℕ Features
row confidence = new_row 1 (finding confidence)

abbrev saved : String → Db ℕ Features
saved confidence = save 1 (finding confidence) (empty_db ℕ Features)

abbrev verdict : Triage ℕ Features
verdict = record {
  verdict = "false_positive";
  method = "human";
  score = none;
  reason = some "seen";
  features = none;
}

one_is_new : get (empty_db ℕ Features) 1 ≡ none
unfolding get find_row
one_is_new = refl

Changes-IsAudited_example :
    IsAudited (saved_at 1 0 (λ _. 0)) (set_triage 1 verdict (saved "confirmed")).1
Changes-IsAudited_example = Changes-IsAudited (
    Changes.triages (saved_at 1 0 (λ _. 0)) 1 verdict (saved "confirmed") (
      Changes.saves (λ _. 0) 1 (finding "confirmed") (empty_db ℕ Features) one_is_new
        Changes.none_made))

-- a new finding under the id of a deleted one, whose history it finds
abbrev reused : Db ℕ Features
reused = save 1 (finding "inferred") (delete 1 (set_triage 1 verdict (saved "confirmed")).1).1

old_history : latest reused.history 1 ≡ some (history_row 1 verdict)
unfolding save new_row get find_row delete set_triage latest update_rows triaged history_row
old_history = refl

not_triaged : get reused 1 ≡ some (row "inferred")
unfolding save new_row get find_row delete set_triage update_rows triaged
not_triaged = refl

-- two findings of one scan, and a queue of one
abbrev twice : Pipeline ℕ
twice =
    handle floats config true true (row "inferred")
      (handle floats config true true (row "inferred") (new_pipeline ℕ (saved "inferred")))

Reach-IsWithinBudget_example : IsWithinBudget floats config true true twice
Reach-IsWithinBudget_example = Reach-IsWithinBudget floats config true true (
    Reach.next (Reach.next (Reach.fresh (saved "inferred")) (Step.handles _ (row "inferred")))
      (Step.handles _ (row "inferred")))

confirmed_row : get (saved "confirmed") 1 ≡ some (row "confirmed")
unfolding get find_row save new_row
confirmed_row = refl

confirmed_lower : lower "confirmed" ≡ "confirmed"
unfolding lower
confirmed_lower = refl

handle_confirmed_example :
    let t = new_pipeline ℕ (saved "confirmed") in
    let u = handle floats config true true (row "confirmed") t in
    ((new : FindingRow ℕ Features) × (get u.db 1 ≡ some new)
      × (new.triage_verdict ≡ some "true_positive")
      × (new.triage_method ≡ some "heuristic"))
    × SameCalls t u
unfolding new_row
handle_confirmed_example =
    handle_confirmed floats config true true (row "confirmed") (row "confirmed")
      (new_pipeline ℕ (saved "confirmed")) floats-IsOrdered refl confirmed_lower confirmed_row

handle-queue_example :
    let t = new_pipeline ℕ (saved "inferred") in
    let u = handle floats config true true (row "inferred") t in
    let confidence = lower (row "inferred").finding.confidence in
    let score = (score_finding floats config (row "inferred")).score in
    (u.queue ≡ t.queue)
    ⊎ (u.queue ≡ t.queue ++ job_of floats config true true (row "inferred") ∷ [])
      × (config.enabled ≡ true)
      × (◌≡◌ true true)
      × (is_in confidence config.skip_llm_if_confidence ≡ false)
      × (floats.le config.auto_true score ≡ false)
      × (floats.le score config.auto_false ≡ false)
      × JudgeMode floats config true true confidence
handle-queue_example =
    handle-queue floats config true true (row "inferred") (new_pipeline ℕ (saved "inferred"))
      floats-IsOrdered
