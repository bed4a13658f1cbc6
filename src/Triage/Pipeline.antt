-- ===== src/Triage/Pipeline.antt =====
-- pwnproxy/ai/triage/pipeline.py, TriagePipeline. The judge's answers are parameters of the worker's
-- steps; `judged` logs the scan keys of its calls. The worker holds the entry that it is judging.
-- Whether there is a judge and whether a bus are arguments; the storage raises nothing.
use pwnproxy.Prelude.{
  ℕ, ◌+◌, ◌-◌, String, Bool, true, false, not, ◌&&◌, Option, none, some, List, [], ◌∷◌, ◌++◌,
  length, ltb, leb, ◌==◌, nat_eq, string_eq, if◌then◌else◌, ◌≡◌,
}
use pwnproxy.Prelude.Text.{lower, join}
use pwnproxy.Dict.{Dict, get_or, put}
use pwnproxy.Findings.{FindingRow, Db, set_triage}
use pwnproxy.Triage.Heuristic.{
  Floats, TriageConfig, Features, HeuristicResult, is_in, score_finding,
}

-- what the judge sees of a row
pub record Snapshot : Type 0 where
  pub id : ℕ
  pub scanner : String
  pub url : String
  pub method : String
  pub param_name : String
  pub param_location : String
  pub technique : String
  pub severity : String
  pub confidence : String
  pub payload : String
  pub evidence : String

pub record Job : Type 0 where
  pub finding_id : ℕ
  pub snapshot : Snapshot
  pub features : Features
  pub scan_key : String

pub record JudgeVerdict (S : Type 0) : Type 0 where
  pub verdict : String
  pub confidence : S
  pub reason : String

-- the payload of `triage.updated`
pub record Update (S : Type 0) : Type 0 where
  pub finding_id : ℕ
  pub verdict : String
  pub method : String
  pub score : Option S
  pub reason : String

pub record Pipeline (S : Type 0) : Type 0 where
  pub db : Db S Features
  pub queue : List Job
  pub llm_calls : Dict String ℕ
  pub running : Bool
  pub judging : Option Job
  pub judged : List String
  pub published : List (Update S)

abbrev pub new_pipeline : (S : Type 0) → Db S Features → Pipeline S
new_pipeline S db = record {
  db = db;
  queue = [];
  llm_calls = [];
  running = false;
  judging = none;
  judged = [];
  published = [];
}

abbrev some_key : Option String → String
some_key none = "default"
some_key (some id) = if id == "" then "default" else id

-- `_scan_key`
unfoldable pub scan_key_of : {S : Type 0} → FindingRow S Features → String
scan_key_of row = some_key row.finding.extra.scan_id

unfoldable pub snapshot_of : {S : Type 0} → FindingRow S Features → Snapshot
snapshot_of row = record {
  id = row.id;
  scanner = row.finding.scanner;
  url = row.finding.url;
  method = row.finding.method;
  param_name = row.finding.param_name;
  param_location = row.finding.param_location;
  technique = row.finding.technique;
  severity = row.finding.severity;
  confidence = row.finding.confidence;
  payload = row.finding.payload;
  evidence = row.finding.evidence;
}

abbrev pub or_default : String → String → String
or_default reason default = if reason == "" then default else reason

abbrev pub given_reason : Option String → String
given_reason none = "human_review"
given_reason (some reason) = or_default reason "human_review"

module _ {S : Type 0} where
  unfoldable pub start : Pipeline S → Pipeline S
  start t = record t { running = true }

  -- the entry that is being judged is lost
  unfoldable pub stop : Pipeline S → Pipeline S
  stop t = record t { running = false; judging = none }

  -- the worker takes an entry and calls the judge
  unfoldable pub take_job : Job → List Job → Pipeline S → Pipeline S
  take_job job rest t = record t {
    queue = rest;
    judging = some job;
    judged = t.judged ++ job.scan_key ∷ [];
  }

module _ {S : Type 0} (floats : Floats S) (config : TriageConfig S) (has_judge has_bus : Bool) where
  -- `_should_llm`
  unfoldable pub should_llm : String → Bool
  should_llm confidence =
      if config.mode == "off"
      then false
      else if config.mode == "heuristic"
      then false
      else if config.mode == "legacy_gray"
      then true
      else if config.mode == "enrich"
      then is_in confidence ("confirmed" ∷ "inferred" ∷ [])
      else false

  unfoldable pub budget_available : String → Pipeline S → Bool
  budget_available key t =
      if config.max_llm_per_scan == 0
      then false
      else ltb (get_or t.llm_calls key 0) config.max_llm_per_scan

  -- `asyncio.Queue.full`: 0 is no bound
  unfoldable pub is_full : List Job → Bool
  is_full queue =
      if config.queue_maxsize == 0 then false else leb config.queue_maxsize (length queue)

  -- `_enqueue`: the slot is reserved, and given back if the queue is full
  unfoldable pub enqueue : Job → Pipeline S → Pipeline S
  enqueue job t =
      let key = job.scan_key in
      let reserved = put t.llm_calls key (get_or t.llm_calls key 0 + 1) in
      if not (budget_available key t)
      then t
      else if is_full t.queue
      then record t { llm_calls = put reserved key (get_or reserved key 0 - 1) }
      else record t { llm_calls = reserved; queue = t.queue ++ job ∷ [] }

  -- `_publish`, for a row that was updated
  unfoldable pub publish : Option (FindingRow S Features) → Update S → Pipeline S → Pipeline S
  publish none update t = t
  publish (some row) update t =
      if has_bus then record t { published = t.published ++ update ∷ [] } else t

  -- `_set`
  unfoldable pub set :
      ℕ → String → String → Option S → String → Option Features → Pipeline S → Pipeline S
  set id verdict method score reason features t =
      let r =
        set_triage id
          (record {
            verdict = verdict;
            method = method;
            score = score;
            reason = some reason;
            features = features;
          })
          t.db in
      publish r.0
        (record {
          finding_id = id;
          verdict = verdict;
          method = method;
          score = score;
          reason = reason;
        })
        (record t { db = r.1 })

  -- `_apply`
  unfoldable pub apply : ℕ → String → String → HeuristicResult S → Pipeline S → Pipeline S
  apply id verdict method result t =
      set id verdict method (some result.score) (or_default (join ";" result.reasons) "default")
        (some result.features) t

  -- whether a finding in the gray zone goes to the judge
  unfoldable pub may_judge : FindingRow S Features → Bool
  may_judge row =
      let confidence = lower row.finding.confidence in
      has_judge && not (is_in confidence config.skip_llm_if_confidence) && should_llm confidence

  unfoldable pub job_of : FindingRow S Features → Job
  job_of row = record {
    finding_id = row.id;
    snapshot = snapshot_of row;
    features = (score_finding floats config row).features;
    scan_key = scan_key_of row;
  }

  -- the end of the branch of the gray zone
  unfoldable pub send_gray : FindingRow S Features → Pipeline S → Pipeline S
  send_gray row t = if may_judge row then enqueue (job_of row) t else t

  unfoldable pub handle : FindingRow S Features → Pipeline S → Pipeline S
  handle row t =
      let result = score_finding floats config row in
      if not config.enabled
      then t
      else if floats.le config.auto_true result.score
      then apply row.id "true_positive" "heuristic" result t
      else if floats.le result.score config.auto_false
      then apply row.id "false_positive" "heuristic" result t
      else send_gray row (apply row.id "uncertain" "heuristic" result t)

  unfoldable pub handle_human_feedback : ℕ → String → Option String → Pipeline S → Pipeline S
  handle_human_feedback id verdict reason t =
      set id verdict "human" none (given_reason reason) none t

  -- `_enrich_blocks_fp`
  unfoldable pub enrich_blocks_fp : Snapshot → JudgeVerdict S → Bool
  enrich_blocks_fp snapshot v =
      if not (v.verdict == "false_positive")
      then false
      else if not (is_in (lower snapshot.confidence) ("confirmed" ∷ "inferred" ∷ []))
      then false
      else floats.lt v.confidence config.enrich_fp_threshold

  abbrev pub blocked_reason : S → String
  blocked_reason c = join "" ("enrich fp blocked (judge confidence " ∷ floats.shown c ∷ ")" ∷ [])

  -- what the worker does with the answer; `none` is that the judge raised
  unfoldable pub settle : Job → Option (JudgeVerdict S) → Pipeline S → Pipeline S
  settle job none t = record t { judging = none }
  settle job (some v) t =
      let free = record t { judging = none } in
      if config.mode == "enrich" && enrich_blocks_fp job.snapshot v
      then set job.finding_id "uncertain" "llm" (some v.confidence) (blocked_reason v.confidence)
          (some job.features) free
      else set job.finding_id v.verdict "llm" (some v.confidence) v.reason (some job.features) free

  -- what may happen, in any order; others write to the findings at any time
  pub data Step : Pipeline S → Pipeline S → Type 0 where
    starts : (t : Pipeline S) → Step t (start t)
    stops : (t : Pipeline S) → Step t (stop t)
    handles : (t : Pipeline S) (row : FindingRow S Features) → Step t (handle row t)
    hears :
        (t : Pipeline S) (id : ℕ) (verdict : String) (reason : Option String)
        → Step t (handle_human_feedback id verdict reason t)
    takes :
        (t : Pipeline S) (job : Job) (rest : List Job)
        → t.running ≡ true
        → t.judging ≡ none
        → t.queue ≡ job ∷ rest
        → Step t (take_job job rest t)
    settles :
        (t : Pipeline S) (job : Job) (answer : Option (JudgeVerdict S))
        → t.judging ≡ some job
        → Step t (settle job answer t)
    stores : (t : Pipeline S) (db : Db S Features) → Step t (record t { db = db })

  pub data Reach : Pipeline S → Type 0 where
    fresh : (db : Db S Features) → Reach (new_pipeline S db)
    next : {t u : Pipeline S} → Reach t → Step t u → Reach u
