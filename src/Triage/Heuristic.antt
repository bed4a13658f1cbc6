-- ===== src/Triage/Heuristic.antt =====
-- pwnproxy/ai/triage/config.py, TriageConfig, and heuristic.py, `score_finding`. `S` is the type of
-- floats. A request that is missing or empty is `none`.
use Prim.Native.String.{count as char_count}
use pwnproxy.Prelude.{
  ℕ, String, Bool, true, false, not, ◌&&◌, Option, none, some, List, [], ◌∷◌, ◌++◌, any_of, leb,
  ◌==◌, string_eq, if◌then◌else◌,
}
use pwnproxy.Prelude.Text.{lower, strip, contains}
use pwnproxy.Dict.{Dict, get_or}
use pwnproxy.Findings.{Finding, FindingRow}

-- what the code does with floats
pub record Floats (S : Type 0) : Type 0 where
  pub add : S → S → S
  pub lt : S → S → Bool
  pub le : S → S → Bool
  -- 0.0 and 0.5
  pub zero_score : S
  pub base_score : S
  -- round(min(1.0, max(0.0, score)), 3)
  pub clamped : S → S
  -- two digits
  pub shown : S → String

pub record TriageConfig (S : Type 0) : Type 0 where
  pub enabled : Bool
  pub mode : String
  pub auto_true : S
  pub auto_false : S
  pub queue_maxsize : ℕ
  pub weights : Dict String S
  pub max_llm_per_scan : ℕ
  pub skip_llm_if_confidence : List String
  pub enrich_fp_threshold : S

pub record Features : Type 0 where
  pub evidence_len : ℕ
  pub has_request_data : Bool

pub record HeuristicResult (S : Type 0) : Type 0 where
  pub score : S
  pub reasons : List String
  pub features : Features

abbrev pub is_in : String → List String → Bool
is_in x xs = any_of (λ y. y == x) xs

abbrev detailed_evidence_len : ℕ
detailed_evidence_len = 120

-- `list(dict.fromkeys(reasons))`, with what was seen
unfoldable pub unique : List String → List String → List String
unique seen [] = []
unique seen (x ∷ xs) =
    let again = unique seen xs in
    let rest = unique (x ∷ seen) xs in if is_in x seen then again else x ∷ rest

abbrev is_given : {A : Type 0} → Option A → Bool
is_given none = false
is_given (some _) = true

module _ {S : Type 0} (floats : Floats S) (config : TriageConfig S) where
  -- a score and its reasons so far
  abbrev Scored : Type 0
  Scored = S × List String

  -- `score += w.get(weight, 0.0)`, with its reason
  abbrev weigh : String → String → Scored → Scored
  weigh weight reason (score, reasons) =
      (floats.add score (get_or config.weights weight floats.zero_score), reasons ++ reason ∷ [])

  abbrev weigh_if : Bool → String → String → Scored → Scored
  weigh_if b weight reason s = if b then weigh weight reason s else s

  unfoldable pub weigh_evidence : String → String → Scored → Scored
  weigh_evidence evidence payload s =
      if evidence == ""
      then weigh "no_evidence" "no_evidence" s
      else weigh_if (not (payload == "") && contains evidence payload) "payload_in_evidence"
          "strong_evidence"
          (weigh_if (leb detailed_evidence_len (char_count evidence)) "detailed_evidence"
            "strong_evidence" s)

  unfoldable pub weigh_confidence : String → Scored → Scored
  weigh_confidence confidence s =
      if confidence == "tentative"
      then weigh "tentative_confidence" "scanner_noise" s
      else if confidence == "confirmed"
      then weigh "confirmed_confidence" "confirmed_scanner" s
      else if confidence == "inferred"
      then weigh "inferred_confidence" "inferred_scanner" s
      else if is_in confidence ("confident" ∷ "certain" ∷ "firm" ∷ [])
      then weigh "confident_confidence" "confident_scanner" s
      else s

  -- the floor of a confirmed finding
  unfoldable pub floor : String → Scored → Scored
  floor confidence (final, reasons) =
      if confidence == "confirmed" && floats.lt final config.auto_true
      then (config.auto_true, reasons ++ "confirmed_floor" ∷ [])
      else (final, reasons)

  unfoldable pub weighed : Finding Features → Scored
  weighed f = weigh_if (is_given f.request_data) "request_context" "request_context" (
      weigh_confidence (lower f.confidence)
        (weigh_evidence (strip f.evidence) (strip f.payload) (floats.base_score, [])))

  unfoldable pub score_finding : FindingRow S Features → HeuristicResult S
  score_finding row =
      let raw = weighed row.finding in
      let final = floor (lower row.finding.confidence) (floats.clamped raw.0, raw.1) in
      record {
        score = final.0;
        reasons = unique [] final.1;
        features = record {
          evidence_len = char_count (strip row.finding.evidence);
          has_request_data = is_given row.finding.request_data;
        };
      }
