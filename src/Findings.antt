-- ===== src/Findings.antt =====
-- pwnproxy/shared/findings/storage.py: FindingStorage. The tables are lists in the order of their
-- ids; the id that the database gives a row, and the times, are arguments. Of the `extra` object of
-- a row only the two keys that the code reads or writes are modelled. `S` is the type of the scores
-- (floats) and `F` that of the features. The callback `on_saved` is the client's next step.
pub mod History
use Prim.Native.String.{count as char_count, ◌++◌ as ◌<>◌}
use pwnproxy.Prelude.{
  ℕ, ◌+◌, String, Bool, true, false, not, Option, none, some, List, [], ◌∷◌, ◌++◌, keep_if, ltb,
  length, take, drop, ◌==◌, nat_eq, string_eq, if◌then◌else◌,
}
use pwnproxy.Prelude.Text.{take_chars}
use pwnproxy.Prelude.Sort.{sort_by}

pub record Extra (F : Type 0) : Type 0 where
  pub scan_id : Option String
  pub triage_features : Option F

-- a finding, as it is given to be saved
pub record Finding (F : Type 0) : Type 0 where
  pub scanner : String
  pub url : String
  pub method : String
  pub param_name : String
  pub param_location : String
  pub technique : String
  pub severity : String
  pub confidence : String
  pub payload : String
  pub evidence : String
  pub timestamp : ℕ
  pub extra : Extra F
  pub request_data : Option String

-- a row of the table
pub record FindingRow (S F : Type 0) : Type 0 where
  pub id : ℕ
  pub finding : Finding F
  pub triage_score : Option S
  pub triage_verdict : Option String
  pub triage_method : Option String
  pub triage_reason : Option String

pub record TriageHistory (S : Type 0) : Type 0 where
  pub finding_id : ℕ
  pub verdict : String
  pub method : String
  pub score : Option S
  pub reason : Option String

pub record Db (S F : Type 0) : Type 0 where
  pub findings : List (FindingRow S F)
  pub history : List (TriageHistory S)

-- what a call of `set_triage` is given
pub record Triage (S F : Type 0) : Type 0 where
  pub verdict : String
  pub method : String
  pub score : Option S
  pub reason : Option String
  pub features : Option F

-- `reason[:252] + "..."` for a longer text than the column takes
unfoldable pub cut_reason : Option String → Option String
cut_reason none = none
cut_reason (some reason) =
    if ltb 255 (char_count reason) then some (take_chars 252 reason <> "...") else some reason

-- features that are given are written
abbrev with_features : {F : Type 0} → Option F → Extra F → Extra F
with_features none extra = extra
with_features (some fs) extra = record extra { triage_features = some fs }

module _ {S F : Type 0} where
  unfoldable pub new_row : ℕ → Finding F → FindingRow S F
  new_row id finding = record {
    id = id;
    finding = finding;
    triage_score = none;
    triage_verdict = none;
    triage_method = none;
    triage_reason = none;
  }

  unfoldable pub save : ℕ → Finding F → Db S F → Db S F
  save id finding db = record db { findings = db.findings ++ new_row id finding ∷ [] }

  -- the first row of an id
  unfoldable pub find_row : List (FindingRow S F) → ℕ → Option (FindingRow S F)
  find_row [] id = none
  find_row (row ∷ rows) id = let rest = find_row rows id in if row.id == id then some row else rest

  unfoldable pub get : Db S F → ℕ → Option (FindingRow S F)
  get db id = find_row db.findings id

  abbrev of_scanner : Option String → List (FindingRow S F) → List (FindingRow S F)
  of_scanner none rows = rows
  of_scanner (some scanner) rows =
      if scanner == "" then rows else keep_if (λ r. r.finding.scanner == scanner) rows

  abbrev later_id : FindingRow S F → FindingRow S F → Bool
  later_id r s = ltb s.id r.id

  unfoldable pub list : Option String → ℕ → ℕ → Db S F → List (FindingRow S F)
  list scanner limit offset db =
      take limit (drop offset (sort_by later_id (of_scanner scanner db.findings)))

  unfoldable pub count : Option String → Db S F → ℕ
  count scanner db = length (of_scanner scanner db.findings)

  unfoldable pub iter_all : Db S F → List (FindingRow S F)
  iter_all db = sort_by (λ r s. later_id s r) db.findings

  -- the columns written
  unfoldable pub triaged : Triage S F → FindingRow S F → FindingRow S F
  triaged t row = record row {
    triage_verdict = some t.verdict;
    triage_method = some t.method;
    triage_score = t.score;
    triage_reason = cut_reason t.reason;
    finding = record row.finding { extra = with_features t.features row.finding.extra };
  }

  unfoldable pub update_rows : ℕ → Triage S F → List (FindingRow S F) → List (FindingRow S F)
  update_rows id t [] = []
  update_rows id t (row ∷ rows) =
      let rest = update_rows id t rows in if row.id == id then triaged t row ∷ rows else row ∷ rest

  unfoldable pub history_row : ℕ → Triage S F → TriageHistory S
  history_row id t = record {
    finding_id = id;
    verdict = t.verdict;
    method = t.method;
    score = t.score;
    reason = cut_reason t.reason;
  }

  -- the row as it is after the call, or None for a missing id
  unfoldable pub set_triage : ℕ → Triage S F → Db S F → Option (FindingRow S F) × Db S F
  set_triage id t db = elim (get db id) [
    | none ↦ (none, db)
    | some row ↦ (
      some (triaged t row),
      record db {
        findings = update_rows id t db.findings;
        history = db.history ++ history_row id t ∷ [];
      },
    )
  ]

  abbrev without : ℕ → List (FindingRow S F) → List (FindingRow S F)
  without id rows = keep_if (λ r. not (r.id == id)) rows

  unfoldable pub delete : ℕ → Db S F → Bool × Db S F
  delete id db = elim (get db id) [
    | none ↦ (false, db)
    | some row ↦ (true, record db { findings = without id db.findings })
  ]

abbrev pub empty_db : (S F : Type 0) → Db S F
empty_db S F = record { findings = []; history = [] }
