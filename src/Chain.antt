-- ===== src/Chain.antt =====
-- pwnproxy/plugins/core/chain.py: detection stages run in order of cost. A stage is what the chain
-- sees of it: its order, its place in memory (the tie-break of the sort), its least depth, and what
-- `execute` answers for the points it is given, an exception included. Points, findings and the
-- keys of points are parameters. `calls` logs the calls of `execute`; the generator is run to its
-- end.
pub mod Log
pub mod Escalation
pub mod Budget
use pwnproxy.Prelude.{
  ℕ, ◌+◌, Bool, true, false, not, ◌&&◌, ◌||◌, Option, none, some, List, [], ◌∷◌, ◌++◌, any_of,
  keep_if, ltb, leb, Eq, ◌==◌, nat_eq, if◌then◌else◌,
}
use pwnproxy.Prelude.Sort.{sort_by}

pub data DetectionDepth : Type 0 where
  fast standard deep : DetectionDepth

abbrev pub depth_order : DetectionDepth → ℕ
depth_order fast = 0
depth_order standard = 1
depth_order deep = 2

pub data Outcome (F K : Type 0) : Type 0 where
  result : List F → List K → Outcome F K
  raised : Outcome F K

pub record Stage (P F K : Type 0) : Type 0 where
  pub order : ℕ
  pub address : ℕ
  pub min_depth : DetectionDepth
  pub execute : List P → Outcome F K

-- one call of `execute`: when (the last reading of the elapsed time), on what, and the answer
pub record Call (P F K : Type 0) : Type 0 where
  pub stage : Stage P F K
  pub points : List P
  pub outcome : Outcome F K
  pub elapsed : ℕ

pub record Run (P F K : Type 0) : Type 0 where
  pub findings : List F
  pub confirmed : List K
  pub calls : List (Call P F K)

abbrev pub is_empty {ℓ} : {A : Type ℓ} → List A → Bool
is_empty [] = true
is_empty (_ ∷ _) = false

-- `BudgetChain._depth_allows`
unfoldable pub depth_allows : DetectionDepth → DetectionDepth → DetectionDepth → Bool
depth_allows depth max_depth wave =
    leb (depth_order depth) (depth_order wave) && leb (depth_order wave) (depth_order max_depth)

-- `BUDGET_MS`
abbrev pub budget_ms : DetectionDepth → ℕ
budget_ms fast = 3000
budget_ms standard = 15000
budget_ms deep = 30000

module _ {P F K : Type 0} where
  unfoldable pub should_run : DetectionDepth → Stage P F K → Bool
  should_run depth s = leb (depth_order s.min_depth) (depth_order depth)

  -- the key of the sort, `(order, id(s))`
  abbrev pub runs_before : Stage P F K → Stage P F K → Bool
  runs_before s t = ltb s.order t.order || s.order == t.order && leb s.address t.address

  -- `DetectionChain.__init__`
  unfoldable pub sort_stages : List (Stage P F K) → List (Stage P F K)
  sort_stages stages = sort_by runs_before stages

  -- what a call of a stage leaves; an exception leaves the findings and the confirmed keys
  abbrev pub record_call : Stage P F K → List P → ℕ → Outcome F K → Run P F K → Run P F K
  record_call s points now (result fs ks) r = record {
    findings = r.findings ++ fs;
    confirmed = r.confirmed ++ ks;
    calls =
        r.calls
        ++ record { stage = s; points = points; outcome = result fs ks; elapsed = now } ∷ [];
  }
  record_call s points now raised r = record r {
    calls = r.calls ++ record { stage = s; points = points; outcome = raised; elapsed = now } ∷ [];
  }

  unfoldable pub call_stage : Stage P F K → List P → ℕ → Run P F K → Run P F K
  call_stage s points now r = record_call s points now (s.execute points) r

  -- `BudgetChain`: `clock n` is the elapsed time at its `n`-th reading, in milliseconds
  -- the stages of one wave, all on the points left at its start; the number is that of the
  -- readings so far
  unfoldable pub run_wave :
      (ℕ → ℕ) → ℕ → List P → List (Stage P F K) → ℕ → Run P F K → ℕ × Run P F K
  run_wave clock budget left [] n r = (n, r)
  run_wave clock budget left (s ∷ ss) n r =
      let on = run_wave clock budget left ss (n + 1) (call_stage s left (clock n) r) in
      if leb budget (clock n) then (n + 1, r) else on

  unfoldable pub wave_stages : DetectionDepth → List (Stage P F K) → List (Stage P F K)
  wave_stages wave stages = keep_if (λ s. depth_order s.min_depth == depth_order wave) stages

abbrev pub new_run : (P F K : Type 0) → Run P F K
new_run P F K = record { findings = []; confirmed = []; calls = [] }

module _ {P K : Type 0} ⦃e : Eq K⦄ (key : P → K) where
  abbrev pub is_confirmed : List K → P → Bool
  is_confirmed ks p = any_of (λ k. k == key p) ks

  -- `[p for p in injection_points if p.key not in confirmed_keys]`
  unfoldable pub remaining : List P → List K → List P
  remaining points ks = keep_if (λ p. not (is_confirmed ks p)) points

module _ {P F K : Type 0} ⦃e : Eq K⦄ (key : P → K) where
  -- the loop of `DetectionChain.run`
  unfoldable pub run_stages : DetectionDepth → List P → List (Stage P F K) → Run P F K → Run P F K
  run_stages depth points [] r = r
  run_stages depth points (s ∷ ss) r =
      let skipped = run_stages depth points ss r in
      let left = remaining key points r.confirmed in
      let called = run_stages depth points ss (call_stage s left 0 r) in
      if not (should_run depth s) then skipped else if is_empty left then r else called

  unfoldable pub run : DetectionDepth → List (Stage P F K) → List P → Run P F K
  run depth stages points = run_stages depth points (sort_stages stages) (new_run P F K)

  -- the loop over the waves
  unfoldable pub run_waves :
      (ℕ → ℕ)
      → ℕ
      → DetectionDepth
      → DetectionDepth
      → List (Stage P F K)
      → List P
      → List DetectionDepth
      → ℕ
      → Run P F K
      → Run P F K
  run_waves clock budget depth max_depth stages points [] n r = r
  run_waves clock budget depth max_depth stages points (wave ∷ waves) n r =
      let skipped = run_waves clock budget depth max_depth stages points waves n r in
      let left = remaining key points r.confirmed in
      let now = wave_stages wave stages in
      let no_stage = run_waves clock budget depth max_depth stages points waves (n + 1) r in
      let after = run_wave clock budget left now (n + 1) r in
      let on = run_waves clock budget depth max_depth stages points waves after.0 after.1 in
      if not (depth_allows depth max_depth wave)
      then skipped
      else if leb budget (clock n)
      then r
      else if is_empty left
      then r
      else if is_empty now
      then no_stage
      else on

  unfoldable pub run_budget :
      (ℕ → ℕ) → ℕ → DetectionDepth → DetectionDepth → List (Stage P F K) → List P → Run P F K
  run_budget clock budget depth max_depth stages points =
      run_waves clock budget depth max_depth (sort_stages stages) points
        (fast ∷ standard ∷ deep ∷ []) 0 (new_run P F K)

  -- `chain_from_depth`, run: the depth is a ceiling, and 0 is a budget that was given
  unfoldable pub run_from_depth :
      (ℕ → ℕ) → DetectionDepth → Option ℕ → List (Stage P F K) → List P → Run P F K
  run_from_depth clock depth none stages points =
      run_budget clock (budget_ms depth) fast depth stages points
  run_from_depth clock depth (some budget) stages points =
      run_budget clock budget fast depth stages points
