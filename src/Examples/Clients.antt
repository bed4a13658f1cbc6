-- ===== src/Examples/Clients.antt =====
-- The detection chain and the LLM client at work.
use pwnproxy.Prelude.{
  ℕ, ◌+◌, ◌-◌, ◌*◌, if◌then◌else◌, ◌≡◌, refl, String, true, not, ◌&&◌, none, some, List, [], ◌∷◌,
  keep_if, leb, nat_eq, string_eq, ◌==◌, map,
}
use pwnproxy.Prelude.Sort.{sort_by, insert}
use pwnproxy.Dict
use pwnproxy.Chain.{
  DetectionDepth, fast, standard, deep, result, raised, Stage, should_run, sort_stages, run,
  run_budget, run_waves, run_wave, wave_stages, depth_allows, remaining, call_stage, Call,
}
use pwnproxy.Chain.Escalation.{IsSound, IsComplete, run-IsSound, run-IsComplete}
use pwnproxy.Chain.Budget.{IsEscalation, run_budget-IsEscalation}
use pwnproxy.Llm.Breaker.{
  CircuitBreaker, closed, new_breaker, is_open, circuit_state, record_success, record_failure,
  record_failures, record_success-closes, record_failures-opens,
}
use pwnproxy.Llm.Client.{
  response, rate_limited, timed_out, Reply, Client, Config, generate, generate_from, try_provider,
  back_off, next_candidate,
}
use pwnproxy.Llm.Client.Outcomes.{IsGenerate, generate-IsGenerate}

-- a point is a number and its own key; a stage confirms the first point that it is given
abbrev same : ℕ → ℕ
same p = p

abbrev stage_of : ℕ → DetectionDepth → Stage ℕ String ℕ
stage_of n depth = record {
  order = n;
  address = n;
  min_depth = depth;
  execute = λ points. elim points [ [] ↦ raised | p ∷ _ ↦ result ("finding" ∷ []) (p ∷ []) ];
}

abbrev stages : List (Stage ℕ String ℕ)
stages = stage_of 2 fast ∷ stage_of 1 fast ∷ stage_of 3 deep ∷ []

run-IsSound_example : IsSound same (run same standard stages (4 ∷ 5 ∷ 6 ∷ []))
run-IsSound_example = run-IsSound same standard stages (4 ∷ 5 ∷ 6 ∷ [])

run-IsComplete_example :
    IsComplete same
      (4 ∷ 5 ∷ 6 ∷ [])
      (keep_if (should_run standard) (sort_stages stages))
      (run same standard stages (4 ∷ 5 ∷ 6 ∷ []))
run-IsComplete_example = run-IsComplete same standard stages (4 ∷ 5 ∷ 6 ∷ [])

run_budget-IsEscalation_example :
    IsEscalation same 3000 fast deep
      (run_budget same (λ n. n * 700) 3000 fast deep stages (4 ∷ 5 ∷ 6 ∷ []))
run_budget-IsEscalation_example =
    run_budget-IsEscalation same 3000 fast deep (λ n. n * 700) stages (4 ∷ 5 ∷ 6 ∷ [])

abbrev breaker : CircuitBreaker
breaker = new_breaker 3 60000

record_success-closes_example : circuit_state 9 "groq" (record_success "groq" breaker) ≡ closed
record_success-closes_example = record_success-closes 9 "groq" breaker

no_failures : Dict.get_or breaker.failures "groq" 0 ≡ 0
unfolding new_breaker Dict.get
no_failures = refl

not_opened : Dict.get breaker.opened_at "groq" ≡ none
unfolding new_breaker Dict.get
not_opened = refl

record_failures-opens_example :
    is_open 5000 "groq" (record_failures (λ n. n * 1000) 3 "groq" breaker)
    ≡ (leb breaker.threshold (2 + 1) && not (leb breaker.cooldown (5000 - 2000)))
record_failures-opens_example =
    record_failures-opens (λ n. n * 1000) 5000 2 "groq" breaker no_failures not_opened

-- the first provider is rate limited, then times out; the second answers
abbrev replies : ℕ → String → Reply String ℕ
replies n name = record {
  answer = if name == "ollama" then response "ok" else if n == 0 then rate_limited 0 else timed_out;
  duration = 100;
}

abbrev config : Config
config = record { is_provider = λ n. true; chain = "groq" ∷ "ollama" ∷ []; rate_limit_retries = 2 }

abbrev client : Client
client = record { circuits = breaker; ledger = some []; calls = []; now = 0 }

generate-IsGenerate_example :
    IsGenerate replies config ("groq" ∷ "ollama" ∷ []) client (generate replies config client)
generate-IsGenerate_example = generate-IsGenerate replies config client

-- three calls were made: the rate-limited one, the timeout and the answer
three_calls : (generate replies config client).0.calls ≡ "groq" ∷ "groq" ∷ "ollama" ∷ []
unfolding generate generate_from try_provider back_off circuit_state is_open new_breaker
    record_success record_failure next_candidate Dict.get Dict.put Dict.remove
three_calls = refl

-- both fast stages are given the point 4, which the first of them confirms
same_points :
    map
      (λ (c : Call ℕ String ℕ). c.points)
      (run_budget same (λ n. n * 700) 3000 fast deep stages (4 ∷ 5 ∷ 6 ∷ [])).calls
    ≡ (4 ∷ 5 ∷ 6 ∷ []) ∷ (4 ∷ 5 ∷ 6 ∷ []) ∷ []
unfolding run_budget run_waves run_wave wave_stages depth_allows remaining call_stage sort_stages
    sort_by insert
same_points = refl
