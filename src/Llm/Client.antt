-- ===== src/Llm/Client.antt =====
-- pwnproxy/ai/llm/client.py: UnifiedLLMClient.generate. What a provider answers, and how long
-- it takes, is a parameter of the run, by the number of the call and the provider's name; `R` is
-- the type of responses and `X` that of the exceptions outside the three that the client names.
-- Time passes in provider calls and in `asyncio.sleep`. A write to the ledger adds an entry and
-- does not raise.
pub mod Calls
pub mod Outcomes
use pwnproxy.Prelude.{
  ℕ, zero, suc, ◌+◌, ◌*◌, String, Bool, true, false, not, ◌&&◌, Option, none, some, List, [], ◌∷◌,
  ◌++◌, length, nat_eq, string_eq, ◌==◌, if◌then◌else◌,
}
use pwnproxy.Llm.Breaker.{
  CircuitBreaker, CircuitState, is_open, circuit_state, record_success, record_failure,
}

pub data Answer (R X : Type 0) : Type 0 where
  response : R → Answer R X
  rate_limited : ℕ → Answer R X
  timed_out unavailable : Answer R X
  exception : X → Answer R X

pub record Reply (R X : Type 0) : Type 0 where
  pub answer : Answer R X
  pub duration : ℕ

pub data LlmError : Type 0 where
  llm_timeout llm_unavailable : String → LlmError

pub data Answered (R X : Type 0) : Type 0 where
  returned : R → Answered R X
  failed : LlmError → Answered R X
  escaped : X → Answered R X

pub data Status : Type 0 where
  ok rate_limit timeout error : Status

pub record Entry : Type 0 where
  pub provider : String
  pub status : Status
  pub fallback_from : String
  pub fallback_to : String
  pub circuit : CircuitState

-- `calls` logs the names of the providers called
pub record Client : Type 0 where
  pub circuits : CircuitBreaker
  pub ledger : Option (List Entry)
  pub calls : List String
  pub now : ℕ

pub record Config : Type 0 where
  pub is_provider : String → Bool
  pub chain : List String
  pub rate_limit_retries : ℕ

-- `if self._ledger is not None: await self._ledger.record_…(…)`
abbrev pub note : Entry → Client → Client
note entry c = record c {
  ledger = elim c.ledger [ none ↦ none | some entries ↦ some (entries ++ entry ∷ []) ];
}

abbrev pub after_name : String → List String → List String
after_name name [] = []
after_name name (n ∷ ns) = if n == name then ns else after_name name ns

abbrev pub first_usable : Config → Client → List String → String
first_usable cfg c [] = ""
first_usable cfg c (n ∷ ns) =
    if cfg.is_provider n && not (is_open c.now n c.circuits) then n else first_usable cfg c ns

unfoldable pub next_candidate : Config → String → Client → String
next_candidate cfg after c = first_usable cfg c (after_name after cfg.chain)

-- the wait after a rate limit; `retry_after` 0 is the provider's silence
unfoldable pub back_off : String → ℕ → CircuitState → ℕ → Client → Client
back_off name attempt circuit retry_after c =
    let noted =
      note
        record {
          provider = name;
          status = rate_limit;
          fallback_from = "";
          fallback_to = name;
          circuit = circuit;
        }
        c in
    record noted { now = c.now + (if retry_after == 0 then attempt * 2000 else retry_after) }

module _ {R X : Type 0} (reply : ℕ → String → Reply R X) where
  -- the state when a provider has answered
  abbrev pub called : String → Client → Client
  called name c = record c {
    calls = c.calls ++ name ∷ [];
    now = c.now + (reply (length c.calls) name).duration;
  }

  abbrev pub answer_of : String → Client → Answer R X
  answer_of name c = (reply (length c.calls) name).answer

abbrev pub settle :
    {R X : Type 0}
    → String
    → Client
    → Answer R X
    → (ℕ → Client × Answered R X)
    → Client × Answered R X
settle name c (response r) limited = (c, returned r)
settle name c (rate_limited retry_after) limited = limited retry_after
settle name c timed_out limited = (c, failed (llm_timeout name))
settle name c unavailable limited = (c, failed (llm_unavailable name))
settle name c (exception x) limited = (c, escaped x)

module _ {R X : Type 0} (reply : ℕ → String → Reply R X) where
  -- `_try_provider`: the first number is that of the retries left, the second of the attempts made
  unfoldable pub try_provider : ℕ → ℕ → String → CircuitState → Client → Client × Answered R X
  try_provider zero attempt name circuit c =
      settle name (called reply name c) (answer_of reply name c)
        (λ _. (called reply name c, failed (llm_unavailable name)))
  try_provider (suc left) attempt name circuit c =
      settle name (called reply name c) (answer_of reply name c) (λ w.
        try_provider left (attempt + 1) name circuit
          (back_off name (attempt + 1) circuit w (called reply name c)))

-- `generate` on what one provider did: a success, or an error that the chain falls through
abbrev pub succeed : String → String → CircuitState → Client → Client
succeed name fallback_from circuit c =
    let closed_again = record c { circuits = record_success name c.circuits } in
    note
      record {
        provider = name;
        status = ok;
        fallback_from = fallback_from;
        fallback_to = "";
        circuit = circuit;
      }
      closed_again

abbrev pub status_of : LlmError → Status
status_of (llm_timeout _) = timeout
status_of (llm_unavailable _) = error

abbrev pub fall_through : Config → String → String → CircuitState → LlmError → Client → Client
fall_through cfg name fallback_from circuit e c =
    let counted = record c { circuits = record_failure c.now name c.circuits } in
    note
      record {
        provider = name;
        status = status_of e;
        fallback_from = fallback_from;
        fallback_to = next_candidate cfg name counted;
        circuit = circuit;
      }
      counted

abbrev pub give_up : {R X : Type 0} → Option LlmError → Answered R X
give_up none = failed (llm_unavailable "-")
give_up (some e) = failed e

abbrev pub conclude :
    {R X : Type 0}
    → Client
    → Answered R X
    → Client
    → (LlmError → Client × Answered R X)
    → Client × Answered R X
conclude c (returned r) done next = (done, returned r)
conclude c (failed e) done next = next e
conclude c (escaped x) done next = (c, escaped x)

module _ {R X : Type 0} (reply : ℕ → String → Reply R X) (cfg : Config) where
  -- the loop over the chain, from a place in it
  unfoldable pub generate_from :
      List String → Option LlmError → String → Client → Client × Answered R X
  generate_from [] last_error fallback_from c = (c, give_up last_error)
  generate_from (name ∷ names) last_error fallback_from c =
      let circuit = circuit_state c.now name c.circuits in
      let tried = try_provider reply cfg.rate_limit_retries 0 name circuit c in
      let skipped = generate_from names last_error fallback_from c in
      let attempted = conclude tried.0 tried.1 (succeed name fallback_from circuit tried.0) (λ e.
        generate_from names (some e) name
          (fall_through cfg name fallback_from circuit e tried.0)) in
      if not (cfg.is_provider name)
      then skipped
      else if is_open c.now name c.circuits
      then skipped
      else attempted

  unfoldable pub generate : Client → Client × Answered R X
  generate c = generate_from cfg.chain none "" c
