-- ===== src/Llm/Client/Outcomes.antt =====
-- UnifiedLLMClient.generate: what it returns and raises, and how many calls it makes.
use pwnproxy.Prelude.{
  ℕ, suc, ◌+◌, ◌*◌, ◌≤◌, ◌≡◌, sym, ap, subst, String, true, false, not, Option, none, some, List,
  [], ◌∷◌, length, All, All-map, arith, ==_iff, ◌==◌, string_eq, if-holds, Bool-cases, inl, inr,
}
use pwnproxy.Llm.Breaker.{
  CircuitState, closed, is_open, circuit_state, record_failure, record_success-closes,
  record_failure-stays_usable,
}
use pwnproxy.Llm.Client.{
  response, exception, Reply, Answered, returned, failed, escaped, LlmError, Client, Config,
  succeed, fall_through, conclude, generate_from, generate,
}
use pwnproxy.Llm.Client.Calls.{
  has, Grown, Grown-trans, Grown-le, Answers, IsTry, try_provider-IsTry,
}

one_more : (n k : ℕ) → suc n * k ≡ k + n * k
one_more n k = omega arith

-- what a failure of `name` leaves usable
fall_through-Grown :
    (cfg : Config) (name fallback_from : String) (circuit : CircuitState) (e : LlmError)
    (c : Client)
    → Grown 0 c (fall_through cfg name fallback_from circuit e c)
fall_through-Grown cfg name fallback_from circuit e c = record {
  keeps = λ m h. h;
  later = omega arith;
  few = omega arith;
}

module _ {R X : Type 0} (reply : ℕ → String → Reply R X) (cfg : Config) where
  -- every provider of these that is configured and was not open has been called
  abbrev pub Exhausted : List String → Client → Client → Type 0
  Exhausted names c d =
      All
        (λ m. cfg.is_provider m ≡ true → is_open c.now m c.circuits ≡ false → has m d.calls ≡ true)
        names

  -- a response or a foreign exception is the answer of the last call, and a response closes the
  -- circuit of its provider; an LLM error comes when the usable providers have all been called
  abbrev pub EndsWell : List String → Client → Client → Answered R X → Type 0
  EndsWell names c d (returned r) =
      (name : String) × Answers reply name d (response r)
      × ((t : ℕ) → circuit_state t name d.circuits ≡ closed)
  EndsWell names c d (failed e) = Exhausted names c d
  EndsWell names c d (escaped x) = (name : String) × Answers reply name d (exception x)

  abbrev pub IsGenerate : List String → Client → Client × Answered R X → Type 0
  IsGenerate names c (d, o) =
      Grown (length names * suc cfg.rate_limit_retries) c d × EndsWell names c d o

  skip-IsGenerate :
      (name : String) (names : List String) (c : Client) (q : Client × Answered R X)
      → (cfg.is_provider name ≡ true
          → is_open c.now name c.circuits ≡ false
          → has name q.0.calls ≡ true)
      → IsGenerate names c q
      → IsGenerate (name ∷ names) c q
  skip-IsGenerate name names c (d, o) s (g, w) = (Grown-le more g, go o w)
    where
      more :
          length names * suc cfg.rate_limit_retries
          ≤ suc (length names) * suc cfg.rate_limit_retries
      more = omega (arith, one_more (length names) (suc cfg.rate_limit_retries))

      go : (o : Answered R X) → EndsWell names c d o → EndsWell (name ∷ names) c d o
      go (returned r) w = w
      go (failed e) w = (s, w)
      go (escaped x) w = w

  -- the providers after `name` that were usable before its failure are so after it
  Exhausted-since :
      (name : String) (names : List String) (c b d : Client) (t : ℕ)
      → c.now ≤ b.now
      → b.circuits ≡ record_failure t name c.circuits
      → has name d.calls ≡ true
      → Exhausted names b d
      → Exhausted names c d
  Exhausted-since name names c b d t l h k x =
      All-map
        (λ m f p u. elim (Bool-cases (name == m)) [
          | inl q ↦ subst (λ n. has n d.calls ≡ true) ((==_iff name m).0 q) k
          | inr q ↦ f p (
              subst (λ s. is_open b.now m s ≡ false) (sym h)
                (record_failure-stays_usable c.now b.now t m name c.circuits l q u))
        ])
        names x

  fall-IsGenerate :
      (name : String) (names : List String) (c b : Client) (t : ℕ) (q : Client × Answered R X)
      → Grown (suc cfg.rate_limit_retries) c b
      → b.circuits ≡ record_failure t name c.circuits
      → has name b.calls ≡ true
      → IsGenerate names b q
      → IsGenerate (name ∷ names) c q
  fall-IsGenerate name names c b t (d, o) g h k (w, x) = (Grown-le more (Grown-trans g w), go o x)
    where
      more :
          suc cfg.rate_limit_retries + length names * suc cfg.rate_limit_retries
          ≤ suc (length names) * suc cfg.rate_limit_retries
      more = omega (arith, one_more (length names) (suc cfg.rate_limit_retries))

      go : (o : Answered R X) → EndsWell names b d o → EndsWell (name ∷ names) c d o
      go (returned r) x = x
      go (failed e) x =
          (λ _ _. w.keeps name k, Exhausted-since name names c b d t g.later h (w.keeps name k) x)
      go (escaped y) x = x

  succeed-closes :
      (t : ℕ) (name fallback_from : String) (circuit : CircuitState) (c : Client)
      → circuit_state t name (succeed name fallback_from circuit c).circuits ≡ closed
  succeed-closes t name fallback_from circuit c = record_success-closes t name c.circuits

  attempt-IsGenerate :
      (name : String) (names : List String) (fallback_from : String) (circuit : CircuitState)
      (c : Client) (q : Client × Answered R X) (next : LlmError → Client × Answered R X)
      → IsTry reply (suc cfg.rate_limit_retries) name c q
      → ((e : LlmError)
          → IsGenerate names (fall_through cfg name fallback_from circuit e q.0) (next e))
      → IsGenerate (name ∷ names) c (conclude q.0 q.1 (succeed name fallback_from circuit q.0) next)
  attempt-IsGenerate name names fallback_from circuit c (d, returned r) next (g, k, o) n = (
    record {
      keeps = g.keeps;
      later = g.later;
      few = omega (arith, g.few, one_more (length names) (suc cfg.rate_limit_retries));
    },
    (name, o, λ t. succeed-closes t name fallback_from circuit d),
  )
  attempt-IsGenerate name names fallback_from circuit c (d, failed e) next (g, k, o) n =
      let b = fall_through cfg name fallback_from circuit e d in
      fall-IsGenerate name names c b d.now (next e)
        (Grown-le (omega arith)
          (Grown-trans g (fall_through-Grown cfg name fallback_from circuit e d)))
        (ap (record_failure d.now name) k) o (n e)
  attempt-IsGenerate name names fallback_from circuit c (d, escaped x) next (g, k, o) n =
      (Grown-le (omega (arith, one_more (length names) (suc cfg.rate_limit_retries))) g, (name, o))

  generate_from-IsGenerate :
      (names : List String) (last_error : Option LlmError) (fallback_from : String) (c : Client)
      → IsGenerate names c (generate_from reply cfg names last_error fallback_from c)
  unfolding generate_from
  generate_from-IsGenerate [] none fallback_from c =
      (record { keeps = λ m h. h; later = omega arith; few = omega arith }, tt)
  generate_from-IsGenerate [] (some e) fallback_from c =
      (record { keeps = λ m h. h; later = omega arith; few = omega arith }, tt)
  generate_from-IsGenerate (name ∷ names) last_error fallback_from c =
      let circuit = circuit_state c.now name c.circuits in
      let skipped = generate_from reply cfg names last_error fallback_from c in
      let skip = generate_from-IsGenerate names last_error fallback_from c in
      if-holds (IsGenerate (name ∷ names) c) (not (cfg.is_provider name))
        (λ q. skip-IsGenerate name names c skipped (λ p _. absurd (ground arith)) skip)
        (λ _.
          if-holds (IsGenerate (name ∷ names) c) (is_open c.now name c.circuits)
            (λ q. skip-IsGenerate name names c skipped (λ _ p. absurd (ground arith)) skip)
            (λ _.
              attempt-IsGenerate name names fallback_from circuit c _ _
                (try_provider-IsTry reply cfg.rate_limit_retries 0 name circuit c)
                (λ e. generate_from-IsGenerate names (some e) name _)))

  -- A call of `generate` ends with the answer of its last provider call, a response, whose
  -- provider then has a closed circuit, or an exception that it does not name; or it raises an LLM
  -- error, and then each configured provider of the chain whose circuit was not open at the start has
  -- been called. It makes at most one call more than the retries for each place of the chain.
  pub generate-IsGenerate : (c : Client) → IsGenerate cfg.chain c (generate reply cfg c)
  unfolding generate
  generate-IsGenerate c = generate_from-IsGenerate cfg.chain none "" c
