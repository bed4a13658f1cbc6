-- ===== src/Llm/Client/Calls.antt =====
-- UnifiedLLMClient._try_provider: what the calls of one provider leave of the client.
use pwnproxy.Prelude.{
  ℕ, zero, suc, ◌+◌, ◌≤◌, ◌≡◌, refl, ◌∙◌, String, Bool, true, List, [], ◌∷◌, ◌++◌, length,
  length-append, any_of, arith, ==_refl, ◌==◌, string_eq,
}
use pwnproxy.Llm.Breaker.{CircuitState}
use pwnproxy.Llm.Client.{
  Answer, response, rate_limited, timed_out, unavailable, exception, Reply, Answered, returned,
  failed, escaped, llm_unavailable, Client, called, answer_of, back_off, settle, try_provider,
}

abbrev pub has : String → List String → Bool
has name names = any_of (λ n. n == name) names

pub has-append : (m : String) (xs ys : List String) → has m xs ≡ true → has m (xs ++ ys) ≡ true
has-append m [] ys h = absurd (ground arith)
has-append m (x ∷ xs) ys h = ground (arith, has-append m xs ys)

pub has-last : (m : String) (xs : List String) → has m (xs ++ m ∷ []) ≡ true
has-last m [] = ground (arith, ==_refl m)
has-last m (x ∷ xs) = ground (arith, has-last m xs)

-- From one state to another the log of calls grows, by at most `n`, and time does not go back.
pub record Grown (n : ℕ) (c d : Client) : Type 0 where
  pub keeps : (m : String) → has m c.calls ≡ true → has m d.calls ≡ true
  pub later : c.now ≤ d.now
  pub few : length d.calls ≤ length c.calls + n

pub Grown-trans : {m n : ℕ} {c d e : Client} → Grown m c d → Grown n d e → Grown (m + n) c e
Grown-trans {m} {n} {c} {d} {e} g h = record {
  keeps = λ k p. h.keeps k (g.keeps k p);
  later = omega (arith, g.later, h.later);
  few = omega (arith, g.few, h.few);
}

pub Grown-le : {m n : ℕ} {c d : Client} → m ≤ n → Grown m c d → Grown n c d
Grown-le h g = record { keeps = g.keeps; later = g.later; few = omega (arith, g.few) }

module _ {R X : Type 0} (reply : ℕ → String → Reply R X) where
  -- the last call was of this provider, and this is its answer
  abbrev pub Answers : String → Client → Answer R X → Type 0
  Answers name c a =
      (before : List String) × (c.calls ≡ before ++ name ∷ [])
      × ((reply (length before) name).answer ≡ a)

  abbrev pub Ended : String → Client → Answered R X → Type 0
  Ended name c (returned r) = Answers name c (response r)
  Ended name c (failed e) = has name c.calls ≡ true
  Ended name c (escaped x) = Answers name c (exception x)

  -- What a try of a provider does: at most `n` calls, no change of the circuits, an end by an answer.
  abbrev pub IsTry : ℕ → String → Client → Client × Answered R X → Type 0
  IsTry n name c (d, o) = Grown n c d × (d.circuits ≡ c.circuits) × Ended name d o

  called-Grown : (name : String) (c : Client) → Grown 1 c (called reply name c)
  called-Grown name c = record {
    keeps = λ m h. has-append m c.calls (name ∷ []) h;
    later = omega arith;
    few = omega (arith, length-append c.calls (name ∷ []));
  }

  settle-IsTry :
      (n : ℕ) (name : String) (c : Client) (limited : ℕ → Client × Answered R X)
      → ((w : ℕ) → IsTry (suc n) name c (limited w))
      → IsTry (suc n) name c (settle name (called reply name c) (answer_of reply name c) limited)
  settle-IsTry n name c limited h = go (answer_of reply name c) refl
    where
      g : Grown (suc n) c (called reply name c)
      g = Grown-le (omega arith) (called-Grown name c)

      go :
          (a : Answer R X)
          → answer_of reply name c ≡ a
          → IsTry (suc n) name c (settle name (called reply name c) a limited)
      go (response r) e = (g, refl, (c.calls, refl, e))
      go (rate_limited w) e = h w
      go timed_out e = (g, refl, has-last name c.calls)
      go unavailable e = (g, refl, has-last name c.calls)
      go (exception x) e = (g, refl, (c.calls, refl, e))

  back_off-Grown :
      (name : String) (attempt : ℕ) (circuit : CircuitState) (w : ℕ) (c : Client)
      → Grown 0 c (back_off name attempt circuit w c)
  unfolding back_off
  back_off-Grown name attempt circuit w c = record {
    keeps = λ m h. h;
    later = omega arith;
    few = omega arith;
  }

  back_off-circuits :
      (name : String) (attempt : ℕ) (circuit : CircuitState) (w : ℕ) (c : Client)
      → (back_off name attempt circuit w c).circuits ≡ c.circuits
  unfolding back_off
  back_off-circuits name attempt circuit w c = refl

  again :
      (left : ℕ) (name : String) (c b : Client) (q : Client × Answered R X)
      → Grown 0 (called reply name c) b
      → b.circuits ≡ c.circuits
      → IsTry (suc left) name b q
      → IsTry (suc (suc left)) name c q
  again left name c b q g e (h, k, o) =
      (Grown-le (omega arith) (Grown-trans (called-Grown name c) (Grown-trans g h)), k ∙ e, o)

  -- A try of a provider makes at most one call more than the retries left, leaves the circuits as
  -- they were and ends with the provider's last answer, or with an error after a call of it.
  pub try_provider-IsTry :
      (left attempt : ℕ) (name : String) (circuit : CircuitState) (c : Client)
      → IsTry (suc left) name c (try_provider reply left attempt name circuit c)
  unfolding try_provider
  try_provider-IsTry zero attempt name circuit c =
      settle-IsTry 0 name c (λ _. (called reply name c, failed (llm_unavailable name)))
        (λ _. (called-Grown name c, refl, has-last name c.calls))
  try_provider-IsTry (suc left) attempt name circuit c =
      settle-IsTry (suc left) name c
        (λ w.
          try_provider reply left (attempt + 1) name circuit
            (back_off name (attempt + 1) circuit w (called reply name c)))
        (λ w.
          again left name c (back_off name (attempt + 1) circuit w (called reply name c)) _
            (back_off-Grown name (attempt + 1) circuit w (called reply name c))
            (back_off-circuits name (attempt + 1) circuit w (called reply name c))
            (try_provider-IsTry left (attempt + 1) name circuit
              (back_off name (attempt + 1) circuit w (called reply name c))))
