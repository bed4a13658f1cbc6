-- ===== src/Llm/Breaker.antt =====
-- pwnproxy/ai/llm/client.py: CircuitBreaker. Times are those of the monotonic clock, in
-- milliseconds, and an argument of each operation that reads it.
use pwnproxy.Prelude.{
  ℕ, zero, suc, ◌+◌, ◌-◌, ◌≤◌, ◌≡◌, refl, String, Bool, Bool-cases, inl, inr, if-holds, ap, ◌∙◌,
  false, not, ◌&&◌, none, some, Option-cases, [], ltb, leb, arith, ◌==◌, string_eq, if◌then◌else◌,
}
use pwnproxy.Dict
use pwnproxy.Dict.{Dict, dict_laws}

pub record CircuitBreaker : Type 0 where
  pub threshold : ℕ
  pub cooldown : ℕ
  pub failures : Dict String ℕ
  pub opened_at : Dict String ℕ

pub data CircuitState : Type 0 where
  opened closed half_open : CircuitState

unfoldable pub new_breaker : ℕ → ℕ → CircuitBreaker
new_breaker threshold cooldown = record {
  threshold = threshold;
  cooldown = cooldown;
  failures = [];
  opened_at = [];
}

unfoldable pub is_open : ℕ → String → CircuitBreaker → Bool
is_open now p b = elim (Dict.get b.opened_at p) [
  | none ↦ false
  | some t ↦ not (leb b.cooldown (now - t))
]

unfoldable pub record_success : String → CircuitBreaker → CircuitBreaker
record_success p b = record b {
  failures = Dict.put b.failures p 0;
  opened_at = Dict.remove b.opened_at p;
}

unfoldable pub record_failure : ℕ → String → CircuitBreaker → CircuitBreaker
record_failure now p b =
    let n = Dict.get_or b.failures p 0 + 1 in
    record b {
      failures = Dict.put b.failures p n;
      opened_at = if leb b.threshold n then Dict.put b.opened_at p now else b.opened_at;
    }

unfoldable pub circuit_state : ℕ → String → CircuitBreaker → CircuitState
circuit_state now p b = if is_open now p b then opened else (elim (Dict.get b.opened_at p) [
  | none ↦ closed
  | some _ ↦ if ltb 0 (Dict.get_or b.failures p 0) then half_open else closed
])

-- `n` failures of a provider in a row, at the times of a clock
unfoldable pub record_failures : (ℕ → ℕ) → ℕ → String → CircuitBreaker → CircuitBreaker
record_failures clock zero p b = b
record_failures clock (suc n) p b = record_failure (clock n) p (record_failures clock n p b)

-- A success closes the circuit of its provider at every time.
pub record_success-closes :
    (now : ℕ) (p : String) (b : CircuitBreaker) → circuit_state now p (record_success p b) ≡ closed
unfolding circuit_state is_open record_success
record_success-closes now p b = rw (Dict.get-remove_self b.opened_at p, is_open, circuit_state) refl

record_failures-counts :
    (clock : ℕ → ℕ) (n : ℕ) (p : String) (b : CircuitBreaker)
    → Dict.get_or b.failures p 0 ≡ 0
    → (Dict.get_or (record_failures clock n p b).failures p 0 ≡ n)
      × ((record_failures clock n p b).threshold ≡ b.threshold)
      × ((record_failures clock n p b).cooldown ≡ b.cooldown)
unfolding record_failures record_failure
record_failures-counts clock zero p b h = (h, refl, refl)
record_failures-counts clock (suc n) p b h =
    let ih = record_failures-counts clock n p b h in
    let k = Dict.get_or (record_failures clock n p b).failures p 0 + 1 in
    (
      rw (Dict.get-put_self (record_failures clock n p b).failures p k, Dict.get_or)
          (omega (arith, ih.0)),
      ih.1,
      ih.2,
    )

-- below the threshold no failure opens a circuit
record_failures-unopened :
    (clock : ℕ → ℕ) (n : ℕ) (p : String) (b : CircuitBreaker)
    → Dict.get_or b.failures p 0 ≡ 0
    → Dict.get b.opened_at p ≡ none
    → leb b.threshold n ≡ false
    → Dict.get (record_failures clock n p b).opened_at p ≡ none
unfolding record_failures record_failure
record_failures-unopened clock zero p b h k l = k
record_failures-unopened clock (suc n) p b h k l =
    let c = record_failures-counts clock n p b h in
    let now_closed : leb (record_failures clock n p b).threshold
          (Dict.get_or (record_failures clock n p b).failures p 0 + 1)
        ≡ false =
      ground (arith, c) in
    let before : leb b.threshold n ≡ false = ground arith in
    rw now_closed (record_failures-unopened clock n p b h k before)

opened_when :
    (now t : ℕ) (p : String) (b : CircuitBreaker) (n : ℕ)
    → Dict.get_or b.failures p 0 ≡ n
    → (leb b.threshold (n + 1) ≡ false → Dict.get b.opened_at p ≡ none)
    → is_open now p (record_failure t p b)
      ≡ (leb b.threshold (n + 1) && not (leb b.cooldown (now - t)))
unfolding record_failure is_open
opened_when now t p b n h k = elim (Bool-cases (leb b.threshold (n + 1))) [
  | inl q ↦ rw (h, q, Dict.get-put_self b.opened_at p t, is_open) refl
  | inr q ↦ rw (h, q, k q, is_open) refl
]

-- From a provider without failures on record, its circuit is open after `n + 1` failures in a row
-- just when `n + 1` has come up to the threshold and the cooldown after the last of them has not
-- passed; fewer leave it closed if it was not open before.
pub record_failures-opens :
    (clock : ℕ → ℕ) (now n : ℕ) (p : String) (b : CircuitBreaker)
    → Dict.get_or b.failures p 0 ≡ 0
    → Dict.get b.opened_at p ≡ none
    → is_open now p (record_failures clock (suc n) p b)
      ≡ (leb b.threshold (n + 1) && not (leb b.cooldown (now - clock n)))
unfolding record_failures
record_failures-opens clock now n p b h k =
    let c = record_failures-counts clock n p b h in
    let fs = record_failures clock n p b in
    let unopened : leb fs.threshold (n + 1) ≡ false → Dict.get fs.opened_at p ≡ none =
      λ q. record_failures-unopened clock n p b h k (ground (arith, c)) in
    opened_when now (clock n) p fs n c.0 unopened
    ∙ ap (λ t. leb t (n + 1) && not (leb fs.cooldown (now - clock n))) c.1
    ∙ ap (λ t. leb b.threshold (n + 1) && not (leb t (now - clock n))) c.2

record_failure-cooldown :
    (t : ℕ) (q : String) (b : CircuitBreaker) → (record_failure t q b).cooldown ≡ b.cooldown
unfolding record_failure
record_failure-cooldown t q b = refl

stays_usable :
    (now now' : ℕ) (p : String) (b b' : CircuitBreaker)
    → now ≤ now'
    → b'.cooldown ≡ b.cooldown
    → Dict.get b'.opened_at p ≡ Dict.get b.opened_at p
    → is_open now p b ≡ false
    → is_open now' p b' ≡ false
unfolding is_open
stays_usable now now' p b b' l c h k = elim (Option-cases (Dict.get b.opened_at p)) [
  | inl e ↦ rw (h, e, is_open) refl
  | inr (t, e) ↦
      let before : not (leb b.cooldown (now - t)) ≡ false = rw (e, is_open) at k in
      rw (h, e, is_open, c) (ground arith)
]

record_failure-opened_at_other :
    (t : ℕ) (p q : String) (b : CircuitBreaker)
    → (q == p) ≡ false
    → Dict.get (record_failure t q b).opened_at p ≡ Dict.get b.opened_at p
unfolding record_failure
record_failure-opened_at_other t p q b h =
    let n = Dict.get_or b.failures q 0 + 1 in
    if-holds (λ (d : Dict String ℕ). Dict.get d p ≡ Dict.get b.opened_at p) (leb b.threshold n)
      (λ _. ground (arith, Dict.get-put b.opened_at q p t)) (λ _. refl)

-- A circuit that is not open stays so over time and over the failures of another provider.
pub record_failure-stays_usable :
    (now now' t : ℕ) (p q : String) (b : CircuitBreaker)
    → now ≤ now'
    → (q == p) ≡ false
    → is_open now p b ≡ false
    → is_open now' p (record_failure t q b) ≡ false
record_failure-stays_usable now now' t p q b l h k =
    stays_usable now now' p b (record_failure t q b) l (record_failure-cooldown t q b)
      (record_failure-opened_at_other t p q b h) k
