-- ===== src/Bus/Queue/Retries.antt =====
-- How long an event stays in the retry buffer of qos.py.
use pwnproxy.Prelude.{ℕ, ◌+◌, ◌≤◌, ◌≡◌, refl, ap, List, [], ◌∷◌, arith, length, All}
use pwnproxy.Bus.Queue.{Retry, QosQueue, age, retry_tick}
use pwnproxy.Bus.Queue.Bounds.{IsValid, IsAttempted, length-age}

abbrev AtLeast : ℕ → List Retry → Type 0
AtLeast n = All (λ (r : Retry). n ≤ r.attempts)

age-AtLeast : (n now : ℕ) (rs : List Retry) → AtLeast n rs → AtLeast (n + 1) (age now rs).0
unfolding age
age-AtLeast n now [] h = tt
age-AtLeast n now (r ∷ rs) h = ground (arith, age-AtLeast n now rs h.1)

age_last : (now : ℕ) (rs : List Retry) → AtLeast 3 rs → (age now rs).0 ≡ []
unfolding age
age_last now [] h = refl
age_last now (r ∷ rs) h = ground (arith, age_last now rs h.1)

AtLeast-one : (rs : List Retry) → All IsAttempted rs → AtLeast 1 rs
AtLeast-one [] h = tt
AtLeast-one (r ∷ rs) h = (h.0.0, AtLeast-one rs h.1)

-- Three ticks, whatever their times, empty the retry buffer of a well-formed queue: what was not
-- served by then is counted as dropped, and the main queue is not touched.
pub retry_tick_thrice :
    (t u w : ℕ) (q : QosQueue)
    → IsValid q
    → let q' = retry_tick w (retry_tick u (retry_tick t q)) in
      (q'.retry_buffer ≡ [])
      × (q'.dropped ≡ q.dropped + length q.retry_buffer)
      × (q'.items ≡ q.items)
unfolding retry_tick
retry_tick_thrice t u w q v =
    let r = q.retry_buffer in
    let r1 = (age t r).0 in
    let r2 = (age u r1).0 in
    let gone = age_last w r2 (age-AtLeast 2 u r1 (age-AtLeast 1 t r (AtLeast-one r v.attempted))) in
    (
      gone,
      omega (
        arith,
        length-age t r,
        length-age u r1,
        length-age w r2,
        ap (λ (l : List Retry). length l) gone,
      ),
      refl,
    )
