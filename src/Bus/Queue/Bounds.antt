-- ===== src/Bus/Queue/Bounds.antt =====
-- The well-formedness of a queue of qos.py, and what the rebuild of a coalescing put amounts to.
use pwnproxy.Prelude.{
  ℕ, suc, ◌+◌, ◌≤◌, ◌<◌, String, ◌≡◌, refl, ap, ◌∙◌, ◌⊎◌, inl, inr, true, false, Option, none, some,
  List, [], ◌∷◌, ◌++◌, append-nil, append_assoc, arith, length, All, length-append, length-keep_if,
  length-drop, drop, All-append, All-keep_if, All-drop, Bool-cases, Option-cases, nat_eq, string_eq,
}
use pwnproxy.Bus.Topics.{QoSClass, critical, important, best_effort}
use pwnproxy.Bus.Queue.{
  Event, Retry, QosQueue, full, enqueue_drop, replace_first, refill, rebuild, enqueue_keyed,
  enqueue_coalesce, enqueue_critical, put_nowait, dispatch, take_ready, pop, get_nowait, get_wait,
  age, retry_tick, left, is_later, coalesce_key, new_queue,
}

abbrev pub IsAttempted : Retry → Type 0
IsAttempted r = (1 ≤ r.attempts) × (r.attempts ≤ 3)

pub record IsValid (q : QosQueue) : Type 0 where
  pub bounded : 0 < q.maxsize
  pub room : length q.items ≤ q.maxsize
  pub buffered : length q.retry_buffer ≤ 32
  pub attempted : All IsAttempted q.retry_buffer
  pub critical_only : (q.qos ≡ critical) ⊎ (q.retry_buffer ≡ [])

length-snoc : (xs : List Event) (x : Event) → length (xs ++ x ∷ []) ≡ suc (length xs)
length-snoc xs x = omega (arith, length-append xs (x ∷ []))

not_full : (m : ℕ) (xs : List Event) → length xs < m → full m xs ≡ false
not_full m xs h = ground arith

is_full : (m : ℕ) (xs : List Event) → 0 < m → m ≤ length xs → full m xs ≡ true
is_full m xs p h = ground arith

refill_fits :
    (m : ℕ) (filled xs : List Event)
    → length filled + length xs ≤ m
    → refill m filled xs ≡ (filled ++ xs, false)
unfolding refill
refill_fits m filled [] h = rw append-nil
refill_fits m filled (x ∷ xs) h = rw (not_full m filled (omega arith)) (
    refill_fits m (filled ++ x ∷ []) xs (omega (arith, length-snoc filled x))
    ∙ ap (λ (l : List Event). (l, false)) (append_assoc filled (x ∷ []) xs))

refill_overflows :
    (m : ℕ) (filled xs : List Event) (e : Event)
    → 0 < m
    → length filled + length xs ≡ m
    → refill m filled (xs ++ e ∷ []) ≡ (filled ++ xs, true)
unfolding refill
refill_overflows m filled [] e p h = rw (is_full m filled p (omega arith), append-nil)
refill_overflows m filled (x ∷ xs) e p h = rw (not_full m filled (omega arith)) (
    refill_overflows m (filled ++ x ∷ []) xs e p (omega (arith, length-snoc filled x))
    ∙ ap (λ (l : List Event). (l, true)) (append_assoc filled (x ∷ []) xs))

pub length-replace_first :
    (key : String) (e : Event) (xs : List Event) {ys : List Event}
    → replace_first key e xs ≡ some ys
    → length ys ≡ length xs
unfolding replace_first
length-replace_first key e [] h = cc
length-replace_first key e (x ∷ xs) h = elim (Option-cases (replace_first key e xs)) [
  | inl p ↦ ground arith
  | inr (zs, p) ↦ ground (arith, length-replace_first key e xs p)
]

rebuild_fits :
    (items : List Event) (q : QosQueue)
    → length items ≤ q.maxsize
    → rebuild items q ≡ record q { items = items }
unfolding rebuild
rebuild_fits items q h = rw (refill_fits q.maxsize [] items (omega arith)) (ground arith)

rebuild_overflows :
    (e : Event) (q : QosQueue)
    → 0 < q.maxsize
    → length q.items ≡ q.maxsize
    → rebuild (q.items ++ e ∷ []) q ≡ record q { dropped = q.dropped + 1 }
unfolding rebuild
rebuild_overflows e q p h = rw (refill_overflows q.maxsize [] q.items e p (omega arith))

-- A rebuild with one more event is an `enqueue_drop`.
rebuild-append :
    (e : Event) (q : QosQueue) → IsValid q → rebuild (q.items ++ e ∷ []) q ≡ (enqueue_drop e q).1
unfolding enqueue_drop
rebuild-append e q v = elim (Bool-cases (full q.maxsize q.items)) [
  | inl f ↦ rw f (rebuild_overflows e q v.bounded (ground (arith, v.room)))
  | inr f ↦
      rw f (rebuild_fits (q.items ++ e ∷ []) q (ground (arith, length-snoc q.items e, v.bounded)))
]

-- The rebuild keeps what fits: with the key present the queue is the list with the replacement,
-- and with no such key the call changes the queue as `enqueue_drop` does.
pub enqueue_keyed_lem :
    (key : String) (e : Event) (q : QosQueue)
    → IsValid q
    → enqueue_keyed key e q ≡ elim (replace_first key e q.items) [
      | some items ↦ record q { items = items; coalesced = q.coalesced + 1 }
      | none ↦ (enqueue_drop e q).1
    ]
unfolding enqueue_keyed
enqueue_keyed_lem key e q v = elim (Option-cases (replace_first key e q.items)) [
  | inl p ↦ rw (p, enqueue_keyed) (rebuild-append e q v)
  | inr (ys, p) ↦
      rw (p, enqueue_keyed)
        (rebuild_fits ys (record q { coalesced = q.coalesced + 1 })
          (omega (arith, length-replace_first key e q.items p, v.room)))
]

enqueue_drop-IsValid : (e : Event) (q : QosQueue) → IsValid q → IsValid (enqueue_drop e q).1
unfolding enqueue_drop
enqueue_drop-IsValid e q v = ground (arith, length-snoc q.items e)

enqueue_keyed-IsValid :
    (key : String) (e : Event) (q : QosQueue) → IsValid q → IsValid (enqueue_keyed key e q)
enqueue_keyed-IsValid key e q v =
    rw (enqueue_keyed_lem key e q v) (elim (Option-cases (replace_first key e q.items)) [
      | inl p ↦ rw p (enqueue_drop-IsValid e q v)
      | inr (ys, p) ↦ rw p (ground (arith, length-replace_first key e q.items p))
    ])

enqueue_coalesce-IsValid : (e : Event) (q : QosQueue) → IsValid q → IsValid (enqueue_coalesce e q).1
unfolding enqueue_coalesce
enqueue_coalesce-IsValid e q v = elim (Option-cases (coalesce_key e)) [
  | inl p ↦ rw (p, enqueue_coalesce) (enqueue_drop-IsValid e q v)
  | inr (key, p) ↦ rw (p, enqueue_coalesce) (enqueue_keyed-IsValid key e q v)
]

length-snoc_retry : (xs : List Retry) (x : Retry) → length (xs ++ x ∷ []) ≡ suc (length xs)
length-snoc_retry xs x = omega (arith, length-append xs (x ∷ []))

abbrev first_retry : ℕ → Event → Retry
first_retry now e = record { event = e; next_retry = now + 50; attempts = 1 }

-- The buffer after one more retry and the cut at 32 entries.
buffer_bound : (xs : List Retry) (r : Retry) → length xs ≤ 32 → length (drop 16 (xs ++ r ∷ [])) ≤ 32
buffer_bound xs r h = omega (arith, length-drop 16 (xs ++ r ∷ []), length-snoc_retry xs r)

IsAttempted-snoc :
    (now : ℕ) (e : Event) (xs : List Retry)
    → All IsAttempted xs
    → All IsAttempted (xs ++ first_retry now e ∷ [])
IsAttempted-snoc now e xs h =
    All-append IsAttempted xs (first_retry now e ∷ []) h ((omega arith, omega arith), tt)

enqueue_critical-IsValid :
    (now : ℕ) (e : Event) (q : QosQueue)
    → q.qos ≡ critical
    → IsValid q
    → IsValid (enqueue_critical now e q).1
unfolding enqueue_critical
enqueue_critical-IsValid now e q c v = ground (
  arith,
  length-snoc q.items e,
  length-snoc_retry q.retry_buffer (first_retry now e),
  buffer_bound q.retry_buffer (first_retry now e),
  IsAttempted-snoc now e q.retry_buffer,
  All-drop IsAttempted 16 (q.retry_buffer ++ first_retry now e ∷ []),
)

dispatch-IsValid :
    (c : QoSClass) (now : ℕ) (e : Event) (q : QosQueue)
    → q.qos ≡ c
    → IsValid q
    → IsValid (dispatch c now e q).1
dispatch-IsValid critical now e q p v = enqueue_critical-IsValid now e q p v
dispatch-IsValid important now e q p v = enqueue_coalesce-IsValid e q v
dispatch-IsValid best_effort now e q p v = enqueue_drop-IsValid e q v

-- A put leaves the queue well-formed, in every class.
pub put_nowait-IsValid :
    (now : ℕ) (e : Event) (q : QosQueue) → IsValid q → IsValid (put_nowait now e q).1
unfolding put_nowait
put_nowait-IsValid now e q v = dispatch-IsValid q.qos now e q refl v

take_ready-IsValid : (now : ℕ) (q : QosQueue) → IsValid q → IsValid (left q (take_ready now q))
unfolding take_ready
take_ready-IsValid now q v = ground (
  arith,
  length-keep_if (is_later now) q.retry_buffer,
  All-keep_if IsAttempted (is_later now) q.retry_buffer,
)

pop-IsValid : (q : QosQueue) → IsValid q → IsValid (left q (pop q))
unfolding pop
pop-IsValid q v = ground arith

pub get_nowait-IsValid : (now : ℕ) (q : QosQueue) → IsValid q → IsValid (left q (get_nowait now q))
unfolding get_nowait
get_nowait-IsValid now q v = ground (arith, take_ready-IsValid now q, pop-IsValid q)

pub get_wait-IsValid :
    (now later : ℕ) (q : QosQueue) → IsValid q → IsValid (left q (get_wait now later q))
unfolding get_wait
get_wait-IsValid now later q v =
    ground (arith, get_nowait-IsValid now q, take_ready-IsValid later q)

-- The loop of `retry_tick` keeps or drops each entry.
pub length-age : (now : ℕ) (rs : List Retry) → length (age now rs).0 + (age now rs).1 ≡ length rs
unfolding age
length-age now [] = refl
length-age now (r ∷ rs) = ground (arith, length-age now rs)

age-IsAttempted : (now : ℕ) (rs : List Retry) → All IsAttempted rs → All IsAttempted (age now rs).0
unfolding age
age-IsAttempted now [] h = tt
age-IsAttempted now (r ∷ rs) h = ground (arith, age-IsAttempted now rs h.1)

retry_tick-IsValid : (now : ℕ) (q : QosQueue) → IsValid q → IsValid (retry_tick now q)
unfolding retry_tick age
retry_tick-IsValid now q v =
    ground (arith, length-age now q.retry_buffer, age-IsAttempted now q.retry_buffer)

pub new_queue-IsValid : (c : QoSClass) (maxsize : Option ℕ) → IsValid (new_queue c maxsize)
unfolding new_queue
new_queue-IsValid critical m = ground arith
new_queue-IsValid important m = ground arith
new_queue-IsValid best_effort m = ground arith

-- One operation of a producer, a consumer or the owner of the queue.
pub data Step : QosQueue → QosQueue → Type 0 where
  put : (now : ℕ) (e : Event) (q : QosQueue) → Step q (put_nowait now e q).1
  get : (now : ℕ) (q : QosQueue) → Step q (left q (get_nowait now q))
  wait : (now later : ℕ) (q : QosQueue) → Step q (left q (get_wait now later q))
  tick : (now : ℕ) (q : QosQueue) → Step q (retry_tick now q)

pub data Reach (q : QosQueue) : QosQueue → Type 0 where
  here : Reach q q
  next : {r s : QosQueue} → Reach q r → Step r s → Reach q s

Step-IsValid : {q r : QosQueue} → Step q r → IsValid q → IsValid r
Step-IsValid (put now e q) v = put_nowait-IsValid now e q v
Step-IsValid (get now q) v = get_nowait-IsValid now q v
Step-IsValid (wait now later q) v = get_wait-IsValid now later q v
Step-IsValid (tick now q) v = retry_tick-IsValid now q v

pub Reach-IsValid_from : {q r : QosQueue} → IsValid q → Reach q r → IsValid r
Reach-IsValid_from v here = v
Reach-IsValid_from v (next p st) = Step-IsValid st (Reach-IsValid_from v p)

-- Whatever puts, gets and ticks follow its construction, a queue holds at most `maxsize` events
-- and at most 32 retries, each with one to three attempts, and only a CRITICAL queue has retries.
pub Reach-IsValid :
    (c : QoSClass) (maxsize : Option ℕ) {q : QosQueue} → Reach (new_queue c maxsize) q → IsValid q
Reach-IsValid c maxsize r = Reach-IsValid_from (new_queue-IsValid c maxsize) r
