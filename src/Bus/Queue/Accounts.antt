-- ===== src/Bus/Queue/Accounts.antt =====
-- Where the events of a queue of qos.py go: the counters against the buffers.
use pwnproxy.Prelude.{
  ℕ, ◌+◌, max, ◌≡◌, refl, String, some, List, [], ◌∷◌, ◌++◌, inl, inr, arith, length, take, drop,
  keep_if, length-append, length-take, length-drop, Option-cases,
}
use pwnproxy.Bus.Topics.{QoSClass, critical, important, best_effort}
use pwnproxy.Bus.Queue.{
  Event, Retry, QosQueue, enqueue_drop, replace_first, enqueue_keyed, enqueue_coalesce,
  enqueue_critical, put_nowait, dispatch, take_ready, pop, get_nowait, retry_tick, is_later,
  is_ready, coalesce_key,
}
use pwnproxy.Bus.Queue.Bounds.{IsValid, enqueue_keyed_lem, length-replace_first, length-age}

-- The events in the two buffers.
abbrev pub held : QosQueue → ℕ
held q = length q.items + length q.retry_buffer

-- The events that are held or counted.
abbrev pub accounted : QosQueue → ℕ
accounted q = held q + q.dropped + q.coalesced

enqueue_drop-accounted :
    (e : Event) (q : QosQueue) → accounted (enqueue_drop e q).1 ≡ accounted q + 1
unfolding enqueue_drop
enqueue_drop-accounted e q = ground (arith, length-append q.items (e ∷ []))

enqueue_keyed-accounted :
    (key : String) (e : Event) (q : QosQueue)
    → IsValid q
    → accounted (enqueue_keyed key e q) ≡ accounted q + 1
enqueue_keyed-accounted key e q v =
    rw (enqueue_keyed_lem key e q v) (elim (Option-cases (replace_first key e q.items)) [
      | inl p ↦ rw p (enqueue_drop-accounted e q)
      | inr (ys, p) ↦ rw p (omega (arith, length-replace_first key e q.items p))
    ])

enqueue_coalesce-accounted :
    (e : Event) (q : QosQueue) → IsValid q → accounted (enqueue_coalesce e q).1 ≡ accounted q + 1
unfolding enqueue_coalesce
enqueue_coalesce-accounted e q v = elim (Option-cases (coalesce_key e)) [
  | inl p ↦ rw (p, enqueue_coalesce) (enqueue_drop-accounted e q)
  | inr (key, p) ↦ rw (p, enqueue_coalesce) (enqueue_keyed-accounted key e q v)
]

-- A cut loses as many entries as it counts.
length-cut : (n : ℕ) (rs : List Retry) → length (drop n rs) + length (take n rs) ≡ length rs
length-cut n rs = omega (arith, length-drop n rs, length-take n rs)

enqueue_critical-accounted :
    (now : ℕ) (e : Event) (q : QosQueue) → accounted (enqueue_critical now e q).1 ≡ accounted q + 1
unfolding enqueue_critical
enqueue_critical-accounted now e q =
    let r : Retry = record { event = e; next_retry = now + 50; attempts = 1 } in
    ground (
      arith,
      length-append q.items (e ∷ []),
      length-append q.retry_buffer (r ∷ []),
      length-cut 16 (q.retry_buffer ++ r ∷ []),
    )

dispatch-accounted :
    (c : QoSClass) (now : ℕ) (e : Event) (q : QosQueue)
    → IsValid q
    → accounted (dispatch c now e q).1 ≡ accounted q + 1
dispatch-accounted critical now e q v = enqueue_critical-accounted now e q
dispatch-accounted important now e q v = enqueue_coalesce-accounted e q v
dispatch-accounted best_effort now e q v = enqueue_drop-accounted e q

-- In a well-formed queue of any class, each put accounts for exactly one event: it is held,
-- dropped and counted, or merged and counted.
pub put_nowait-accounted :
    (now : ℕ) (e : Event) (q : QosQueue)
    → IsValid q
    → accounted (put_nowait now e q).1 ≡ accounted q + 1
unfolding put_nowait
put_nowait-accounted now e q v = dispatch-accounted q.qos now e q v

-- A tick only moves retries to the drop counter.
pub retry_tick-accounted : (now : ℕ) (q : QosQueue) → accounted (retry_tick now q) ≡ accounted q
unfolding retry_tick
retry_tick-accounted now q = omega (arith, length-age now q.retry_buffer)

-- The number of retries that are due.
abbrev pub due : ℕ → QosQueue → ℕ
due now q = length (keep_if (is_ready now) q.retry_buffer)

due-later :
    (now : ℕ) (rs : List Retry)
    → length (keep_if (is_ready now) rs) + length (keep_if (is_later now) rs) ≡ length rs
due-later now [] = refl
due-later now (r ∷ rs) = ground (arith, due-later now rs)

-- A get that returns an event takes it from the accounts, and with it every other retry that was
-- due at that moment: one event leaves if none or one was due, and `due now q` events leave
-- otherwise. The counters do not change, so the surplus is lost without a trace.
pub get_nowait-accounted :
    (now : ℕ) (q : QosQueue) {e : Event} {q' : QosQueue}
    → get_nowait now q ≡ some (e, q')
    → (accounted q' + max 1 (due now q) ≡ accounted q)
      × (q'.dropped ≡ q.dropped)
      × (q'.coalesced ≡ q.coalesced)
unfolding get_nowait take_ready pop
get_nowait-accounted now q h = ground (arith, due-later now q.retry_buffer)
