-- ===== src/Bus/Queue/Fifo.antt =====
-- A BEST_EFFORT queue of qos.py against a bounded first-in first-out buffer.
use pwnproxy.Prelude.{
  ℕ, zero, suc, ◌+◌, ◌≤◌, ◌<◌, sym, subst, ◌≡◌, refl, ap, ◌∙◌, true, false, none, some, List, [],
  ◌∷◌, ◌++◌, inl, inr, append-nil, append_assoc, arith, length, take, length-take, length-append,
  Bool-cases,
}
use pwnproxy.Bus.Topics.{best_effort}
use pwnproxy.Bus.Queue.{
  Event, QosQueue, new_queue, puts, full, enqueue_drop, put_nowait, take_ready, pop, get_nowait,
}

-- Gets until the queue has nothing to give, at most as many as the fuel.
pub drain : ℕ → ℕ → QosQueue → List Event
drain zero now q = []
drain (suc fuel) now q = elim (get_nowait now q) [
  | none ↦ []
  | some (e, q') ↦ e ∷ drain fuel now q'
]

take_all : (n : ℕ) (xs : List Event) → length xs ≤ n → take n xs ≡ xs
take_all zero [] h = refl
take_all zero (x ∷ xs) h = elim h [ ]
take_all (suc n) [] h = refl
take_all (suc n) (x ∷ xs) h = ap (λ l. x ∷ l) (take_all n xs (omega arith))

take_full : (n : ℕ) (xs ys : List Event) → length xs ≡ n → take n (xs ++ ys) ≡ xs
take_full zero [] ys h = refl
take_full zero (x ∷ xs) ys h = absurd (omega arith)
take_full (suc n) [] ys h = absurd (omega arith)
take_full (suc n) (x ∷ xs) ys h = ap (λ l. x ∷ l) (take_full n xs ys (omega arith))

record IsPlain (q : QosQueue) : Type 0 where
  class : q.qos ≡ best_effort
  bounded : 0 < q.maxsize
  room : length q.items ≤ q.maxsize
  no_retry : q.retry_buffer ≡ []

put-IsPlain : (now : ℕ) (e : Event) (q : QosQueue) → IsPlain q → IsPlain (put_nowait now e q).1
unfolding put_nowait enqueue_drop
put-IsPlain now e q p = ground (arith, length-append q.items (e ∷ []))

put_full :
    (now : ℕ) (e : Event) (q : QosQueue)
    → IsPlain q
    → full q.maxsize q.items ≡ true
    → (put_nowait now e q).1 ≡ record q { dropped = q.dropped + 1 }
unfolding put_nowait enqueue_drop
put_full now e q p f = ground arith

put_room :
    (now : ℕ) (e : Event) (q : QosQueue)
    → IsPlain q
    → full q.maxsize q.items ≡ false
    → (put_nowait now e q).1 ≡ record q { items = q.items ++ e ∷ [] }
unfolding put_nowait enqueue_drop
put_room now e q p f = ground arith

-- `rest`, put into `r`, leaves what the puts of `es` into `q` shall leave.
abbrev Kept : ℕ → List Event → QosQueue → List Event → QosQueue → Type 0
Kept now es q rest r =
    ((puts now rest r).items ≡ take q.maxsize (q.items ++ es)) × IsPlain (puts now rest r)

-- Puts into a BEST_EFFORT queue keep the oldest events that fit, in their order.
puts_lem : (now : ℕ) (es : List Event) (q : QosQueue) → IsPlain q → Kept now es q es q
unfolding puts
puts_lem now [] q p = (rw append-nil (sym (take_all q.maxsize q.items p.room)), p)
puts_lem now (e ∷ es) q p = elim (Bool-cases (full q.maxsize q.items)) [
  | inl f ↦
      let q' : QosQueue = record q { dropped = q.dropped + 1 } in
      let at : length q.items ≡ q.maxsize = ground (arith, p.bounded, p.room) in
      let ih = puts_lem now es q' (subst IsPlain (put_full now e q p f) (put-IsPlain now e q p)) in
      subst (Kept now (e ∷ es) q es) (sym (put_full now e q p f)) (
        ih.0 ∙ take_full q.maxsize q.items es at ∙ sym (take_full q.maxsize q.items (e ∷ es) at),
        ih.1,
      )
  | inr f ↦
      let q' : QosQueue = record q { items = q.items ++ e ∷ [] } in
      let ih = puts_lem now es q' (subst IsPlain (put_room now e q p f) (put-IsPlain now e q p)) in
      subst (Kept now (e ∷ es) q es) (sym (put_room now e q p f))
        (ih.0 ∙ ap (take q.maxsize) (append_assoc q.items (e ∷ []) es), ih.1)
]

drain_lem :
    (now : ℕ) (xs : List Event) (fuel : ℕ) (q : QosQueue)
    → q.items ≡ xs
    → q.retry_buffer ≡ []
    → length xs < fuel
    → drain fuel now q ≡ xs
unfolding drain get_nowait take_ready pop
drain_lem now xs zero q i r h = elim h [ ]
drain_lem now [] (suc fuel) q i r h = ground arith
drain_lem now (x ∷ xs) (suc fuel) q i r h =
    ground (arith, drain_lem now xs fuel (record q { items = xs }) refl r)

-- A BEST_EFFORT queue of size `n` is a bounded first-in first-out buffer: after any burst of puts
-- into a new one, gets give back the first `n` events of the burst, in order and nothing else.
pub drain-puts :
    (n now later : ℕ) (es : List Event)
    → 0 < n
    → drain (n + 1) later (puts now es (new_queue best_effort (some n))) ≡ take n es
unfolding new_queue
drain-puts zero now later es h = absurd (omega arith)
drain-puts (suc n) now later es h =
    let q : QosQueue = new_queue best_effort (some (suc n)) in
    let filled = puts_lem now es q (ground arith) in
    drain_lem later (take (suc n) es) (suc n + 1) (puts now es q) filled.0 filled.1.no_retry
      (omega (arith, length-take {0} (suc n) es))
