-- ===== src/Bus/Queue/Latest.antt =====
-- The coalescing put of qos.py: an IMPORTANT queue as a map from a key to its latest event.
use pwnproxy.Prelude.{
  ℕ, suc, ◌+◌, ◌≤◌, ◌<◌, max, sym, subst, ◌≡◌, ◌≢◌, ◌⊎◌, refl, String, true, Option, none, some,
  List, [], ◌∷◌, ◌++◌, inl, inr, arith, length, Option-cases, ◌==◌, ==_iff, string_eq,
  if◌then◌else◌,
}
use pwnproxy.Bus.Topics.{important}
use pwnproxy.Bus.Queue.{
  Event, QosQueue, enqueue_drop, replace_first, enqueue_keyed, enqueue_coalesce, has_key,
  put_nowait, dispatch, coalesce_key,
}
use pwnproxy.Bus.Queue.Bounds.{IsValid, enqueue_keyed_lem}

-- The first event with the key.
abbrev pub latest : String → List Event → Option Event
latest key [] = none
latest key (x ∷ xs) = if has_key key x then some x else latest key xs

-- An assignment to the key: in the place of the first event with it, else at the end.
abbrev pub assign : String → Event → List Event → List Event
assign key e [] = e ∷ []
assign key e (x ∷ xs) = if has_key key x then e ∷ xs else x ∷ assign key e xs

latest-assign :
    (key j : String) (e : Event) (xs : List Event)
    → coalesce_key e ≡ some key
    → latest j (assign key e xs) ≡ (if key == j then some e else latest j xs)
latest-assign key j e [] h = ground arith
latest-assign key j e (x ∷ xs) h = elim (Option-cases (coalesce_key x)) [
  | inl p ↦ ground (arith, latest-assign key j e xs h)
  | inr (k, p) ↦ ground (arith, latest-assign key j e xs h, ==_iff key j, ==_iff k key, ==_iff k j)
]

replace_first-assign :
    (key : String) (e : Event) (xs : List Event)
    → replace_first key e xs
      ≡ elim (latest key xs) [ none ↦ none | some _ ↦ some (assign key e xs) ]
unfolding replace_first
replace_first-assign key e [] = refl
replace_first-assign key e (x ∷ xs) = ground (arith, replace_first-assign key e xs)

assign_absent :
    (key : String) (e : Event) (xs : List Event)
    → latest key xs ≡ none
    → assign key e xs ≡ xs ++ e ∷ []
assign_absent key e [] h = refl
assign_absent key e (x ∷ xs) h = ground (arith, assign_absent key e xs)

enqueue_keyed_present :
    (key : String) (e : Event) (q : QosQueue) {old : Event}
    → IsValid q
    → latest key q.items ≡ some old
    → enqueue_keyed key e q ≡ record q { items = assign key e q.items; coalesced = q.coalesced + 1 }
enqueue_keyed_present key e q v h = rw (enqueue_keyed_lem key e q v, replace_first-assign, h)

enqueue_keyed_absent :
    (key : String) (e : Event) (q : QosQueue)
    → IsValid q
    → latest key q.items ≡ none
    → enqueue_keyed key e q ≡ (enqueue_drop e q).1
enqueue_keyed_absent key e q v h = rw (enqueue_keyed_lem key e q v, replace_first-assign, h)

put_important :
    (now : ℕ) (e : Event) (q : QosQueue) (key : String)
    → q.qos ≡ important
    → coalesce_key e ≡ some key
    → put_nowait now e q ≡ (true, enqueue_keyed key e q)
unfolding put_nowait enqueue_coalesce
put_important now e q key c h = ground arith

-- In a well-formed IMPORTANT queue, the put of an event with a key that is present or for which
-- there is room is an assignment: the key's latest event is the new one, and that of every other
-- key is what it was; nothing is dropped and the call returns true.
pub latest-put :
    (now : ℕ) (e : Event) (q : QosQueue) (key : String)
    → IsValid q
    → q.qos ≡ important
    → coalesce_key e ≡ some key
    → (latest key q.items ≢ none) ⊎ (length q.items < q.maxsize)
    → ((put_nowait now e q).0 ≡ true)
      × ((put_nowait now e q).1.dropped ≡ q.dropped)
      × ((j : String)
          → latest j (put_nowait now e q).1.items ≡ (if key == j then some e else latest j q.items))
latest-put now e q key v c h room =
    rw (put_important now e q key c h) (elim (Option-cases (latest key q.items)) [
      | inl p ↦ rw (enqueue_keyed_absent key e q v p) (
          unfold enqueue_drop in
          (
            refl,
            ground arith,
            λ j. ground (arith, latest-assign key j e q.items h, assign_absent key e q.items),
          ))
      | inr (old, p) ↦
          rw (enqueue_keyed_present key e q v p) (refl, refl, λ j. latest-assign key j e q.items h)
    ])

-- The put of an event with a new key into a full IMPORTANT queue drops that event, and still
-- returns true.
pub put_full_new_key :
    (now : ℕ) (e : Event) (q : QosQueue) (key : String)
    → IsValid q
    → q.qos ≡ important
    → coalesce_key e ≡ some key
    → latest key q.items ≡ none
    → length q.items ≡ q.maxsize
    → put_nowait now e q ≡ (true, record q { dropped = q.dropped + 1 })
put_full_new_key now e q key v c h p f =
    rw (put_important now e q key c h, enqueue_keyed_absent key e q v p)
      (unfold enqueue_drop in ground (arith, v.bounded))

-- The number of events with the key.
abbrev pub count_key : String → List Event → ℕ
count_key key [] = 0
count_key key (x ∷ xs) = let n = count_key key xs in if has_key key x then suc n else n

-- No key stands twice.
abbrev pub HasDistinctKeys : QosQueue → Type 0
HasDistinctKeys q = (key : String) → count_key key q.items ≤ 1

count_key-assign :
    (key j : String) (e : Event) (xs : List Event)
    → coalesce_key e ≡ some key
    → count_key j (assign key e xs) ≡ (if key == j then max 1 (count_key j xs) else count_key j xs)
count_key-assign key j e [] h = ground arith
count_key-assign key j e (x ∷ xs) h = elim (Option-cases (coalesce_key x)) [
  | inl p ↦ ground (arith, count_key-assign key j e xs h)
  | inr (k, p) ↦
      ground (arith, count_key-assign key j e xs h, ==_iff key j, ==_iff k key, ==_iff k j)
]

count_key-snoc :
    (j : String) (e : Event) (xs : List Event)
    → coalesce_key e ≡ none
    → count_key j (xs ++ e ∷ []) ≡ count_key j xs
count_key-snoc j e [] h = ground arith
count_key-snoc j e (x ∷ xs) h = ground (arith, count_key-snoc j e xs h)

enqueue_coalesce-distinct :
    (e : Event) (q : QosQueue) (j : String)
    → IsValid q
    → count_key j q.items ≤ 1
    → count_key j (enqueue_coalesce e q).1.items ≤ 1
unfolding enqueue_coalesce enqueue_drop
enqueue_coalesce-distinct e q j v d = elim (Option-cases (coalesce_key e)) [
  | inl p ↦ rw (p, enqueue_coalesce) (ground (arith, count_key-snoc j e q.items))
  | inr (key, p) ↦
      rw (p, enqueue_coalesce)
        (elim (Option-cases (latest key q.items)) [
          | inl a ↦
              rw (enqueue_keyed_absent key e q v a)
                (ground (arith, count_key-assign key j e q.items p, assign_absent key e q.items a))
          | inr (old, a) ↦
              rw (enqueue_keyed_present key e q v a)
                (ground (arith, count_key-assign key j e q.items p))
        ])
]

-- In a well-formed IMPORTANT queue where no coalescing key stands twice, none does after a put,
-- whatever the event.
pub put-HasDistinctKeys :
    (now : ℕ) (e : Event) (q : QosQueue)
    → IsValid q
    → q.qos ≡ important
    → HasDistinctKeys q
    → HasDistinctKeys (put_nowait now e q).1
unfolding put_nowait
put-HasDistinctKeys now e q v c d j =
    subst (λ k. count_key j (dispatch k now e q).1.items ≤ 1) (sym c)
      (enqueue_coalesce-distinct e q j v (d j))
