-- ===== src/Bus/Hooks/Delivery.antt =====
-- What becomes of a published message of hooks.py.
use pwnproxy.Prelude.{
  ℕ, zero, suc, take, min, subst, false, if_false, ◌+◌, ◌-◌, ◌≤◌, ◌≡◌, refl, ap, sym, ◌∙◌, String,
  none, List, [], ◌∷◌, ◌++◌, map, append-nil, arith, length, drop, All, append_assoc, length-append,
  length-drop, drop-append, drop-drop, ◌==◌, ==_refl, string_eq, nat_eq,
}
use pwnproxy.Bus.Topics.{channel_qos}
use pwnproxy.Bus.Queue.{Payload, Event, QosQueue, puts, put_nowait, new_queue}
use pwnproxy.Bus.Queue.Bounds.{IsValid}
use pwnproxy.Bus.Queue.Accounts.{accounted, put_nowait-accounted}
use pwnproxy.Bus.Hooks.{HookBus, event_on, new_subscriber, register, cap, deliver, publish}
use pwnproxy.Bus.Hooks.Invariant.{
  Inv, queues, count, held_back, publish-queues, publish-held_back, register-queues,
  register-held_back, publish-Inv, publish-count, nil_of_length,
}

-- Each queue was given the event once, and nothing else, in the order of the subscribers; what it
-- holds or counts has grown by one.
abbrev pub IsGiven : ℕ → Event → List QosQueue → List QosQueue → Type 0
IsGiven now e [] [] = Unit
IsGiven now e (q ∷ qs) (r ∷ rs) =
    ((r ≡ (put_nowait now e q).1) × (accounted r ≡ accounted q + 1)) × IsGiven now e qs rs
IsGiven now e qs rs = ⊥

deliver-IsGiven :
    (now : ℕ) (e : Event) (qs : List QosQueue)
    → All IsValid qs
    → IsGiven now e qs (map (deliver now e) qs)
deliver-IsGiven now e [] v = tt
deliver-IsGiven now e (q ∷ qs) v =
    ((refl, put_nowait-accounted now e q v.0), deliver-IsGiven now e qs v.1)

cap-snoc :
    (xs : List Payload) (p : Payload)
    → (older : List Payload) × (cap (xs ++ p ∷ []) ≡ older ++ p ∷ [])
unfolding cap
cap-snoc xs p =
    let n = length (xs ++ p ∷ []) - 200 in
    (drop n xs, drop-append {0} n xs (p ∷ []) (omega (arith, length-append {0} xs (p ∷ []))))

-- A publish of `p` on channel `c` gives every subscriber of `c` the event with that channel as its
-- topic and `p` as its payload, once and in one put, by which what its queue holds or counts grows
-- by one; the queues of every other channel are what they were. Where `c` has no subscriber, `p` is
-- the last of the messages held back on it; where it has one, what is held back is what it was.
pub publish-IsGiven :
    (now : ℕ) (c : String) (p : Payload) (b : HookBus)
    → Inv b
    → let after = publish now c p b in
      IsGiven now (record { topic = c; payload = p }) (queues b c) (queues after c)
      × ((d : String) → (c == d) ≡ false → queues after d ≡ queues b d)
      × (count b c ≡ 0 → (older : List Payload) × (held_back after c ≡ older ++ p ∷ []))
      × ((count b c == 0) ≡ false → held_back after c ≡ held_back b c)
publish-IsGiven now c p b h =
    let e : Event = record { topic = c; payload = p } in
    let given : queues (publish now c p b) c ≡ map (deliver now (event_on c p)) (queues b c) =
      ground (arith, publish-queues now c c p b h, ==_refl c) in
    (
      subst (IsGiven now e (queues b c)) (sym given)
          (deliver-IsGiven now e (queues b c) (h.valid c)),
      λ d n. publish-queues now c d p b h ∙ if_false (c == d) _ _ n,
      λ z.
          let snoc = cap-snoc (held_back b c) p in
          let held : held_back (publish now c p b) c ≡ cap (held_back b c ++ p ∷ []) =
            ground (arith, publish-held_back now c c p b h, ==_refl c, z) in
          (snoc.0, held ∙ snoc.1),
      λ z. ground (arith, publish-held_back now c c p b h, ==_refl c, z),
    )

-- Messages published one after the other on a channel.
pub publishes : ℕ → String → List Payload → HookBus → HookBus
publishes now c [] b = b
publishes now c (p ∷ ps) b = publishes now c ps (publish now c p b)

cap_small : (xs : List Payload) → length xs ≤ 200 → cap xs ≡ xs
unfolding cap
cap_small xs h = let e : length xs - 200 ≡ 0 = omega arith in rw e

cap-cap : (xs ys : List Payload) → cap (cap xs ++ ys) ≡ cap (xs ++ ys)
unfolding cap
cap-cap xs ys =
    let k = length xs - 200 in
    let joined = drop-append {0} k xs ys (omega arith) in
    ap (λ l. drop (length l - 200) l) (sym joined)
    ∙ drop-drop (length (drop k (xs ++ ys)) - 200) k (xs ++ ys)
    ∙ ap (λ n. drop n (xs ++ ys))
        (omega (arith, length-drop {0} k (xs ++ ys), length-append {0} xs ys))

publishes_lem :
    (now : ℕ) (c : String) (ps : List Payload) (b : HookBus)
    → Inv b
    → count b c ≡ 0
    → let b' = publishes now c ps b in
      Inv b'
      × (count b' c ≡ 0)
      × (queues b' c ≡ queues b c)
      × (cap (held_back b' c) ≡ cap (held_back b c ++ ps))
unfolding publishes
publishes_lem now c [] b h z = (h, z, refl, ap cap (sym (append-nil (held_back b c))))
publishes_lem now c (p ∷ ps) b h z =
    let next = publish now c p b in
    let z' : count next c ≡ 0 = publish-count now c c p b h ∙ z in
    let ih = publishes_lem now c ps next (publish-Inv now c p b h) z' in
    let held : held_back next c ≡ cap (held_back b c ++ p ∷ []) =
      ground (arith, publish-held_back now c c p b h, ==_refl c) in
    let same : queues next c ≡ queues b c =
      ground (arith, publish-queues now c c p b h, nil_of_length (queues b c), h.counted c) in
    (
      ih.0,
      ih.1,
      ih.2 ∙ same,
      ih.3
          ∙ ap (λ l. cap (l ++ ps)) held
          ∙ cap-cap (held_back b c ++ p ∷ []) ps
          ∙ ap cap (append_assoc (held_back b c) (p ∷ []) ps),
    )

-- what is left of a list after `older`: its newest 200 elements, or all of fewer
abbrev pub IsNewest : List Payload → List Payload → List Payload → Type 0
IsNewest older kept ps = (older ++ kept ≡ ps) × (length kept ≡ min 200 (length ps))

take-drop : (n : ℕ) (xs : List Payload) → take n xs ++ drop n xs ≡ xs
take-drop zero xs = refl
take-drop (suc n) [] = refl
take-drop (suc n) (x ∷ xs) = ap (λ l. x ∷ l) (take-drop n xs)

cap-IsNewest : (ps : List Payload) → IsNewest (take (length ps - 200) ps) (cap ps) ps
unfolding cap
cap-IsNewest ps =
    (take-drop (length ps - 200) ps, omega (arith, length-drop {0} (length ps - 200) ps))

-- the events with the channel as their topic
abbrev pub events_of : String → List Payload → List Event
events_of c [] = []
events_of c (p ∷ ps) = record { topic = c; payload = p } ∷ events_of c ps

map-event_on : (c : String) (ps : List Payload) → map (event_on c) ps ≡ events_of c ps
map-event_on c [] = refl
map-event_on c (p ∷ ps) = ap (λ es. event_on c p ∷ es) (map-event_on c ps)

-- Of the messages that a channel with no subscriber holds back and those published on it then, the
-- newest 200, or all of fewer, come to the first subscriber: its queue is a new one of the channel's
-- class after puts of the events with the channel as topic and those messages as payloads, oldest
-- first. It is then the only queue of the channel, and nothing stays held back.
pub register-publishes :
    (now later : ℕ) (c : String) (ps : List Payload) (b : HookBus)
    → Inv b
    → count b c ≡ 0
    → let b' = register later c (publishes now c ps b) in
      (older : List Payload) × (kept : List Payload) × IsNewest older kept (held_back b c ++ ps)
      × (queues b' c ≡ puts later (events_of c kept) (new_queue (channel_qos c) none) ∷ [])
      × (held_back b' c ≡ [])
unfolding new_subscriber
register-publishes now later c ps b h z =
    let b' = publishes now c ps b in
    let after = publishes_lem now c ps b h z in
    let held : held_back b' c ≡ cap (held_back b c ++ ps) =
      sym (cap_small (held_back b' c) (after.0.capped c)) ∙ after.3 in
    let none_yet : queues b' c ≡ [] =
      after.2 ∙ nil_of_length (queues b c) (sym (h.counted c) ∙ z) in
    let all = held_back b c ++ ps in
    let first : queues (register later c b') c
        ≡ puts later (map (event_on c) (cap all)) (new_queue (channel_qos c) none) ∷ [] =
      ground (arith, register-queues later c c b', ==_refl c, none_yet, held) in
    (
      take (length all - 200) all,
      cap all,
      cap-IsNewest all,
      first
          ∙ ap (λ es. puts later es (new_queue (channel_qos c) none) ∷ [])
              (map-event_on c (cap all)),
      ground (arith, register-held_back later c c b', ==_refl c),
    )
