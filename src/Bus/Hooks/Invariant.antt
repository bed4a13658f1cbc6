-- ===== src/Bus/Hooks/Invariant.antt =====
-- What holds of a bus of hooks.py between two calls.
use pwnproxy.Prelude.{
  ℕ, zero, suc, ◌+◌, ◌-◌, ◌≤◌, ◌≡◌, refl, ap, subst, sym, ◌∙◌, ◌⊎◌, inl, String, none, List, [],
  ◌∷◌, ◌++◌, map, arith, length, All, All-append, length-append, length-drop, ◌&&◌, ◌==◌, ==_iff,
  nat_eq, string_eq, if◌then◌else◌,
}
use pwnproxy.Dict.{get, get_or, get-put, get-remove}
use pwnproxy.Bus.Topics.{channel_qos}
use pwnproxy.Bus.Queue.{Payload, Event, QosQueue, puts, put_nowait, new_queue, get_nowait, left}
use pwnproxy.Bus.Queue.Bounds.{IsValid, put_nowait-IsValid, new_queue-IsValid, get_nowait-IsValid}
use pwnproxy.Bus.Hooks.{
  HookBus, init, event_on, register_channel, new_subscriber, register, cap, hold, deliver, fan_out,
  publish, consume, update_at,
}

-- The queues of a channel.
abbrev pub queues : HookBus → String → List QosQueue
queues b channel = get_or b.subscribers channel []

abbrev pub count : HookBus → String → ℕ
count b channel = get_or b.subscriber_counts channel 0

abbrev pub held_back : HookBus → String → List Payload
held_back b channel = get_or b.pending channel []

pub record Inv (b : HookBus) : Type 0 where
  pub counted : (c : String) → count b c ≡ length (queues b c)
  pub valid : (c : String) → All IsValid (queues b c)
  pub capped : (c : String) → length (held_back b c) ≤ 200
  pub unheard : (c : String) → (count b c ≡ 0) ⊎ (held_back b c ≡ [])

pub puts-IsValid : (now : ℕ) (es : List Event) (q : QosQueue) → IsValid q → IsValid (puts now es q)
unfolding puts
puts-IsValid now [] q v = v
puts-IsValid now (e ∷ es) q v =
    puts-IsValid now es (put_nowait now e q).1 (put_nowait-IsValid now e q v)

new_subscriber-IsValid :
    (now : ℕ) (c : String) (ps : List Payload) → IsValid (new_subscriber now c ps)
unfolding new_subscriber
new_subscriber-IsValid now c ps =
    puts-IsValid now (map (event_on c) ps) (new_queue (channel_qos c) none)
      (new_queue-IsValid (channel_qos c) none)

deliver-IsValid :
    (now : ℕ) (e : Event) (qs : List QosQueue)
    → All IsValid qs
    → All IsValid (map (deliver now e) qs)
deliver-IsValid now e [] v = tt
deliver-IsValid now e (q ∷ qs) v = (put_nowait-IsValid now e q v.0, deliver-IsValid now e qs v.1)

pub length-deliver :
    (now : ℕ) (e : Event) (qs : List QosQueue) → length (map (deliver now e) qs) ≡ length qs
length-deliver now e [] = refl
length-deliver now e (q ∷ qs) = ap suc (length-deliver now e qs)

length-cap : (ps : List Payload) → length (cap ps) ≤ 200
unfolding cap
length-cap ps = omega (arith, length-drop {0} (length ps - 200) ps)

register_channel-queues :
    (c d : String) (b : HookBus) → queues (register_channel c b) d ≡ queues b d
unfolding register_channel
register_channel-queues c d b = ground (arith, get-put b.subscribers c d [], ==_iff c d)

-- What `register` leaves on each channel.
module _ (now : ℕ) (c d : String) (b : HookBus) where
  pub register-queues :
      queues (register now c b) d
      ≡ (if c == d then queues b c ++ new_subscriber now c (held_back b c) ∷ [] else queues b d)
  unfolding register register_channel
  register-queues = ground (
    arith,
    get-put (register_channel c b).subscribers c d
        (queues (register_channel c b) c ++ new_subscriber now c (held_back b c) ∷ []),
    register_channel-queues c c b,
    register_channel-queues c d b,
  )

  register-count :
      Inv b → count (register now c b) d ≡ (if c == d then count b c + 1 else count b d)
  unfolding register register_channel
  register-count h = ground (
    arith,
    get-put (register_channel c b).subscriber_counts c d
        (get_or (register_channel c b).subscriber_counts c 0 + 1),
    get-put b.subscriber_counts c d 0,
    get-put b.subscriber_counts c c 0,
    ==_iff c d,
    ==_iff c c,
    h.counted c,
  )

  pub register-held_back : held_back (register now c b) d ≡ (if c == d then [] else held_back b d)
  unfolding register register_channel
  register-held_back = ground (arith, get-remove b.pending c d)

pub register-Inv : (now : ℕ) (c : String) (b : HookBus) → Inv b → Inv (register now c b)
register-Inv now c b h = record {
  counted = λ d. ground (
    arith,
    register-count now c d b h,
    register-queues now c d b,
    h.counted c,
    h.counted d,
    length-append (queues b c) (new_subscriber now c (held_back b c) ∷ []),
  );
  valid = λ d. subst (All IsValid) (sym (register-queues now c d b)) (
      ground (
        arith,
        h.valid d,
        All-append IsValid (queues b c) (new_subscriber now c (held_back b c) ∷ []) (h.valid c)
            (new_subscriber-IsValid now c (held_back b c), tt),
      ));
  capped = λ d. ground (arith, register-held_back now c d b, h.capped d);
  unheard =
      λ d. ground (arith, register-held_back now c d b, register-count now c d b h, h.unheard d);
}

pub nil_of_length {ℓ} : {A : Type ℓ} (xs : List A) → length xs ≡ 0 → xs ≡ []
nil_of_length [] h = refl
nil_of_length (x ∷ xs) h = absurd (omega arith)

-- What `publish` leaves on each channel, by whether the channel has a subscriber.
module _ (now : ℕ) (c d : String) (p : Payload) (b : HookBus) (h : Inv b) where
  pub publish-queues :
      queues (publish now c p b) d
      ≡ (if c == d then map (deliver now (event_on c p)) (queues b c) else queues b d)
  unfolding publish hold fan_out
  publish-queues = ground (
    arith,
    get-put b.subscribers c d (map (deliver now (event_on c p)) (queues b c)),
    h.counted c,
    nil_of_length (queues b c),
    ==_iff c d,
  )

  pub publish-held_back :
      held_back (publish now c p b) d
      ≡ (if (c == d) && (count b c == 0) then cap (held_back b c ++ p ∷ []) else held_back b d)
  unfolding publish hold fan_out
  publish-held_back =
      ground (arith, get-put b.pending c d (cap (held_back b c ++ p ∷ [])), h.counted c)

  pub publish-count : count (publish now c p b) d ≡ count b d
  unfolding publish hold fan_out
  publish-count = ground arith

pub publish-Inv :
    (now : ℕ) (c : String) (p : Payload) (b : HookBus) → Inv b → Inv (publish now c p b)
publish-Inv now c p b h = record {
  counted = λ d. ground (
    arith,
    publish-count now c d p b h,
    publish-queues now c d p b h,
    h.counted d,
    length-deliver now (event_on c p) (queues b c),
    ==_iff c d,
  );
  valid = λ d.
      subst (All IsValid) (sym (publish-queues now c d p b h))
        (ground (arith, h.valid d, deliver-IsValid now (event_on c p) (queues b c) (h.valid c)));
  capped = λ d.
      ground
        (arith, publish-held_back now c d p b h, length-cap (held_back b c ++ p ∷ []), h.capped d);
  unheard = λ d. ground (
    arith,
    publish-held_back now c d p b h,
    publish-count now c d p b h,
    h.unheard d,
    ==_iff c d,
  );
}

init-Inv : Inv init
unfolding get
init-Inv = record {
  counted = λ c. refl;
  valid = λ c. tt;
  capped = λ c. omega arith;
  unheard = λ c. inl refl;
}

register_channel-count :
    (c d : String) (b : HookBus) → Inv b → count (register_channel c b) d ≡ count b d
unfolding register_channel
register_channel-count c d b h =
    ground (arith, get-put b.subscriber_counts c d 0, h.counted c, ==_iff c d)

register_channel-Inv : (c : String) (b : HookBus) → Inv b → Inv (register_channel c b)
register_channel-Inv c b h = record {
  counted = λ d.
      register_channel-count c d b h
      ∙ h.counted d
      ∙ ap length (sym (register_channel-queues c d b));
  valid = λ d. subst (All IsValid) (sym (register_channel-queues c d b)) (h.valid d);
  capped = λ d. unfold register_channel in ground (arith, h.capped d);
  unheard = λ d.
      subst (λ n. (n ≡ 0) ⊎ (held_back (register_channel c b) d ≡ []))
        (sym (register_channel-count c d b h))
        (unfold register_channel in ground (arith, h.unheard d));
}

module _ (now : ℕ) where
  abbrev served : QosQueue → QosQueue
  served q = left q (get_nowait now q)

  length-update_at : (i : ℕ) (qs : List QosQueue) → length (update_at i served qs) ≡ length qs
  length-update_at i [] = refl
  length-update_at zero (q ∷ qs) = refl
  length-update_at (suc i) (q ∷ qs) = ap suc (length-update_at i qs)

  update_at-IsValid :
      (i : ℕ) (qs : List QosQueue) → All IsValid qs → All IsValid (update_at i served qs)
  update_at-IsValid i [] v = tt
  update_at-IsValid zero (q ∷ qs) v = (get_nowait-IsValid now q v.0, v.1)
  update_at-IsValid (suc i) (q ∷ qs) v = (v.0, update_at-IsValid i qs v.1)

  consume-queues :
      (c d : String) (i : ℕ) (b : HookBus)
      → queues (consume now c i b) d
        ≡ (if c == d then update_at i served (queues b c) else queues b d)
  unfolding consume
  consume-queues c d i b =
      ground (arith, get-put b.subscribers c d (update_at i served (queues b c)))

  consume-Inv : (c : String) (i : ℕ) (b : HookBus) → Inv b → Inv (consume now c i b)
  unfolding consume
  consume-Inv c i b h = record {
    counted = λ d.
        ground
          (arith, consume-queues c d i b, h.counted d, length-update_at i (queues b c), ==_iff c d);
    valid = λ d.
        subst (All IsValid) (sym (consume-queues c d i b))
          (ground (arith, h.valid d, update_at-IsValid i (queues b c) (h.valid c)));
    capped = h.capped;
    unheard = h.unheard;
  }

-- A call on the bus, or a subscriber that takes an event.
pub data Step : HookBus → HookBus → Type 0 where
  subscribe : (now : ℕ) (c : String) (b : HookBus) → Step b (register now c b)
  declare : (c : String) (b : HookBus) → Step b (register_channel c b)
  send : (now : ℕ) (c : String) (p : Payload) (b : HookBus) → Step b (publish now c p b)
  take_one : (now : ℕ) (c : String) (i : ℕ) (b : HookBus) → Step b (consume now c i b)

pub data Reach : HookBus → Type 0 where
  start : Reach init
  next : {a b : HookBus} → Reach a → Step a b → Reach b

Step-Inv : {a b : HookBus} → Step a b → Inv a → Inv b
Step-Inv (subscribe now c b) h = register-Inv now c b h
Step-Inv (declare c b) h = register_channel-Inv c b h
Step-Inv (send now c p b) h = publish-Inv now c p b h
Step-Inv (take_one now c i b) h = consume-Inv now c i b h

-- On every bus that calls and subscribers lead to, each channel counts its subscribers, each
-- subscriber's queue is well-formed, and at most 200 messages are held back, on channels with no
-- subscriber only.
pub Reach-Inv : {b : HookBus} → Reach b → Inv b
Reach-Inv start = init-Inv
Reach-Inv (next r s) = Step-Inv s (Reach-Inv r)
