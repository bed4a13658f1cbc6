-- ===== src/Bus/InProcess/Isolation.antt =====
-- The in-process bus against what it promises: subscribers that know nothing of each other.
use pwnproxy.Prelude.{
  arith, ℕ, zero, suc, String, Option, none, some, List, [], ◌∷◌, ◌++◌, map, ◌==◌, ==_iff,
  string_eq, if◌then◌else◌, if_true, if_false, Bool-cases, Option-cases, ◌≡◌, refl, sym, ap, ◌∙◌,
  subst, inl, inr,
}
use pwnproxy.Dict.{get, get_or, put, get-put}
use pwnproxy.Bus.Topics.{channel_qos}
use pwnproxy.Bus.Queue.{Payload, QosQueue, new_queue, put_nowait, get_nowait, left}
use pwnproxy.Bus.Hooks.{update_at}
use pwnproxy.Bus.InProcess.{InProcessBus, init, publish, subscribe, consume}

-- what happens to one queue
pub data Act : Type 0 where
  puts : ℕ → Payload → Act
  gets : ℕ → Act

abbrev pub act : String → Act → QosQueue → QosQueue
act topic (puts now payload) q = (put_nowait now (record { topic = topic; payload = payload }) q).1
act topic (gets now) q = left q (get_nowait now q)

-- a queue of a topic after what happened to it, from its subscription on
unfoldable pub replay : String → List Act → QosQueue → QosQueue
replay topic [] q = q
replay topic (a ∷ acts) q = replay topic acts (act topic a q)

abbrev pub queue_of : String → List Act → QosQueue
queue_of topic acts = replay topic acts (new_queue (channel_qos topic) none)

-- the abstract bus: for each topic, the history of each subscriber
abbrev pub Spec : Type 0
Spec = String → List (List Act)

abbrev pub at_topic : String → (List (List Act) → List (List Act)) → Spec → Spec
at_topic topic f s other = if topic == other then f (s other) else s other

abbrev pub also : Act → List Act → List Act
also a acts = acts ++ a ∷ []

pub data Op : Type 0 where
  publishes : ℕ → String → Payload → Op
  subscribes : String → Op
  consumes : ℕ → String → ℕ → Op

abbrev pub concrete : Op → InProcessBus → InProcessBus
concrete (publishes now topic payload) b = publish now topic payload b
concrete (subscribes topic) b = subscribe topic b
concrete (consumes now topic i) b = consume now topic i b

abbrev update_history : ℕ → (List Act → List Act) → List (List Act) → List (List Act)
update_history i f [] = []
update_history zero f (h ∷ hs) = f h ∷ hs
update_history (suc i) f (h ∷ hs) = h ∷ update_history i f hs

-- a publication goes to every subscriber of the topic, a new one has no history, and what one
-- consumes is its own
abbrev pub abstract : Op → Spec → Spec
abstract (publishes now topic payload) s = at_topic topic (map (also (puts now payload))) s
abstract (subscribes topic) s = at_topic topic (λ hs. hs ++ [] ∷ []) s
abstract (consumes now topic i) s = at_topic topic (update_history i (also (gets now))) s

abbrev pub Refines : InProcessBus → Spec → Type 0
Refines b s = (topic : String) → get_or b.subscribers topic [] ≡ map (queue_of topic) (s topic)

replay-also :
    (topic : String) (acts : List Act) (a : Act) (q : QosQueue)
    → replay topic (also a acts) q ≡ act topic a (replay topic acts q)
unfolding replay
replay-also topic [] a q = refl
replay-also topic (b ∷ acts) a q = replay-also topic acts a (act topic b q)

map-also :
    (topic : String) (a : Act) (hs : List (List Act))
    → map (act topic a) (map (queue_of topic) hs) ≡ map (queue_of topic) (map (also a) hs)
map-also topic a [] = refl
map-also topic a (h ∷ hs) =
    let first = replay-also topic h a (new_queue (channel_qos topic) none) in
    λ i. sym first i ∷ map-also topic a hs i

map-append : {A B : Type 0} (f : A → B) (xs ys : List A) → map f (xs ++ ys) ≡ map f xs ++ map f ys
map-append f [] ys = refl
map-append f (x ∷ xs) ys = ap (λ zs. f x ∷ zs) (map-append f xs ys)

update-also :
    (topic : String) (a : Act) (i : ℕ) (hs : List (List Act))
    → update_at i (act topic a) (map (queue_of topic) hs)
      ≡ map (queue_of topic) (update_history i (also a) hs)
update-also topic a zero [] = refl
update-also topic a (suc i) [] = refl
update-also topic a zero (h ∷ hs) =
    ap (λ q. q ∷ map (queue_of topic) hs)
      (sym (replay-also topic h a (new_queue (channel_qos topic) none)))
update-also topic a (suc i) (h ∷ hs) = ap (λ qs. queue_of topic h ∷ qs) (update-also topic a i hs)

map-nil : {A B : Type 0} (g : A → B) (f : A → A) (xs : List A) → map g xs ≡ [] → map f xs ≡ xs
map-nil g f [] e = refl
map-nil g f (x ∷ xs) e = absurd (ground (arith, e))

abbrev value : Option (List QosQueue) → List QosQueue
value o = elim o [ none ↦ [] | some qs ↦ qs ]

published :
    (now : ℕ) (topic : String) (payload : Payload) (b : InProcessBus) (qs : List QosQueue)
    → get b.subscribers topic ≡ some qs
    → publish now topic payload b
      ≡ record { subscribers = put b.subscribers topic (map (act topic (puts now payload)) qs) }
unfolding publish
published now topic payload b qs g = rw (g, publish) refl

-- a change of one topic on both sides
change :
    (topic : String) (qs : List QosQueue) (f : List (List Act) → List (List Act)) (b : InProcessBus)
    (s : Spec)
    → Refines b s
    → qs ≡ map (queue_of topic) (f (s topic))
    → Refines (record { subscribers = put b.subscribers topic qs }) (at_topic topic f s)
change topic qs f b s r e other =
    let found = get-put b.subscribers topic other qs in
    elim (Bool-cases (topic == other)) [
      | inl same ↦
          ap value (found ∙ if_true (topic == other) _ _ same)
          ∙ e
          ∙ ap (λ t. map (queue_of t) (f (s t))) ((==_iff topic other).0 same)
          ∙ ap (map (queue_of other)) (sym (if_true (topic == other) (f (s other)) (s other) same))
      | inr differ ↦
          ap value (found ∙ if_false (topic == other) _ _ differ)
          ∙ r other
          ∙ ap (map (queue_of other))
              (sym (if_false (topic == other) (f (s other)) (s other) differ))
    ]

-- a publication on a topic that no one has subscribed to
absent :
    (topic : String) (f : List Act → List Act) (b : InProcessBus) (s : Spec)
    → get b.subscribers topic ≡ none
    → Refines b s
    → Refines b (at_topic topic (map f) s)
absent topic f b s n r other =
    let none_here : map (queue_of topic) (s topic) ≡ [] = sym (r topic) ∙ ap value n in
    elim (Bool-cases (topic == other)) [
      | inl same ↦
          let here : map (queue_of other) (s other) ≡ [] =
            subst (λ t. map (queue_of t) (s t) ≡ []) ((==_iff topic other).0 same) none_here in
          let mapped : map f (s other) ≡ s other = map-nil (queue_of other) f (s other) here in
          r other
          ∙ ap (map (queue_of other))
              (sym mapped ∙ sym (if_true (topic == other) (map f (s other)) (s other) same))
      | inr differ ↦
          r other
          ∙ ap (map (queue_of other))
              (sym (if_false (topic == other) (map f (s other)) (s other) differ))
    ]

publish-Refines :
    (now : ℕ) (topic : String) (payload : Payload) (b : InProcessBus) (s : Spec)
    → Refines b s
    → Refines (publish now topic payload b) (abstract (publishes now topic payload) s)
unfolding publish
publish-Refines now topic payload b s r = elim (Option-cases (get b.subscribers topic)) [
  | inl n ↦
      subst (λ c. Refines c (at_topic topic (map (also (puts now payload))) s))
        (sym (rw (n, publish) refl)) (absent topic (also (puts now payload)) b s n r)
  | inr (qs, g) ↦
      let here : qs ≡ map (queue_of topic) (s topic) = sym (ap value g) ∙ r topic in
      subst (λ c. Refines c (at_topic topic (map (also (puts now payload))) s))
        (sym (published now topic payload b qs g))
        (change topic (map (act topic (puts now payload)) qs) (map (also (puts now payload))) b s r
          (ap (map (act topic (puts now payload))) here
            ∙ map-also topic (puts now payload) (s topic)))
]

concrete-Refines :
    (op : Op) (b : InProcessBus) (s : Spec) → Refines b s → Refines (concrete op b) (abstract op s)
unfolding subscribe consume replay
concrete-Refines (publishes now topic payload) b s r = publish-Refines now topic payload b s r
concrete-Refines (subscribes topic) b s r =
    change topic (get_or b.subscribers topic [] ++ new_queue (channel_qos topic) none ∷ [])
      (λ hs. hs ++ [] ∷ []) b s r
      (ap (λ qs. qs ++ new_queue (channel_qos topic) none ∷ []) (r topic)
        ∙ sym (map-append (queue_of topic) (s topic) ([] ∷ [])))
concrete-Refines (consumes now topic i) b s r =
    change topic (update_at i (act topic (gets now)) (get_or b.subscribers topic []))
      (update_history i (also (gets now))) b s r
      (ap (update_at i (act topic (gets now))) (r topic) ∙ update-also topic (gets now) i (s topic))

abbrev pub run_concrete : List Op → InProcessBus → InProcessBus
run_concrete [] b = b
run_concrete (op ∷ ops) b = run_concrete ops (concrete op b)

abbrev pub run_abstract : List Op → Spec → Spec
run_abstract [] s = s
run_abstract (op ∷ ops) s = run_abstract ops (abstract op s)

run-Refines_from :
    (ops : List Op) (b : InProcessBus) (s : Spec)
    → Refines b s
    → Refines (run_concrete ops b) (run_abstract ops s)
run-Refines_from [] b s r = r
run-Refines_from (op ∷ ops) b s r =
    run-Refines_from ops (concrete op b) (abstract op s) (concrete-Refines op b s r)

-- After any sequence of publications, subscriptions and readings, the queues of each topic are those
-- of the abstract bus, where a subscriber's queue is a new queue of the topic's class to which
-- happened, in order, the publications on its topic since it subscribed and its own readings, and
-- nothing that another subscriber did or that another topic saw.
pub run-Refines : (ops : List Op) → Refines (run_concrete ops init) (run_abstract ops (λ _. []))
unfolding get
run-Refines ops = run-Refines_from ops init (λ _. []) (λ topic. refl)
