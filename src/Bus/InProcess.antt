-- ===== src/Bus/InProcess.antt =====
-- pwnproxy/shared/bus/transports/inprocess.py: InProcessBus, topics over the QoS queues. A
-- subscriber is its place in the list of its topic, and its iterator takes from its queue.
pub mod Isolation
use pwnproxy.Prelude.{ℕ, String, Option, none, some, List, [], ◌∷◌, ◌++◌, map, length, string_eq}
use pwnproxy.Dict.{Dict, get, get_or, put}
use pwnproxy.Bus.Topics.{channel_qos}
use pwnproxy.Bus.Queue.{Payload, Event, QosQueue, new_queue, put_nowait, get_nowait, get_wait, left}
use pwnproxy.Bus.Hooks.{update_at}

pub record InProcessBus : Type 0 where
  pub subscribers : Dict String (List QosQueue)

abbrev pub init : InProcessBus
init = record { subscribers = [] }

unfoldable pub publish : ℕ → String → Payload → InProcessBus → InProcessBus
publish now topic payload b = elim (get b.subscribers topic) [
  | none ↦ b
  | some qs ↦ record {
    subscribers =
        put b.subscribers topic
          (map (λ q. (put_nowait now (record { topic = topic; payload = payload }) q).1) qs);
  }
]

unfoldable pub subscribe : String → InProcessBus → InProcessBus
subscribe topic b = record {
  subscribers =
      put b.subscribers topic
        (get_or b.subscribers topic [] ++ new_queue (channel_qos topic) none ∷ []);
}

unfoldable pub subscriber_count : String → InProcessBus → ℕ
subscriber_count topic b = length (get_or b.subscribers topic [])

-- `_iter_queue`: the rounds of `get`, given by the clock's readings, until there is an envelope;
-- `none` is that it still waits after them
unfoldable pub iter_queue : List (ℕ × ℕ) → QosQueue → Option (Event × QosQueue)
iter_queue [] q = none
iter_queue ((now, later) ∷ rounds) q =
    let rest = iter_queue rounds q in
    elim (get_wait now later q) [ some (e, q') ↦ some (e, q') | none ↦ rest ]

-- the `i`-th subscriber of a topic takes an event
unfoldable pub consume : ℕ → String → ℕ → InProcessBus → InProcessBus
consume now topic i b = record {
  subscribers =
      put b.subscribers topic
        (update_at i (λ q. left q (get_nowait now q)) (get_or b.subscribers topic []));
}
