-- ===== src/Bus/Hooks.antt =====
-- pwnproxy/shared/hooks.py: the fan-out bus of named channels. A subscriber is its place in the
-- list of its channel. Payloads are those of `Queue`; the log lines and the deprecated
-- `set_scope_filter`, which only warns, are left out.
pub mod Invariant
pub mod Delivery
use pwnproxy.Prelude.{
  ℕ, zero, suc, ◌+◌, ◌-◌, String, Bool, true, false, not, ◌||◌, Option, none, some, List, [], ◌∷◌,
  ◌++◌, map, length, drop, ltb, any_of, ◌==◌, nat_eq, string_eq, if◌then◌else◌,
}
use pwnproxy.Dict.{Dict, get, get_or, put, remove}
use pwnproxy.Bus.Topics.{channel_qos}
use pwnproxy.Bus.Queue.{
  Payload, Event, QosQueue, new_queue, put_nowait, puts, get_nowait, get_wait, left,
}

pub record HookBus : Type 0 where
  pub subscribers : Dict String (List QosQueue)
  pub subscriber_counts : Dict String ℕ
  pub pending : Dict String (List Payload)
  pub warned_channels : List String

abbrev pub init : HookBus
init = record { subscribers = []; subscriber_counts = []; pending = []; warned_channels = [] }

abbrev pub pending_cap : ℕ
pending_cap = 200

-- the adapter of a channel puts each payload under the channel's name
abbrev pub event_on : String → Payload → Event
event_on channel payload = record { topic = channel; payload = payload }

abbrev pub is_registered : String → HookBus → Bool
is_registered channel b = elim (get b.subscribers channel) [ none ↦ false | some _ ↦ true ]

unfoldable pub register_channel : String → HookBus → HookBus
register_channel channel b = if is_registered channel b then b else record b {
  subscribers = put b.subscribers channel [];
  subscriber_counts = put b.subscriber_counts channel 0;
}

-- the queue of a new subscriber, with what was pending on the channel
unfoldable pub new_subscriber : ℕ → String → List Payload → QosQueue
new_subscriber now channel pending =
    puts now (map (event_on channel) pending) (new_queue (channel_qos channel) none)

-- the new queue is the last of the channel's list
unfoldable pub register : ℕ → String → HookBus → HookBus
register now channel b =
    let c = register_channel channel b in
    let queue = new_subscriber now channel (get_or c.pending channel []) in
    record c {
      subscribers = put c.subscribers channel (get_or c.subscribers channel [] ++ queue ∷ []);
      subscriber_counts =
          put c.subscriber_counts channel (get_or c.subscriber_counts channel 0 + 1);
      pending = remove c.pending channel;
    }

unfoldable pub get_subscriber_count : String → HookBus → ℕ
get_subscriber_count channel b = get_or b.subscriber_counts channel 0

unfoldable pub has_subscribers : String → HookBus → Bool
has_subscribers channel b = ltb 0 (get_or b.subscriber_counts channel 0)

-- `del pending[:overflow]` where there is an overflow
unfoldable pub cap : List Payload → List Payload
cap pending = drop (length pending - pending_cap) pending

abbrev add_once : String → List String → List String
add_once channel warned =
    if any_of (λ w. w == channel) warned then warned else warned ++ channel ∷ []

unfoldable pub hold : String → Payload → HookBus → HookBus
hold channel payload b = record b {
  pending = put b.pending channel (cap (get_or b.pending channel [] ++ payload ∷ []));
  warned_channels = add_once channel b.warned_channels;
}

abbrev pub deliver : ℕ → Event → QosQueue → QosQueue
deliver now e q = (put_nowait now e q).1

unfoldable pub fan_out : ℕ → String → Payload → HookBus → HookBus
fan_out now channel payload b = record b {
  subscribers =
      put b.subscribers channel
        (map (deliver now (event_on channel payload)) (get_or b.subscribers channel []));
}

unfoldable pub publish : ℕ → String → Payload → HookBus → HookBus
publish now channel payload b =
    if not (is_registered channel b) || get_or b.subscriber_counts channel 0 == 0
    then hold channel payload b
    else fan_out now channel payload b

abbrev payload_of : Option (Event × QosQueue) → Option (Payload × QosQueue)
payload_of none = none
payload_of (some (e, q)) = some (e.payload, q)

-- the adapter's `get_nowait`; `none` is `QueueEmpty`
unfoldable pub receive_nowait : ℕ → QosQueue → Option (Payload × QosQueue)
receive_nowait now q = payload_of (get_nowait now q)

-- the adapter's blocking `get`, over the clock readings of its rounds; `none` is that it still
-- waits after them
unfoldable pub receive : List (ℕ × ℕ) → QosQueue → Option (Payload × QosQueue)
receive [] q = none
receive ((now, later) ∷ rounds) q =
    let rest = receive rounds q in
    elim (get_wait now later q) [ some (e, q') ↦ some (e.payload, q') | none ↦ rest ]

abbrev pub update_at : ℕ → (QosQueue → QosQueue) → List QosQueue → List QosQueue
update_at i f [] = []
update_at zero f (q ∷ qs) = f q ∷ qs
update_at (suc i) f (q ∷ qs) = q ∷ update_at i f qs

-- The `i`-th subscriber of a channel takes an event from its queue, which the bus shares with it.
unfoldable pub consume : ℕ → String → ℕ → HookBus → HookBus
consume now channel i b = record b {
  subscribers =
      put b.subscribers channel
        (update_at i (λ q. left q (get_nowait now q)) (get_or b.subscribers channel []));
}
