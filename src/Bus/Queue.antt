-- ===== src/Bus/Queue.antt =====
-- pwnproxy/shared/bus/qos.py: the bounded queue with a policy for each QoS class.
-- Clock readings are natural numbers of milliseconds. A payload is a dict whose values stand as
-- their `str`, which is all that the queue reads of them. The log lines are left out.
pub mod Bounds
pub mod Latest
pub mod Fifo
pub mod Retries
pub mod Accounts
use pwnproxy.Prelude.{
  ℕ, zero, suc, ◌+◌, min, String, Bool, true, false, Option, none, some, List, [], ◌∷◌, ◌++◌,
  length, take, drop, keep_if, ltb, leb, ◌==◌, nat_eq, string_eq, if◌then◌else◌,
}
use Prim.Native.String.{◌++◌ as str_append}
use text.Mathlib.Text.{find?}
use pwnproxy.Dict.{Dict, get_or}
use pwnproxy.Bus.Topics.{QoSClass, critical, important, best_effort}

abbrev pub Payload : Type 0
Payload = Dict String String

pub record Event : Type 0 where
  pub topic : String
  pub payload : Payload

-- an entry of `_retry_buffer`
pub record Retry : Type 0 where
  pub event : Event
  pub next_retry : ℕ
  pub attempts : ℕ

pub record QosQueue : Type 0 where
  pub qos : QoSClass
  pub maxsize : ℕ
  pub items : List Event
  pub retry_buffer : List Retry
  pub dropped : ℕ
  pub coalesced : ℕ

abbrev pub default_maxsize : QoSClass → ℕ
default_maxsize critical = 256
default_maxsize important = 128
default_maxsize best_effort = 64

abbrev pub max_retries : ℕ
max_retries = 3

-- _RETRY_DELAYS[i] for the indices that the code forms
abbrev pub retry_delay : ℕ → ℕ
retry_delay zero = 50
retry_delay (suc zero) = 100
retry_delay _ = 200

-- `maxsize or DEFAULT_MAXSIZE[qos]`: 0 counts as not given
abbrev or_default : Option ℕ → ℕ → ℕ
or_default none d = d
or_default (some zero) d = d
or_default (some (suc n)) d = suc n

unfoldable pub new_queue : QoSClass → Option ℕ → QosQueue
new_queue qos maxsize = record {
  qos = qos;
  maxsize = or_default maxsize (default_maxsize qos);
  items = [];
  retry_buffer = [];
  dropped = 0;
  coalesced = 0;
}

-- `sub in s` of Python
abbrev contains_text : String → String → Bool
contains_text sub s = elim (find? s sub) [ none ↦ false | some _ ↦ true ]

unfoldable pub coalesce_key : Event → Option String
coalesce_key e =
    if contains_text "progress" e.topic
    then some (str_append "progress:" (get_or e.payload "job_id" "?"))
    else if e.topic == "triage.updated"
    then some (str_append "triage:" (get_or e.payload "finding_id" (get_or e.payload "id" "?")))
    else none

abbrev pub has_key : String → Event → Bool
has_key key e = elim (coalesce_key e) [ none ↦ false | some k ↦ k == key ]

-- `full()` of `asyncio.Queue`: no bound at 0
abbrev pub full : ℕ → List Event → Bool
full maxsize items = if maxsize == 0 then false else leb maxsize (length items)

-- put_nowait of the inner queue, with the `except QueueFull` of its two callers
unfoldable pub enqueue_drop : Event → QosQueue → Bool × QosQueue
enqueue_drop e q =
    if full q.maxsize q.items
    then (false, record q { dropped = q.dropped + 1 })
    else (true, record q { items = q.items ++ e ∷ [] })

-- the scan that replaces the first entry with the key; `none` if there is none
unfoldable pub replace_first : String → Event → List Event → Option (List Event)
replace_first key e [] = none
replace_first key e (x ∷ xs) =
    let rest = replace_first key e xs in
    if has_key key x then some (e ∷ xs) else elim rest [ none ↦ none | some ys ↦ some (x ∷ ys) ]

-- the loop that fills the new inner queue; the flag says that it stopped at `QueueFull`
unfoldable pub refill : ℕ → List Event → List Event → List Event × Bool
refill maxsize filled [] = (filled, false)
refill maxsize filled (x ∷ xs) =
    let rest = refill maxsize (filled ++ x ∷ []) xs in
    if full maxsize filled then (filled, true) else rest

abbrev one_if : Bool → ℕ
one_if true = 1
one_if false = 0

unfoldable pub rebuild : List Event → QosQueue → QosQueue
rebuild items q =
    let (filled, overflow) = refill q.maxsize [] items in
    record q { items = filled; dropped = q.dropped + one_if overflow }

unfoldable pub enqueue_keyed : String → Event → QosQueue → QosQueue
enqueue_keyed key e q = elim (replace_first key e q.items) [
  | some items ↦ rebuild items (record q { coalesced = q.coalesced + 1 })
  | none ↦ rebuild (q.items ++ e ∷ []) q
]

unfoldable pub enqueue_coalesce : Event → QosQueue → Bool × QosQueue
enqueue_coalesce e q = elim (coalesce_key e) [
  | none ↦ enqueue_drop e q
  | some key ↦ (true, enqueue_keyed key e q)
]

unfoldable pub enqueue_critical : ℕ → Event → QosQueue → Bool × QosQueue
enqueue_critical now e q =
    let r : Retry = record { event = e; next_retry = now + retry_delay 0; attempts = 1 } in
    let buffer = q.retry_buffer ++ r ∷ [] in
    if full q.maxsize q.items
    then (if ltb 32 (length buffer)
        then (
          true,
          record q { retry_buffer = drop 16 buffer; dropped = q.dropped + length (take 16 buffer) },
        )
        else (true, record q { retry_buffer = buffer }))
    else (true, record q { items = q.items ++ e ∷ [] })

abbrev pub dispatch : QoSClass → ℕ → Event → QosQueue → Bool × QosQueue
dispatch critical now e q = enqueue_critical now e q
dispatch important now e q = enqueue_coalesce e q
dispatch best_effort now e q = enqueue_drop e q

unfoldable pub put_nowait : ℕ → Event → QosQueue → Bool × QosQueue
put_nowait now e q = dispatch q.qos now e q

-- a loop of puts at one moment
unfoldable pub puts : ℕ → List Event → QosQueue → QosQueue
puts now [] q = q
puts now (e ∷ es) q = puts now es (put_nowait now e q).1

abbrev pub is_ready : ℕ → Retry → Bool
is_ready now r = leb r.next_retry now

abbrev pub is_later : ℕ → Retry → Bool
is_later now r = ltb now r.next_retry

abbrev serve : ℕ → List Retry → QosQueue → Option (Event × QosQueue)
serve now [] q = none
serve now (r ∷ _) q =
    some (r.event, record q { retry_buffer = keep_if (is_later now) q.retry_buffer })

-- the block `if self._retry_buffer: … return topic, data` that the two getters share
unfoldable pub take_ready : ℕ → QosQueue → Option (Event × QosQueue)
take_ready now q = serve now (keep_if (is_ready now) q.retry_buffer) q

abbrev pop_list : List Event → QosQueue → Option (Event × QosQueue)
pop_list [] q = none
pop_list (e ∷ items) q = some (e, record q { items = items })

-- get_nowait of the inner queue; `none` is `QueueEmpty`
unfoldable pub pop : QosQueue → Option (Event × QosQueue)
pop q = pop_list q.items q

unfoldable pub get_nowait : ℕ → QosQueue → Option (Event × QosQueue)
get_nowait now q = elim (take_ready now q) [ some r ↦ some r | none ↦ pop q ]

-- `get`, where nothing is put while it waits: it reads the clock at `now` and, if both buffers
-- had nothing to give, again after the wait, at `later`. `none` is `TimeoutError`.
unfoldable pub get_wait : ℕ → ℕ → QosQueue → Option (Event × QosQueue)
get_wait now later q = elim (get_nowait now q) [ some r ↦ some r | none ↦ take_ready later q ]

-- What a getter leaves behind; a getter that has nothing to give changes nothing.
abbrev pub left : QosQueue → Option (Event × QosQueue) → QosQueue
left q none = q
left q (some (e, q')) = q'

-- the loop of `retry_tick`: the entries that stay, and the number dropped
unfoldable pub age : ℕ → List Retry → List Retry × ℕ
age now [] = ([], 0)
age now (r ∷ rs) =
    let (kept, lost) = age now rs in
    if leb max_retries r.attempts then (kept, lost + 1) else (
      record r { next_retry = now + retry_delay (min r.attempts 2); attempts = r.attempts + 1 }
          ∷ kept,
      lost,
    )

-- An empty buffer is left as it is by the loop too, so the early return needs no branch.
unfoldable pub retry_tick : ℕ → QosQueue → QosQueue
retry_tick now q =
    let (kept, lost) = age now q.retry_buffer in
    record q { retry_buffer = kept; dropped = q.dropped + lost }
