-- ===== src/Autoscan.antt =====
-- pwnproxy/plugins/core/autoscan.py: AutoScanTracker. Readings of the monotonic clock and the ids
-- from `uuid4` are arguments; the lock makes each method one step. `emitted` logs the events
-- given to the hook bus: the topic, the batch's id and its two counts.
pub mod Events
use pwnproxy.Prelude.{
  ℕ, ◌+◌, ◌-◌, String, Bool, true, false, not, ◌&&◌, Option, none, some, List, [], ◌∷◌, ◌++◌,
  any_of, ltb, ◌==◌, nat_eq, string_eq, if◌then◌else◌,
}

pub record AutoScanBatch : Type 0 where
  pub batch_id : String
  pub started_at : ℕ
  pub last_activity : ℕ
  pub flow_ids : List String
  pub flow_count : ℕ
  pub finding_count : ℕ

pub data Topic : Type 0 where
  started completed : Topic

pub record Emitted : Type 0 where
  pub topic : Topic
  pub batch : String
  pub flows : ℕ
  pub findings : ℕ

pub record AutoScanTracker : Type 0 where
  pub has_bus : Bool
  pub window : ℕ
  pub active : Option AutoScanBatch
  pub last : Option AutoScanBatch
  pub emitted : List Emitted

-- the default of `WINDOW_S`, in milliseconds
abbrev pub window_default : ℕ
window_default = 3000

unfoldable pub new_tracker : Bool → ℕ → AutoScanTracker
new_tracker has_bus window = record {
  has_bus = has_bus;
  window = window;
  active = none;
  last = none;
  emitted = [];
}

abbrev pub new_batch : String → ℕ → AutoScanBatch
new_batch id now = record {
  batch_id = id;
  started_at = now;
  last_activity = now;
  flow_ids = [];
  flow_count = 0;
  finding_count = 0;
}

abbrev pub event_of : Topic → AutoScanBatch → Emitted
event_of topic b = record {
  topic = topic;
  batch = b.batch_id;
  flows = b.flow_count;
  findings = b.finding_count;
}

abbrev pub emit : Topic → AutoScanBatch → AutoScanTracker → AutoScanTracker
emit topic b t = record t {
  emitted = if t.has_bus then t.emitted ++ event_of topic b ∷ [] else t.emitted;
}

-- the end of a batch with a flow, which `_close_current` and `_roll` share
abbrev pub finish : Option AutoScanBatch → AutoScanTracker → AutoScanTracker
finish none t = t
finish (some b) t = if ltb 0 b.flow_count then record (emit completed b t) { last = some b } else t

unfoldable pub close_current : AutoScanTracker → AutoScanTracker
close_current t = record (finish t.active t) { active = none }

unfoldable pub close_active : AutoScanTracker → AutoScanTracker
close_active t = close_current t

unfoldable pub roll : ℕ → String → AutoScanTracker → AutoScanTracker
roll now id t =
    let closed = finish t.active t in
    emit started (new_batch id now) (record closed { active = some (new_batch id now) })

abbrev pub is_idle : ℕ → ℕ → AutoScanBatch → Bool
is_idle now window b = ltb window (now - b.last_activity)

-- the batch that a flow reported now falls into, and the tracker with it
abbrev pub current :
    ℕ → String → Option AutoScanBatch → AutoScanTracker → AutoScanBatch × AutoScanTracker
current now id none t = (new_batch id now, close_current t)
current now id (some b) t =
    if is_idle now t.window b then (new_batch id now, close_current t) else (b, t)

-- the flow counted, unless it was seen or has no id
abbrev pub count_flow : Option String → AutoScanBatch → AutoScanBatch
count_flow none b = b
count_flow (some fid) b =
    if any_of (λ f. f == fid) b.flow_ids
    then b
    else record b { flow_ids = b.flow_ids ++ fid ∷ []; flow_count = b.flow_count + 1 }

abbrev pub announce : AutoScanBatch → AutoScanTracker → AutoScanTracker
announce b t = if b.flow_count == 1 then emit started b t else t

unfoldable pub report_flow : ℕ → String → Option String → AutoScanTracker → AutoScanTracker
report_flow now id flow t =
    let (b, t') = current now id t.active t in
    let counted = record (count_flow flow b) { last_activity = now } in
    announce counted (record t' { active = some counted })

unfoldable pub report_finding : AutoScanTracker → AutoScanTracker
report_finding t = elim t.active [
  | none ↦ t
  | some b ↦ record t { active = some (record b { finding_count = b.finding_count + 1 }) }
]

-- one round of `_flush_loop`
unfoldable pub flush : ℕ → AutoScanTracker → AutoScanTracker
flush now t = elim t.active [
  | none ↦ t
  | some b ↦ if is_idle now t.window b then close_current t else t
]
