-- ===== src/Examples/Watchers.antt =====
-- The auto-scan tracker, the interceptor and the canary registry at work.
use pwnproxy.Prelude.{
  ℕ, List, Bool, take, ◌↔◌, ◌==◌, ◌≡◌, refl, String, true, false, none, some, [], ◌∷◌, ◌++◌,
  string_eq,
}
use pwnproxy.Dict
use pwnproxy.Autoscan.{
  AutoScanBatch, AutoScanTracker, started, event_of, new_tracker, report_flow, close_active,
}
use pwnproxy.Autoscan.Events
use pwnproxy.Autoscan.Events.{IsTold, Reach-IsTold, report_flow_again}
use pwnproxy.Interceptor.{
  Headers, Request, HttpFlow, resumed, Interceptor, from_mitmproxy, init, intercept, consume,
  set_enabled, forward_with_edits,
}
use pwnproxy.Canary.{
  CanaryToken, CanaryRegistry, is_expired, mark_callback, cleanup_expired, expired_tokens,
  delete_each,
}
use pwnproxy.Canary.Callbacks.{HasCallback, mark_callback_iff}
use pwnproxy.Interceptor.Snapshots
use pwnproxy.Interceptor.Snapshots.{HasSnapshots, Reach-HasSnapshots}
use pwnproxy.Interceptor.Release.{IsResumed, set_enabled_off, forward_unedited}

abbrev tracker : AutoScanTracker
tracker = new_tracker true 3000

Reach-IsTold_example : IsTold (close_active (report_flow 10 "b1" (some "f1") tracker))
Reach-IsTold_example = Reach-IsTold {has_bus = true} {window = 3000} (
    Events.Reach.next
      (Events.Reach.next Events.Reach.fresh (Events.Step.flow 10 "b1" (some "f1") tracker))
      (Events.Step.close (report_flow 10 "b1" (some "f1") tracker)))

abbrev batch : AutoScanBatch
batch = record {
  batch_id = "b1";
  started_at = 10;
  last_activity = 10;
  flow_ids = "f1" ∷ [];
  flow_count = 1;
  finding_count = 0;
}

abbrev busy_tracker : AutoScanTracker
busy_tracker = record {
  has_bus = true;
  window = 3000;
  active = some batch;
  last = none;
  emitted = event_of started batch ∷ [];
}

-- the same flow, reported again by a second plugin
started_twice :
    (report_flow 20 "b2" (some "f1") busy_tracker).emitted
    ≡ event_of started batch ∷ event_of started batch ∷ []
started_twice = report_flow_again 20 "b2" "f1" batch busy_tracker refl refl refl refl refl

abbrev keep_all : Headers → String → String → Headers
keep_all headers k v = headers ++ (k, v) ∷ []

abbrev request : Request
request = record { method = "POST"; url = "/login"; headers = []; content = some (1 ∷ 2 ∷ []) }

abbrev held_flow : HttpFlow
held_flow = record { id = "f1"; request = some request; response = none }

abbrev holding : Interceptor
holding = record init { enabled = true; intercepted = ("f1", held_flow) ∷ [] }

held_there : Dict.get holding.intercepted "f1" ≡ some held_flow
unfolding Dict.get
held_there = refl

Reach-HasSnapshots_example :
    HasSnapshots (consume (intercept true held_flow (set_enabled true init)))
Reach-HasSnapshots_example = Reach-HasSnapshots keep_all (
    Snapshots.Reach.next
      (Snapshots.Reach.next
        (Snapshots.Reach.next Snapshots.Reach.fresh (Snapshots.Step.switches true init))
        (Snapshots.Step.arrives true held_flow (set_enabled true init)))
      (Snapshots.Step.shows (intercept true held_flow (set_enabled true init))))

set_enabled_off_example :
    ((set_enabled false holding).enabled ≡ false)
    × ((allowed : Bool) (g : HttpFlow)
        → intercept allowed g (set_enabled false holding) ≡ set_enabled false holding)
    × ((id : String) (f : HttpFlow)
        → Dict.get holding.intercepted id ≡ some f
        → IsResumed f (set_enabled false holding))
    × ((id : String) → Dict.get (set_enabled false holding).intercepted id ≡ none)
    × ((set_enabled false holding).pending ≡ [])
    × ((set_enabled false holding).snapshots ≡ [])
set_enabled_off_example = set_enabled_off holding refl

forward_unedited_example :
    (g : HttpFlow) × (q : Request) × ((forward_with_edits keep_all "f1"
        (from_mitmproxy held_flow)
        holding).released
      ≡ holding.released ++ resumed g ∷ [])
    × (g.request ≡ some q)
    × (q.method ≡ request.method)
    × (q.url ≡ request.url)
    × ((bytes : List ℕ) → request.content ≡ some bytes → q.content ≡ some (take 1048576 bytes))
    × (request.content ≡ none → q.content ≡ none)
forward_unedited_example = forward_unedited keep_all "f1" holding held_flow request held_there refl

abbrev canary : ℕ → String → CanaryToken
canary at token = record {
  token = token;
  scan_id = "s1";
  created_at = at;
  callback_received = false;
  callback_ip = none;
  callback_headers = [];
  callback_at = none;
}

abbrev registry : CanaryRegistry
registry = ("old", canary 1 "old") ∷ ("new", canary 90 "new") ∷ []

abbrev fresh_token : String
fresh_token = "new"

mark_callback_iff_example :
    let after = mark_callback 100 fresh_token "10.0.0.1" none registry in
    ((after.1 ≡ true)
      ↔ ((c : CanaryToken) × (Dict.get registry fresh_token ≡ some c) × (is_expired 100 c ≡ false)))
    × ((c : CanaryToken)
        → Dict.get registry fresh_token ≡ some c
        → after.1 ≡ true
        → (d : CanaryToken) × (Dict.get after.0 fresh_token ≡ some d)
          × HasCallback 100 "10.0.0.1" none c d)
    × (after.1 ≡ false → after.0 ≡ registry)
    × ((j : String) → (fresh_token == j) ≡ false → Dict.get after.0 j ≡ Dict.get registry j)
mark_callback_iff_example = mark_callback_iff 100 fresh_token "10.0.0.1" none registry

still_there : Dict.get (cleanup_expired 100 registry).0 "new" ≡ some (canary 90 "new")
unfolding cleanup_expired expired_tokens delete_each is_expired Dict.get Dict.remove
still_there = refl
