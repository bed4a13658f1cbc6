-- ===== src/Examples/Queues.antt =====
-- Queues of shared/bus/qos.py at work.
use pwnproxy.Prelude.{
  ℕ, ◌+◌, ◌≡◌, ◌≢◌, inl, inr, refl, String, true, none, some, [], ◌∷◌, arith, ◌==◌, string_eq,
  if◌then◌else◌,
}
use pwnproxy.Dict
use pwnproxy.Bus.Topics.{critical, important, best_effort}
use pwnproxy.Bus.Queue.{
  Event, Retry, QosQueue, coalesce_key, put_nowait, get_nowait, take_ready, new_queue, puts,
}
use pwnproxy.Bus.Queue.Bounds.{IsValid, Step, Reach, Reach-IsValid}
use pwnproxy.Bus.Queue.Accounts.{accounted, put_nowait-accounted, get_nowait-accounted}
use pwnproxy.Bus.Queue.Latest.{
  latest, HasDistinctKeys, latest-put, put_full_new_key, put-HasDistinctKeys,
}
use pwnproxy.Bus.Queue.Fifo.{drain, drain-puts}

abbrev finding : Event
finding = record { topic = "finding.created"; payload = ("id", "f1") ∷ [] }

abbrev progress_at : String → String → Event
progress_at job at = record { topic = "scan.progress"; payload = ("job_id", job) ∷ ("at", at) ∷ [] }

abbrev retry_of : ℕ → Retry
retry_of at = record { event = finding; next_retry = at; attempts = 1 }

-- a full CRITICAL queue with two retries
abbrev busy : QosQueue
busy = record {
  qos = critical;
  maxsize = 1;
  items = finding ∷ [];
  retry_buffer = retry_of 50 ∷ retry_of 60 ∷ [];
  dropped = 0;
  coalesced = 0;
}

busy-IsValid : IsValid busy
busy-IsValid = record {
  bounded = omega arith;
  room = omega arith;
  buffered = omega arith;
  attempted = ((omega arith, omega arith), ((omega arith, omega arith), tt));
  critical_only = inl refl;
}

-- an IMPORTANT queue with the progress of one job, full
abbrev watching : QosQueue
watching = record {
  qos = important;
  maxsize = 1;
  items = progress_at "7" "10%" ∷ [];
  retry_buffer = [];
  dropped = 0;
  coalesced = 0;
}

watching-IsValid : IsValid watching
watching-IsValid = record {
  bounded = omega arith;
  room = omega arith;
  buffered = omega arith;
  attempted = tt;
  critical_only = inr refl;
}

progress_key : (at : String) → coalesce_key (progress_at "7" at) ≡ some "progress:7"
unfolding coalesce_key Dict.get
progress_key at = refl

other_key : (at : String) → coalesce_key (progress_at "8" at) ≡ some "progress:8"
unfolding coalesce_key Dict.get
other_key at = refl

in_place : latest "progress:7" watching.items ≡ some (progress_at "7" "10%")
unfolding coalesce_key Dict.get
in_place = refl

present : latest "progress:7" watching.items ≢ none
present h = ground (arith, in_place)

absent : latest "progress:8" watching.items ≡ none
unfolding coalesce_key Dict.get
absent = refl

one_key : HasDistinctKeys watching
unfolding coalesce_key Dict.get
one_key j = ground arith

taken : get_nowait 70 busy ≡ some (finding, record busy { retry_buffer = [] })
unfolding get_nowait take_ready
taken = refl

put_nowait-accounted_example : accounted (put_nowait 40 finding busy).1 ≡ accounted busy + 1
put_nowait-accounted_example = put_nowait-accounted 40 finding busy busy-IsValid

Reach-IsValid_example : IsValid (put_nowait 40 finding (new_queue critical (some 1))).1
Reach-IsValid_example =
    Reach-IsValid critical (some 1)
      (Reach.next Reach.here (Step.put 40 finding (new_queue critical (some 1))))

latest-put_example :
    ((put_nowait 5 (progress_at "7" "20%") watching).0 ≡ true)
    × ((put_nowait 5 (progress_at "7" "20%") watching).1.dropped ≡ 0)
    × ((j : String)
        → latest j (put_nowait 5 (progress_at "7" "20%") watching).1.items
          ≡ (if "progress:7" == j then some (progress_at "7" "20%") else latest j watching.items))
latest-put_example =
    latest-put 5 (progress_at "7" "20%") watching "progress:7" watching-IsValid refl
      (progress_key "20%") (inl present)

put_full_new_key_example :
    put_nowait 5 (progress_at "8" "20%") watching ≡ (true, record watching { dropped = 1 })
put_full_new_key_example =
    put_full_new_key 5 (progress_at "8" "20%") watching "progress:8" watching-IsValid refl
      (other_key "20%") absent refl

put-HasDistinctKeys_example : HasDistinctKeys (put_nowait 5 (progress_at "8" "20%") watching).1
put-HasDistinctKeys_example =
    put-HasDistinctKeys 5 (progress_at "8" "20%") watching watching-IsValid refl one_key

drain-puts_example :
    drain 3 9
      (puts 1 (finding ∷ progress_at "7" "10%" ∷ finding ∷ []) (new_queue best_effort (some 2)))
    ≡ finding ∷ progress_at "7" "10%" ∷ []
drain-puts_example = drain-puts 2 1 9 (finding ∷ progress_at "7" "10%" ∷ finding ∷ []) (omega arith)

-- Two retries are due at 70; a get takes one of them, and the other is gone too.
get_nowait-accounted_example :
    (accounted (record busy { retry_buffer = [] }) + 2 ≡ accounted busy)
    × ((record busy { retry_buffer = [] }).dropped ≡ busy.dropped)
    × ((record busy { retry_buffer = [] }).coalesced ≡ busy.coalesced)
get_nowait-accounted_example =
    get_nowait-accounted 70 busy {e = finding} {q' = record busy { retry_buffer = [] }} taken
