-- ===== src/Examples/Channels.antt =====
-- The bus of shared/hooks.py at work.
use pwnproxy.Prelude.{false, nat_eq, ◌≡◌, refl, String, none, List, [], ◌∷◌, ◌++◌, ◌==◌, string_eq}
use pwnproxy.Dict
use pwnproxy.Bus.Topics.{channel_qos}
use pwnproxy.Bus.Queue.{Payload, new_queue, puts}
use pwnproxy.Bus.Hooks.{HookBus, init, register, publish}
use pwnproxy.Bus.InProcess
use pwnproxy.Bus.InProcess.Isolation.{Op, Refines, run_concrete, run_abstract, run-Refines}
use pwnproxy.Bus.Hooks.Invariant.{Inv, queues, count, held_back, Step, Reach, Reach-Inv}
use pwnproxy.Bus.Hooks.Delivery.{
  IsGiven, IsNewest, events_of, publishes, publish-IsGiven, register-publishes,
}

abbrev findings : String
findings = "findings"

abbrev note : Payload
note = ("id", "f1") ∷ []

-- a message held back, then a subscriber
abbrev heard : HookBus
heard = register 2 findings (publish 1 findings note init)

heard-Reach : Reach heard
heard-Reach =
    Reach.next (Reach.next Reach.start (Step.send 1 findings note init))
      (Step.subscribe 2 findings (publish 1 findings note init))

Reach-Inv_example : Inv heard
Reach-Inv_example = Reach-Inv heard-Reach

no_one : count init findings ≡ 0
unfolding Dict.get
no_one = refl

publish-IsGiven_example :
    let after = publish 3 findings note heard in
    IsGiven 3
      (record { topic = findings; payload = note })
      (queues heard findings)
      (queues after findings)
    × ((d : String) → (findings == d) ≡ false → queues after d ≡ queues heard d)
    × (count heard findings ≡ 0
        → (older : List Payload) × (held_back after findings ≡ older ++ note ∷ []))
    × ((count heard findings == 0) ≡ false → held_back after findings ≡ held_back heard findings)
publish-IsGiven_example = publish-IsGiven 3 findings note heard (Reach-Inv heard-Reach)

register-publishes_example :
    let b' = register 2 findings (publishes 1 findings (note ∷ note ∷ []) init) in
    (older : List Payload) × (kept : List Payload) × IsNewest older kept
      (held_back init findings ++ note ∷ note ∷ [])
    × (queues b' findings
        ≡ puts 2 (events_of findings kept) (new_queue (channel_qos findings) none) ∷ [])
    × (held_back b' findings ≡ [])
register-publishes_example =
    register-publishes 1 2 findings (note ∷ note ∷ []) init (Reach-Inv Reach.start) no_one

-- a reading in between, and a topic that no one hears
abbrev script : List Op
script =
    Op.subscribes findings
    ∷ Op.publishes 1 findings note
    ∷ Op.subscribes findings
    ∷ Op.consumes 2 findings 0
    ∷ Op.publishes 3 "other" note
    ∷ []

run-Refines_example : Refines (run_concrete script InProcess.init) (run_abstract script (λ _. []))
run-Refines_example = run-Refines script
