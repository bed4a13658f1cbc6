-- ===== src/Autoscan/Events.antt =====
-- The events of autoscan.py: what the hook bus is told of the batches.
use pwnproxy.Prelude.{
  ℕ, ◌+◌, ◌≤◌, ◌<◌, ◌≡◌, refl, sym, subst, String, Bool, true, false, Option, none, some, List, [],
  ◌∷◌, ◌++◌, append_assoc, append-nil, any_of, arith, ltb, ◌==◌, ==_refl, nat_eq, string_eq,
  if◌then◌else◌, if-holds,
}
use pwnproxy.Autoscan.{
  AutoScanBatch, Topic, started, completed, Emitted, AutoScanTracker, new_tracker, new_batch,
  event_of, emit, finish, close_current, close_active, roll, is_idle, current, count_flow, announce,
  report_flow, report_finding, flush,
}

abbrev pub is_start_of : String → Emitted → Bool
is_start_of id e = elim e.topic [ started ↦ e.batch == id | completed ↦ false ]

abbrev pub has_started : String → List Emitted → Bool
has_started id es = any_of (is_start_of id) es

-- A completion comes after a start of its batch, with at least one flow.
abbrev pub IsDueTopic : Topic → List Emitted → String → ℕ → Type 0
IsDueTopic started seen id flows = Unit
IsDueTopic completed seen id flows = (has_started id seen ≡ true) × (0 < flows)

abbrev pub IsLog : List Emitted → List Emitted → Type 0
IsLog seen [] = Unit
IsLog seen (e ∷ es) = IsDueTopic e.topic seen e.batch e.flows × IsLog (seen ++ e ∷ []) es

IsLog-snoc :
    (seen es : List Emitted) (e : Emitted)
    → IsLog seen es
    → IsDueTopic e.topic (seen ++ es) e.batch e.flows
    → IsLog seen (es ++ e ∷ [])
IsLog-snoc seen [] e l d =
    (subst (λ s. IsDueTopic e.topic s e.batch e.flows) (append-nil seen) d, tt)
IsLog-snoc seen (x ∷ es) e l d = (
  l.0,
  IsLog-snoc (seen ++ x ∷ []) es e l.1
      (subst (λ s. IsDueTopic e.topic s e.batch e.flows) (sym (append_assoc seen (x ∷ []) es)) d),
)

has_started-snoc :
    (id : String) (es : List Emitted) (e : Emitted)
    → has_started id es ≡ true
    → has_started id (es ++ e ∷ []) ≡ true
has_started-snoc id [] e h = absurd (ground arith)
has_started-snoc id (x ∷ es) e h = ground (arith, has_started-snoc id es e)

has_started-own :
    (b : AutoScanBatch) (es : List Emitted)
    → has_started b.batch_id (es ++ event_of started b ∷ []) ≡ true
has_started-own b [] = ground (arith, ==_refl b.batch_id)
has_started-own b (x ∷ es) = ground (arith, has_started-own b es)

-- An active batch with flows has been announced, where there is a bus.
abbrev pub IsAnnounced : Bool → Option AutoScanBatch → List Emitted → Type 0
IsAnnounced has_bus none es = Unit
IsAnnounced has_bus (some b) es =
    has_bus ≡ true → 0 < b.flow_count → has_started b.batch_id es ≡ true

pub record IsTold (t : AutoScanTracker) : Type 0 where
  pub log : IsLog [] t.emitted
  pub announced : IsAnnounced t.has_bus t.active t.emitted

-- The operations that the plugin loader and the flush loop call.
pub data Step : AutoScanTracker → AutoScanTracker → Type 0 where
  flow :
      (now : ℕ) (id : String) (fid : Option String) (t : AutoScanTracker)
      → Step t (report_flow now id fid t)
  finding : (t : AutoScanTracker) → Step t (report_finding t)
  sweep : (now : ℕ) (t : AutoScanTracker) → Step t (flush now t)
  close : (t : AutoScanTracker) → Step t (close_active t)
  open_new : (now : ℕ) (id : String) (t : AutoScanTracker) → Step t (roll now id t)

pub data Reach (has_bus : Bool) (window : ℕ) : AutoScanTracker → Type 0 where
  fresh : Reach has_bus window (new_tracker has_bus window)
  next : {t u : AutoScanTracker} → Reach has_bus window t → Step t u → Reach has_bus window u

emit-IsLog :
    (topic : Topic) (b : AutoScanBatch) (t : AutoScanTracker)
    → IsLog [] t.emitted
    → (t.has_bus ≡ true → IsDueTopic topic t.emitted b.batch_id b.flow_count)
    → IsLog [] (emit topic b t).emitted
emit-IsLog topic b t l d =
    if-holds (IsLog []) t.has_bus (λ h. IsLog-snoc [] t.emitted (event_of topic b) l (d h)) (λ _. l)

finish-IsLog : (t : AutoScanTracker) → IsTold t → IsLog [] (finish t.active t).emitted
finish-IsLog t i = go t.active i.announced
  where
    go :
        (a : Option AutoScanBatch)
        → IsAnnounced t.has_bus a t.emitted
        → IsLog [] (finish a t).emitted
    go none h = i.log
    go (some b) h =
        if-holds (λ (u : AutoScanTracker). IsLog [] u.emitted) (ltb 0 b.flow_count)
          (λ p. emit-IsLog completed b t i.log (λ q. (h q (ground arith), ground arith)))
          (λ _. i.log)

close_current-IsTold : (t : AutoScanTracker) → IsTold t → IsTold (close_current t)
unfolding close_current
close_current-IsTold t i = record { log = finish-IsLog t i; announced = tt }

finish_bus : (a : Option AutoScanBatch) (t : AutoScanTracker) → (finish a t).has_bus ≡ t.has_bus
finish_bus none t = refl
finish_bus (some b) t =
    if-holds (λ (u : AutoScanTracker). u.has_bus ≡ t.has_bus) (ltb 0 b.flow_count) (λ _. refl)
      (λ _. refl)

-- the batch that takes a flow is announced if it has flows
abbrev Takes : AutoScanBatch × AutoScanTracker → Type 0
Takes (b, t) = IsLog [] t.emitted × IsAnnounced t.has_bus (some b) t.emitted

current-Takes :
    (now : ℕ) (id : String) (t : AutoScanTracker) → IsTold t → Takes (current now id t.active t)
current-Takes now id t i = go t.active i.announced
  where
    closed : Takes (new_batch id now, close_current t)
    closed = ((close_current-IsTold t i).log, λ _ p. absurd (omega arith))

    go : (a : Option AutoScanBatch) → IsAnnounced t.has_bus a t.emitted → Takes (current now id a t)
    go none h = closed
    go (some b) h = if-holds Takes (is_idle now t.window b) (λ _. closed) (λ _. (i.log, h))

emit-IsAnnounced :
    (c : AutoScanBatch) (t : AutoScanTracker)
    → IsAnnounced (emit started c t).has_bus (some c) (emit started c t).emitted
emit-IsAnnounced c t h p = rw h (has_started-own c t.emitted)

announce-IsTold :
    (c : AutoScanBatch) (u : AutoScanTracker)
    → IsLog [] u.emitted
    → (1 < c.flow_count → IsAnnounced u.has_bus (some c) u.emitted)
    → IsTold (announce c (record u { active = some c }))
announce-IsTold c u l h =
    let v = record u { active = some c } in
    if-holds IsTold (c.flow_count == 1)
      (λ _. record { log = emit-IsLog started c v l (λ _. tt); announced = emit-IsAnnounced c v })
      (λ p. record { log = l; announced = λ q r. h (ground arith) q r })

-- the count after a flow: as before, or one more
count_flow_lem :
    (fid : Option String) (b : AutoScanBatch)
    → ((count_flow fid b).batch_id ≡ b.batch_id)
      × ((count_flow fid b).flow_count ≤ b.flow_count + 1)
count_flow_lem none b = (refl, omega arith)
count_flow_lem (some fid) b =
    if-holds (λ (c : AutoScanBatch). (c.batch_id ≡ b.batch_id) × (c.flow_count ≤ b.flow_count + 1))
      (any_of (λ f. f == fid) b.flow_ids) (λ _. (refl, omega arith)) (λ _. (refl, omega arith))

counted_lem :
    (now : ℕ) (fid : Option String) (b : AutoScanBatch) (u : AutoScanTracker)
    → Takes (b, u)
    → let c = record (count_flow fid b) { last_activity = now } in
      IsTold (announce c (record u { active = some c }))
counted_lem now fid b u (l, h) =
    announce-IsTold (record (count_flow fid b) { last_activity = now }) u l
      (λ m q r.
        subst (λ i. has_started i u.emitted ≡ true) (sym (count_flow_lem fid b).0)
          (h q (omega (arith, (count_flow_lem fid b).1, m))))

Step-IsTold : {t u : AutoScanTracker} → Step t u → IsTold t → IsTold u
unfolding report_flow report_finding flush close_active roll
Step-IsTold (flow now id fid t) i =
    counted_lem now fid (current now id t.active t).0 (current now id t.active t).1
      (current-Takes now id t i)
Step-IsTold (finding t) i = report t.active i.announced
  where
    report :
        (a : Option AutoScanBatch)
        → IsAnnounced t.has_bus a t.emitted
        → IsTold (elim a [
          | none ↦ t
          | some b ↦ record t { active = some (record b { finding_count = b.finding_count + 1 }) }
        ])
    report none h = i
    report (some b) h = record { log = i.log; announced = h }
Step-IsTold (sweep now t) i = look t.active
  where
    look :
        (a : Option AutoScanBatch)
        → IsTold
            (elim a [ none ↦ t | some b ↦ if is_idle now t.window b then close_current t else t ])
    look none = i
    look (some b) =
        if-holds IsTold (is_idle now t.window b) (λ _. close_current-IsTold t i) (λ _. i)
Step-IsTold (close t) i = close_current-IsTold t i
Step-IsTold (open_new now id t) i =
    let closed = finish t.active t in
    let v = record closed { active = some (new_batch id now) } in
    record {
      log = emit-IsLog started (new_batch id now) v (finish-IsLog t i) (λ _. tt);
      announced = emit-IsAnnounced (new_batch id now) v;
    }

-- Whatever flows, findings, sweeps and closings a tracker has seen, each completed event comes
-- after a started event of its batch and counts at least one flow; and an active batch with flows
-- has been announced, where there is a bus.
pub Reach-IsTold :
    {has_bus : Bool} {window : ℕ} {t : AutoScanTracker} → Reach has_bus window t → IsTold t
unfolding new_tracker
Reach-IsTold fresh = record { log = tt; announced = tt }
Reach-IsTold (next r s) = Step-IsTold s (Reach-IsTold r)

-- A flow that is reported again within the window, while it is the only one of its batch, is not
-- counted again, but the started event is emitted again.
pub report_flow_again :
    (now : ℕ) (id fid : String) (b : AutoScanBatch) (t : AutoScanTracker)
    → t.active ≡ some b
    → t.has_bus ≡ true
    → is_idle now t.window b ≡ false
    → any_of (λ f. f == fid) b.flow_ids ≡ true
    → b.flow_count ≡ 1
    → (report_flow now id (some fid) t).emitted ≡ t.emitted ++ event_of started b ∷ []
unfolding report_flow
report_flow_again now id fid b t a h i k n = rw (a, i, k, n, h) refl
