-- ===== src/Interceptor/Snapshots.antt =====
-- What the interceptor shows: the pending flows and their snapshots.
use pwnproxy.Prelude.{
  ◌≡◌, refl, String, Bool, true, false, ◌&&◌, Option, none, some, Option-cases, inl, inr, List, [],
  ◌∷◌, ◌++◌, arith, string_eq, if-holds,
}
use pwnproxy.Dict.{Dict, put, remove, get-put, get-remove, get-remove_self}
use pwnproxy.Dict
use pwnproxy.Interceptor.{
  Headers, HttpFlow, Flow, FlowSnapshot, from_flow, Released, resumed, killed, Interceptor, init,
  intercept, let_go, forget, consume, forward, drop, each, keys, forward_all, drop_all, set_enabled,
  edit, forward_with_edits,
}

abbrev pub snapshot_of : Option Flow → Option FlowSnapshot
snapshot_of none = none
snapshot_of (some flow) = some (from_flow flow)

-- Each pending flow has its snapshot, and there is no other snapshot.
abbrev pub HasSnapshots : Interceptor → Type 0
HasSnapshots s = (id : String) → Dict.get s.snapshots id ≡ snapshot_of (Dict.get s.pending id)

forget-HasSnapshots : (id : String) (s : Interceptor) → HasSnapshots s → HasSnapshots (forget id s)
forget-HasSnapshots id s h j =
    ground (arith, get-remove s.pending id j, get-remove s.snapshots id j, h j)

let_go-HasSnapshots :
    (release : HttpFlow → Released) (id : String) (s : Interceptor)
    → HasSnapshots s
    → HasSnapshots (let_go release id s)
unfolding let_go
let_go-HasSnapshots release id s h j = elim (Option-cases (Dict.get s.intercepted id)) [
  | inl e ↦ rw (e, let_go) (h j)
  | inr (f, e) ↦ rw (e, let_go) (h j)
]

forward-HasSnapshots :
    (id : String) (s : Interceptor) → HasSnapshots s → HasSnapshots (forward id s)
unfolding forward
forward-HasSnapshots id s h =
    forget-HasSnapshots id (let_go resumed id s) (let_go-HasSnapshots resumed id s h)

drop-HasSnapshots : (id : String) (s : Interceptor) → HasSnapshots s → HasSnapshots (drop id s)
unfolding drop
drop-HasSnapshots id s h =
    forget-HasSnapshots id (let_go killed id s) (let_go-HasSnapshots killed id s h)

pub each-holds :
    (P : Interceptor → Type 0) (op : String → Interceptor → Interceptor)
    → ((id : String) (s : Interceptor) → P s → P (op id s))
    → (ids : List String) (s : Interceptor) → P s
    → P (each op ids s)
each-holds P op step [] s h = h
each-holds P op step (id ∷ ids) s h = each-holds P op step ids (op id s) (step id s h)

consume-HasSnapshots : (s : Interceptor) → HasSnapshots s → HasSnapshots (consume s)
unfolding consume
consume-HasSnapshots s h = go s.output_queue
  where
    go :
        (queue : List Flow)
        → HasSnapshots (elim queue [
          | [] ↦ s
          | flow ∷ rest ↦ record s {
            output_queue = rest;
            pending = put s.pending flow.id flow;
            snapshots = put s.snapshots flow.id (from_flow flow);
            shown = s.shown ++ flow ∷ [];
          }
        ])
    go [] j = h j
    go (flow ∷ rest) j = ground (
      arith,
      get-put s.pending flow.id j flow,
      get-put s.snapshots flow.id j (from_flow flow),
      h j,
    )

-- What mitmproxy, the consumer loop and the user do.
pub data Step (set_header : Headers → String → String → Headers)
    : Interceptor → Interceptor → Type 0 where
  arrives :
      (allowed : Bool) (f : HttpFlow) (s : Interceptor) → Step set_header s (intercept allowed f s)
  shows : (s : Interceptor) → Step set_header s (consume s)
  forwards : (id : String) (s : Interceptor) → Step set_header s (forward id s)
  edits :
      (id : String) (edited : Flow) (s : Interceptor)
      → Step set_header s (forward_with_edits set_header id edited s)
  drops : (id : String) (s : Interceptor) → Step set_header s (drop id s)
  forwards_all : (s : Interceptor) → Step set_header s (forward_all s)
  drops_all : (s : Interceptor) → Step set_header s (drop_all s)
  switches : (value : Bool) (s : Interceptor) → Step set_header s (set_enabled value s)

pub data Reach (set_header : Headers → String → String → Headers) : Interceptor → Type 0 where
  fresh : Reach set_header init
  next : {s t : Interceptor} → Reach set_header s → Step set_header s t → Reach set_header t

Step-HasSnapshots :
    (set_header : Headers → String → String → Headers) {s t : Interceptor}
    → Step set_header s t
    → HasSnapshots s
    → HasSnapshots t
unfolding intercept forward_with_edits forward_all drop_all set_enabled Dict.get
Step-HasSnapshots set_header (arrives allowed f s) h j =
    if-holds (λ (u : Interceptor). Dict.get u.snapshots j ≡ snapshot_of (Dict.get u.pending j))
      (s.enabled && allowed) (λ _. h j) (λ _. h j)
Step-HasSnapshots set_header (shows s) h j = consume-HasSnapshots s h j
Step-HasSnapshots set_header (forwards id s) h j = forward-HasSnapshots id s h j
Step-HasSnapshots set_header (edits id edited s) h j =
    elim (Option-cases (Dict.get s.intercepted id)) [
      | inl e ↦ rw (e, forward_with_edits) (h j)
      | inr (f, e) ↦
          let release = λ (g : HttpFlow). resumed (edit set_header edited g) in
          rw (e, forward_with_edits)
            (forget-HasSnapshots id (let_go release id s) (let_go-HasSnapshots release id s h) j)
    ]
Step-HasSnapshots set_header (drops id s) h j = drop-HasSnapshots id s h j
Step-HasSnapshots set_header (forwards_all s) h j =
    each-holds HasSnapshots forward forward-HasSnapshots (keys s.pending) s h j
Step-HasSnapshots set_header (drops_all s) h j =
    each-holds HasSnapshots drop drop-HasSnapshots (keys s.pending) s h j
Step-HasSnapshots set_header (switches true s) h j = h j
Step-HasSnapshots set_header (switches false s) h j =
    if-holds (λ (u : Interceptor). Dict.get u.snapshots j ≡ snapshot_of (Dict.get u.pending j))
      s.enabled (λ _. refl) (λ _. h j)

-- Whatever the proxy, the consumer and the user do, the snapshots are exactly those of the pending
-- flows, each taken of the flow that is pending.
pub Reach-HasSnapshots :
    (set_header : Headers → String → String → Headers) {s : Interceptor}
    → Reach set_header s
    → HasSnapshots s
unfolding Dict.get
Reach-HasSnapshots set_header fresh = λ j. refl
Reach-HasSnapshots set_header (next r st) =
    Step-HasSnapshots set_header st (Reach-HasSnapshots set_header r)
