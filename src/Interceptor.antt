-- ===== src/Interceptor.antt =====
-- pwnproxy/services/proxy/interceptor and the Flow of pwnproxy/shared/models.py: flows held by the
-- mitmproxy addon and shown by the controller. A body is a list of bytes. mitmproxy's flow
-- objects are records, and its header assignment, which is not case-sensitive there, is a
-- parameter. `released` logs what is let go, with the flow as it then is; `shown` logs the callback.
pub mod Snapshots
pub mod Release
use pwnproxy.Prelude.{
  ℕ, String, Bool, true, false, not, ◌&&◌, Option, none, some, List, [], ◌∷◌, ◌++◌, map, take,
  length, ltb, string_eq, if◌then◌else◌,
}
use pwnproxy.Dict.{Dict, put, remove}
use pwnproxy.Dict

abbrev pub Headers : Type 0
Headers = Dict String String

abbrev pub Body : Type 0
Body = Option (List ℕ)

pub record Request : Type 0 where
  pub method : String
  pub url : String
  pub headers : Headers
  pub content : Body

pub record Response : Type 0 where
  pub status_code : ℕ
  pub headers : Headers
  pub content : Body

pub record HttpFlow : Type 0 where
  pub id : String
  pub request : Option Request
  pub response : Option Response

pub record Flow : Type 0 where
  pub id : String
  pub method : String
  pub url : String
  pub request_headers : Headers
  pub request_body : Body
  pub request_body_truncated : Bool
  pub status_code : Option ℕ
  pub response_headers : Option Headers
  pub response_body : Body
  pub response_body_truncated : Bool

pub record FlowSnapshot : Type 0 where
  pub method : String
  pub url : String
  pub request_headers : Headers
  pub request_body : Body
  pub status_code : Option ℕ
  pub response_headers : Option Headers
  pub response_body : Body

abbrev pub max_body : ℕ
max_body = 1048576

-- the dict of the pairs, a later one of the same name in place of an earlier one
abbrev pub as_dict : List (String × String) → Headers → Headers
as_dict [] d = d
as_dict ((k, v) ∷ pairs) d = as_dict pairs (put d k v)

abbrev pub cut : Body → Body
cut none = none
cut (some bytes) = some (if ltb max_body (length bytes) then take max_body bytes else bytes)

abbrev pub is_cut : Body → Bool
is_cut none = false
is_cut (some bytes) = ltb max_body (length bytes)

abbrev pub from_parts : String → Option Request → Option Response → Flow
from_parts id req res = record {
  id = id;
  method = elim req [ none ↦ "" | some r ↦ r.method ];
  url = elim req [ none ↦ "" | some r ↦ r.url ];
  request_headers = elim req [ none ↦ [] | some r ↦ as_dict r.headers [] ];
  request_body = elim req [ none ↦ none | some r ↦ cut r.content ];
  request_body_truncated = elim req [ none ↦ false | some r ↦ is_cut r.content ];
  status_code = elim res [ none ↦ none | some r ↦ some r.status_code ];
  response_headers = elim res [ none ↦ none | some r ↦ some (as_dict r.headers []) ];
  response_body = elim res [ none ↦ none | some r ↦ cut r.content ];
  response_body_truncated = elim res [ none ↦ false | some r ↦ is_cut r.content ];
}

unfoldable pub from_mitmproxy : HttpFlow → Flow
from_mitmproxy f = from_parts f.id f.request f.response

-- an empty dict of response headers is falsy, and becomes None
abbrev pub given_headers : Option Headers → Option Headers
given_headers none = none
given_headers (some []) = none
given_headers (some (h ∷ hs)) = some (h ∷ hs)

unfoldable pub from_flow : Flow → FlowSnapshot
from_flow flow = record {
  method = flow.method;
  url = flow.url;
  request_headers = flow.request_headers;
  request_body = flow.request_body;
  status_code = flow.status_code;
  response_headers = given_headers flow.response_headers;
  response_body = flow.response_body;
}

pub data Released : Type 0 where
  resumed killed : HttpFlow → Released

-- the addon and its controller, with the queue between them
pub record Interceptor : Type 0 where
  pub enabled : Bool
  pub intercepted : Dict String HttpFlow
  pub output_queue : List Flow
  pub pending : Dict String Flow
  pub snapshots : Dict String FlowSnapshot
  pub released : List Released
  pub shown : List Flow

abbrev pub init : Interceptor
init = record {
  enabled = false;
  intercepted = [];
  output_queue = [];
  pending = [];
  snapshots = [];
  released = [];
  shown = [];
}

-- `request` and `response` of the addon; the filter's verdict on the flow is an argument
unfoldable pub intercept : Bool → HttpFlow → Interceptor → Interceptor
intercept allowed f s =
    if s.enabled && allowed
    then record s {
      intercepted = put s.intercepted f.id f;
      output_queue = s.output_queue ++ from_mitmproxy f ∷ [];
    }
    else s

-- `resume` and `kill` of the addon: the flow let go as `release` says, if it was held
unfoldable pub let_go : (HttpFlow → Released) → String → Interceptor → Interceptor
let_go release id s = elim (Dict.get s.intercepted id) [
  | none ↦ s
  | some f ↦ record s {
    intercepted = remove s.intercepted id;
    released = s.released ++ release f ∷ [];
  }
]

-- the two pops of the controller
abbrev pub forget : String → Interceptor → Interceptor
forget id s = record s { pending = remove s.pending id; snapshots = remove s.snapshots id }

-- one round of `_consume_loop`, with `_handle_intercepted`
unfoldable pub consume : Interceptor → Interceptor
consume s = elim s.output_queue [
  | [] ↦ s
  | flow ∷ rest ↦ record s {
    output_queue = rest;
    pending = put s.pending flow.id flow;
    snapshots = put s.snapshots flow.id (from_flow flow);
    shown = s.shown ++ flow ∷ [];
  }
]

unfoldable pub forward : String → Interceptor → Interceptor
forward id s = forget id (let_go resumed id s)

unfoldable pub drop : String → Interceptor → Interceptor
drop id s = forget id (let_go killed id s)

abbrev pub each : (String → Interceptor → Interceptor) → List String → Interceptor → Interceptor
each op [] s = s
each op (id ∷ ids) s = each op ids (op id s)

abbrev pub keys {ℓ} : {V : Type ℓ} → Dict String V → List String
keys [] = []
keys ((k, v) ∷ d) = k ∷ keys d

unfoldable pub forward_all : Interceptor → Interceptor
forward_all s = each forward (keys s.pending) s

unfoldable pub drop_all : Interceptor → Interceptor
drop_all s = each drop (keys s.pending) s

unfoldable pub resume_all : Interceptor → Interceptor
resume_all s = each (let_go resumed) (keys s.intercepted) s

unfoldable pub set_enabled : Bool → Interceptor → Interceptor
set_enabled true s = record s { enabled = true }
set_enabled false s =
    if s.enabled
    then record (resume_all (record s { enabled = false })) { pending = []; snapshots = [] }
    else s

unfoldable pub toggle : Interceptor → Interceptor
toggle s = set_enabled (not s.enabled) s

module _ (set_header : Headers → String → String → Headers) where
  abbrev pub set_headers : List (String × String) → Headers → Headers
  set_headers [] h = h
  set_headers ((k, v) ∷ pairs) h = set_headers pairs (set_header h k v)

  abbrev pub edit_request : Flow → Option Request → Option Request
  edit_request edited none = none
  edit_request edited (some r) = some record {
    method = edited.method;
    url = edited.url;
    headers = set_headers edited.request_headers [];
    content = edited.request_body;
  }

  abbrev pub edited_response : ℕ → Flow → Response
  edited_response status edited = record {
    status_code = status;
    headers = elim edited.response_headers [ none ↦ [] | some hs ↦ set_headers hs [] ];
    content = edited.response_body;
  }

  abbrev pub edit_response : Flow → Option Response → Option Response
  edit_response edited none = none
  edit_response edited (some r) = elim edited.status_code [
    | none ↦ some r
    | some status ↦ some (edited_response status edited)
  ]

  -- the flow as it leaves, after the edits
  abbrev pub edit : Flow → HttpFlow → HttpFlow
  edit edited f = record f {
    request = edit_request edited f.request;
    response = edit_response edited f.response;
  }

  unfoldable pub forward_with_edits : String → Flow → Interceptor → Interceptor
  forward_with_edits id edited s = elim (Dict.get s.intercepted id) [
    | none ↦ s
    | some f ↦ forget id (let_go (λ g. resumed (edit edited g)) id s)
  ]
